-- ===== src/Server/Senders.antt =====
-- core/server.py: under which names packets leave the server, and what a round of the client loop
-- keeps of every connection.
use proxy_net.Prelude.{
  ℕ, ◌≡◌, refl, inl, inr, List, [], ◌∷◌, ◌++◌, Bool, true, false, Option, some, if◌then◌else◌, All,
  Member, Text, text, ◌==◌, text_eq, Bool-cases, ltb, Option-cases,
}
use proxy_net.Dict.{get}
use proxy_net.Packets.{Fields, get_field, text_field}
use proxy_net.Hub.{MessagePacket, build_message_packet}
use proxy_net.Hub.Membership as HubMembers
use proxy_net.Hub.Membership.{enter_room-IsValid, leave_room-IsValid, attach_client-IsValid}
use proxy_net.Padding.{max_content_bytes}
use proxy_net.History.{append_history}
use proxy_net.History.Bounds.{IsBounded, append_history-IsBounded}
use proxy_net.RateLimit.{RateLimiter, allow}
use proxy_net.Relay.{leave}
use proxy_net.Relay.Valid as RelayTables
use proxy_net.Relay.Membership as RelayCalls
use proxy_net.Server.{
  Runtime, Moment, ServerPacket, failed, joined, past, members_now, voice_peers, room_list, message,
  voice_joined, key_exchange, pong, Deliveries, ChatServer, Connection, Reply, room_lines, copies,
}
use proxy_net.Server.Messages.{
  content_text, handle_message, handle_content, after_limit, posted, handle_key_packet,
  after_key_limit,
}
use proxy_net.Server.Voice.{handle_voice_leave}

-- The parts of the server are valid.
pub record IsServing (s : ChatServer) : Type 0 where
  pub hub_valid : HubMembers.IsValid s.hub
  pub voice_valid : RelayTables.IsValid s.voice
  pub history_bounded : IsBounded s.history

-- The thread of a connection and the hub agree on its room and name.
pub record IsSettled (s : ChatServer) (conn : Connection) : Type 0 where
  pub named : get s.hub.client_usernames conn.client_id ≡ some conn.username
  pub placed : get s.hub.client_rooms conn.client_id ≡ some conn.room

-- A message or a packet of the key exchange goes to the room of the connection, in its name.
abbrev pub IsOwn : ChatServer → Connection → ℕ × ServerPacket → Type 0
IsOwn s conn (t, message m) =
    (m.user ≡ conn.username) × (m.room ≡ conn.room) × Member t (room_lines s.hub conn.room)
IsOwn s conn (t, key_exchange fields) =
    (text_field fields (text "user") ≡ some conn.username)
    × (text_field fields (text "room") ≡ some conn.room)
    × Member t (room_lines s.hub conn.room)
IsOwn s conn (t, failed code) = Unit
IsOwn s conn (t, joined room user snapshot) = Unit
IsOwn s conn (t, past room messages) = Unit
IsOwn s conn (t, members_now snapshot moved) = Unit
IsOwn s conn (t, voice_peers room entries) = Unit
IsOwn s conn (t, room_list rooms) = Unit
IsOwn s conn (t, voice_joined sender_id token port codec) = Unit
IsOwn s conn (t, pong ts) = Unit

pub All-append :
    {A : Type 0} (P : A → Type 0) (xs ys : List A) → All P xs → All P ys → All P (xs ++ ys)
All-append P [] ys a b = b
All-append P (x ∷ xs) ys (p, a) b = (p, All-append P xs ys a b)

copies-All :
    (P : ℕ × ServerPacket → Type 0) (packet : ServerPacket) (ts : List ℕ)
    → ((t : ℕ) → Member t ts → P (t, packet))
    → All P (copies packet ts)
unfolding copies
copies-All P packet [] p = tt
copies-All P packet (t ∷ ts) p = (p t (inl refl), copies-All P packet ts (λ u m. p u (inr m)))

-- What a round of the loop does.
pub record IsHandled (s : ChatServer) (conn : Connection) (reply : Reply) : Type 0 where
  pub own : All (IsOwn s conn) reply.2
  pub same_client : reply.1.client_id ≡ conn.client_id
  pub settled : IsSettled reply.0 reply.1
  pub others :
      (other : Connection)
      → (conn.client_id == other.client_id) ≡ false
      → IsSettled s other
      → IsSettled reply.0 other
  pub serving : IsServing reply.0

-- A round that leaves the hub, the room and the name.
pub stays-IsHandled :
    (s t : ChatServer) (conn c : Connection) (out : Deliveries)
    → t.hub ≡ s.hub
    → c.client_id ≡ conn.client_id
    → c.room ≡ conn.room
    → c.username ≡ conn.username
    → RelayTables.IsValid t.voice
    → IsBounded t.history
    → All (IsOwn s conn) out
    → IsSettled s conn
    → IsServing s
    → IsHandled s conn (t, c, out)
stays-IsHandled s t conn c out hub id room name voice history own settled serving = record {
  own = own;
  same_client = id;
  settled = record {
    named = rw (hub, id, name) settled.named;
    placed = rw (hub, id, room) settled.placed;
  };
  others = λ other apart at. record { named = rw hub at.named; placed = rw hub at.placed };
  serving = record {
    hub_valid = rw hub serving.hub_valid;
    voice_valid = voice;
    history_bounded = history;
  };
}

-- Deliveries without a message.
pub silent :
    (s : ChatServer) (conn : Connection) (packet : ServerPacket) (ts : List ℕ)
    → ((t : ℕ) → IsOwn s conn (t, packet))
    → All (IsOwn s conn) (copies packet ts)
silent s conn packet ts p = copies-All (IsOwn s conn) packet ts (λ t m. p t)

pub key_packet-IsHandled :
    (now : Moment) (kind : Text) (s : ChatServer) (conn : Connection) (packet : Fields)
    → IsSettled s conn
    → IsServing s
    → IsHandled s conn (handle_key_packet now kind s conn packet)
unfolding handle_key_packet text_field get_field
key_packet-IsHandled now kind s conn packet settled serving =
    from_limit (allow conn.key_limiter now.monotonic)
  where
    from_limit :
        (out : RateLimiter × Bool) → IsHandled s conn (after_key_limit kind s conn packet out)
    from_limit (limiter, false) =
        stays-IsHandled s s conn (record conn { key_limiter = limiter }) [] refl refl refl refl
          serving.voice_valid serving.history_bounded tt settled serving
    from_limit (limiter, true) =
        stays-IsHandled s s conn (record conn { key_limiter = limiter }) _ refl refl refl refl
          serving.voice_valid serving.history_bounded
          (copies-All (IsOwn s conn) _ (room_lines s.hub conn.room) (λ t m. (refl, refl, m)))
          settled serving

pub voice_leave-IsHandled :
    (s : ChatServer) (conn : Connection)
    → IsSettled s conn
    → IsServing s
    → IsHandled s conn (handle_voice_leave s conn)
unfolding handle_voice_leave RelayCalls.step
voice_leave-IsHandled s conn settled serving =
    let v =
      RelayCalls.step-IsValid s.voice (RelayCalls.leaves conn.client_id) serving.voice_valid in
    let t : ChatServer = record s { voice = (leave s.voice conn.client_id).0 } in
    elim (Option-cases (leave s.voice conn.client_id).1) [
      | inl nobody ↦
          rw (handle_voice_leave, nobody)
            (stays-IsHandled s t conn conn [] refl refl refl refl v serving.history_bounded tt
              settled serving)
      | inr (p, left) ↦
          rw (handle_voice_leave, left)
            (stays-IsHandled s t conn conn _ refl refl refl refl v serving.history_bounded
              (silent s conn _ (room_lines s.hub conn.room) (λ t. tt)) settled serving)
    ]

module _ (env : Runtime) where
  posted-IsHandled :
      (s : ChatServer) (conn : Connection) (limiter : RateLimiter) (content : Text) (ts : ℕ)
      (enc : Option Text)
      → IsSettled s conn
      → IsServing s
      → IsHandled s conn (
          posted env s conn limiter
            (build_message_packet s.hub conn.room conn.client_id content ts enc))
  unfolding build_message_packet
  posted-IsHandled s conn limiter content ts enc settled serving =
      let m : MessagePacket = build_message_packet s.hub conn.room conn.client_id content ts enc in
      let name : m.user ≡ conn.username = rw (build_message_packet, settled.named) refl in
      stays-IsHandled s (record s { history = append_history s.keep_history s.history conn.room m })
        conn (record conn { limiter = limiter; rate_limit_warned = false }) _ refl refl refl refl
        serving.voice_valid
        (append_history-IsBounded s.keep_history s.history conn.room m serving.history_bounded)
        (All-append (IsOwn s conn) _ _
          (copies-All (IsOwn s conn) (message m) (room_lines s.hub conn.room)
            (λ t there. (name, refl, there)))
          (silent s conn _ (room_lines s.hub conn.room) (λ t. tt)))
        settled serving

  pub message-IsHandled :
      (now : Moment) (s : ChatServer) (conn : Connection) (packet : Fields)
      → IsSettled s conn
      → IsServing s
      → IsHandled s conn (handle_message env now s conn packet)
  unfolding handle_message
  message-IsHandled now s conn packet settled serving =
      from_content (env.strip (content_text env (get_field packet (text "content"))))
        (text_field packet (text "enc"))
    where
      same :
          (c : Connection) (out : Deliveries)
          → c.client_id ≡ conn.client_id
          → c.room ≡ conn.room
          → c.username ≡ conn.username
          → All (IsOwn s conn) out
          → IsHandled s conn (s, c, out)
      same c out id room name own =
          stays-IsHandled s s conn c out refl id room name serving.voice_valid
            serving.history_bounded own settled serving

      from_limit :
          (content : Text) (enc : Option Text) (out : RateLimiter × Bool)
          → IsHandled s conn (after_limit env now s conn content enc out)
      from_limit content enc (limiter, true) =
          posted-IsHandled s conn limiter content now.wall enc settled serving
      from_limit content enc (limiter, false) =
          same (record conn { limiter = limiter; rate_limit_warned = true }) _ refl refl refl
            (warned conn.rate_limit_warned)
        where
          warned :
              (b : Bool)
              → All
                  (IsOwn s conn)
                  (if b then [] else (conn.line, failed (text "rate_limited")) ∷ [])
          warned true = tt
          warned false = (tt, tt)

      from_content :
          (content : Text) (enc : Option Text)
          → IsHandled s conn (handle_content env now s conn content enc)
      from_content [] enc = same conn [] refl refl refl tt
      from_content (c ∷ cs) enc =
          elim (Bool-cases (ltb max_content_bytes (env.utf8_size (c ∷ cs)))) [
            | inl long ↦ rw long (same conn _ refl refl refl (tt, tt))
            | inr fits ↦ rw fits (from_limit (c ∷ cs) enc (allow conn.limiter now.monotonic))
          ]
