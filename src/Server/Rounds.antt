-- ===== src/Server/Rounds.antt =====
-- core/server.py: a round of the client loop, whatever packet was read.
use proxy_net.Prelude.{
  ℕ, ◌≡◌, ◌≢◌, refl, inl, inr, [], ◌∷◌, Bool, true, false, not, ◌||◌, Option, none, some,
  if◌then◌else◌, All, Text, text, ◌==◌, ==_iff, text_eq, Option-cases, arith, Result, ok, err, ap,
}
use proxy_net.Dict.{get, put, values}
use proxy_net.Dict.Laws.{get-put, get-remove}
use proxy_net.Packets.{Fields, get_field, text_field}
use proxy_net.Hub.{MessageHub, RoomSnapshot, attach_client, leave_room, join_room, enter_room}
use proxy_net.Hub.Membership as HubMembers
use proxy_net.Hub.Membership.{enter_room-IsValid, leave_room-IsValid, attach_client-IsValid}
use proxy_net.History.{history_messages}
use proxy_net.Names.{or_fallback, clean_name, unique_username}
use proxy_net.Relay.{Relay, RelayError, Participant, JoinRequest, join, move, set_salt}
use proxy_net.Relay.Valid as RelayTables
use proxy_net.Relay.Membership as RelayCalls
use proxy_net.Server.{
  Runtime, Moment, past, pong, Deliveries, ChatServer, Connection, Reply, room_lines,
  broadcast_voice_peers, send_room_snapshot,
}
use proxy_net.Server.Rooms.{handle_join, rejoined, raw_name, announced_join}
use proxy_net.Server.Voice.{
  text_or_empty, voice_request, handle_voice_join, after_voice_join, handle_voice_salt,
}
use proxy_net.Server.Loop.{handle_packet, handle_type}
use proxy_net.Server.Senders.{
  IsServing, IsSettled, IsOwn, IsHandled, All-append, silent, stays-IsHandled, key_packet-IsHandled,
  voice_leave-IsHandled, message-IsHandled,
}

pub attach_client_keeps :
    (h : MessageHub) (c : Text)
    → ((attach_client h c).client_usernames ≡ h.client_usernames)
      × ((attach_client h c).client_rooms ≡ h.client_rooms)
unfolding attach_client
attach_client_keeps h c = elim (Option-cases (get h.clients c)) [
  | inl absent ↦ rw (attach_client, absent) (refl, refl)
  | inr (client, there) ↦ rw (attach_client, there) (refl, refl)
]

-- The names and rooms of a hub that a client joins.
pub join_room_names :
    (h : MessageHub) (room c username : Text) (at : ℕ)
    → ((join_room h room c username at).0.client_usernames ≡ put h.client_usernames c username)
      × ((join_room h room c username at).0.client_rooms ≡ put h.client_rooms c room)
unfolding join_room enter_room
join_room_names h room c username at =
    let (names, rooms) = attach_client_keeps h c in
    (ap (λ d. put d c username) names, ap (λ d. put d c room) rooms)

-- A name stays one, or gets the fallback.
or_fallback-filled : (t fallback : Text) → fallback ≢ [] → or_fallback t fallback ≢ []
or_fallback-filled [] fallback some_name e = some_name e
or_fallback-filled (c ∷ cs) fallback some_name e = cc

pub clean_name-filled :
    (is_space : ℕ → Bool) (raw : Option Text) (fallback : Text)
    → fallback ≢ []
    → clean_name is_space raw fallback ≢ []
unfolding clean_name
clean_name-filled is_space raw fallback = or_fallback-filled _ fallback

-- The hub that a client left for another room, or that it stays in.
pub record IsLeft (h left : MessageHub) (c : Text) : Type 0 where
  pub left_valid : HubMembers.IsValid left
  pub names_of_others :
      (d : Text) → (c == d) ≡ false → get left.client_usernames d ≡ get h.client_usernames d
  pub rooms_of_others :
      (d : Text) → (c == d) ≡ false → get left.client_rooms d ≡ get h.client_rooms d

pub leave_room-IsLeft :
    (h : MessageHub) (c : Text) (moving : Bool)
    → HubMembers.IsValid h
    → IsLeft h (if moving then leave_room h c else h) c
unfolding leave_room
leave_room-IsLeft h c false v = record {
  left_valid = v;
  names_of_others = λ d apart. refl;
  rooms_of_others = λ d apart. refl;
}
leave_room-IsLeft h c true v = record {
  left_valid = leave_room-IsValid h c v;
  names_of_others =
      λ d apart. ground (arith, get-remove h.client_usernames c d v.usernames_distinct);
  rooms_of_others = λ d apart. ground (arith, get-remove h.client_rooms c d v.rooms_distinct);
}

module _ (env : Runtime) where
  announced_join-silent :
      (s t : ChatServer) (conn c : Connection) (old : Text) (moving : Bool)
      (snapshot : RoomSnapshot)
      → All (IsOwn s conn) (announced_join env t c old moving snapshot)
  announced_join-silent s t conn c old moving snapshot =
      All-append (IsOwn s conn) _ _ (if_all moving) (
        All-append (IsOwn s conn) _ _ (silent s conn _ (room_lines t.hub c.room) (λ u. tt)) (
          tt,
          All-append (IsOwn s conn) _ _ (history_all t.keep_history) (
              All-append (IsOwn s conn) _ _ (silent s conn _ (room_lines t.hub c.room) (λ u. tt))
                (silent s conn _ (values t.transports) (λ u. tt))),
        ))
    where
      if_all : (b : Bool) → All (IsOwn s conn) (if b then broadcast_voice_peers t old else [])
      if_all true = silent s conn _ (room_lines t.hub old) (λ u. tt)
      if_all false = tt

      history_all :
          (b : Bool)
          → All (IsOwn s conn) (
              if b
              then (
                c.line,
                past c.room
                    (history_messages env.message_size (env.history_size c.room) t.history c.room),
              )
                ∷ []
              else [])
      history_all true = (tt, tt)
      history_all false = tt

  rejoined-IsHandled :
      (now : Moment) (s : ChatServer) (conn : Connection) (room requested : Text) (moving : Bool)
      (left : MessageHub)
      → room ≢ []
      → IsLeft s.hub left conn.client_id
      → IsServing s
      → IsHandled s conn (rejoined env now s conn room requested moving left)
  unfolding join_room RelayCalls.step
  rejoined-IsHandled now s conn room requested moving left some_room l serving =
      let username : Text =
        unique_username env.casefold left.registry room requested conn.client_id in
      let reply : Reply = rejoined env now s conn room requested moving left in
      let (names, rooms) = join_room_names left room conn.client_id username now.wall in
      let moved_voice =
        RelayCalls.step-IsValid s.voice (RelayCalls.moves conn.client_id room)
          serving.voice_valid in
      record {
        own = All-append (IsOwn s conn) _ _ (told moving) (
            announced_join-silent s reply.0 conn reply.1 conn.room moving
              (join_room left room conn.client_id username now.wall).1);
        same_client = refl;
        settled = record {
          named = rw names (
              ground (
                arith,
                get-put left.client_usernames conn.client_id conn.client_id username,
                ==_iff conn.client_id conn.client_id,
              ));
          placed = rw rooms (
              ground (
                arith,
                get-put left.client_rooms conn.client_id conn.client_id room,
                ==_iff conn.client_id conn.client_id,
              ));
        };
        others = λ other apart at. record {
          named = rw names (
              ground (
                arith,
                get-put left.client_usernames conn.client_id other.client_id username,
                l.names_of_others other.client_id apart,
                at.named,
              ));
          placed = rw rooms (
              ground (
                arith,
                get-put left.client_rooms conn.client_id other.client_id room,
                l.rooms_of_others other.client_id apart,
                at.placed,
              ));
        };
        serving = record {
          hub_valid =
              enter_room-IsValid (attach_client left conn.client_id) room conn.client_id username
                now.wall some_room (attach_client-IsValid left conn.client_id l.left_valid);
          voice_valid =
              RelayCalls.step-IsValid (move s.voice conn.client_id room)
                (RelayCalls.renames conn.client_id username) moved_voice;
          history_bounded = serving.history_bounded;
        };
      }
    where
      told :
          (b : Bool)
          → All
              (IsOwn s conn)
              (if b then send_room_snapshot left conn.room (some conn.username) else [])
      told true = silent s conn _ (room_lines left conn.room) (λ t. tt)
      told false = tt

  join-IsHandled :
      (now : Moment) (s : ChatServer) (conn : Connection) (packet : Fields)
      → IsSettled s conn
      → IsServing s
      → IsHandled s conn (handle_join env now s conn packet)
  unfolding handle_join
  join-IsHandled now s conn packet settled serving =
      let room : Text =
        clean_name env.is_space (raw_name env (get_field packet (text "room"))) conn.room in
      let moving : Bool = not (room == conn.room) in
      let in_a_room : conn.room ≢ [] =
        λ e. serving.hub_valid.named conn.client_id (rw⁻¹ e settled.placed) in
      rejoined-IsHandled now s conn room _ moving
        (if moving then leave_room s.hub conn.client_id else s.hub)
        (clean_name-filled env.is_space (raw_name env (get_field packet (text "room"))) conn.room
          in_a_room)
        (leave_room-IsLeft s.hub conn.client_id moving serving.hub_valid) serving

  -- A reply, or the server where the loop ends with an exception.
  abbrev pub IsAnswered : ChatServer → Connection → Result ChatServer Reply → Type 0
  IsAnswered s conn (ok reply) = IsHandled s conn reply
  IsAnswered s conn (err t) = (t.hub ≡ s.hub) × IsServing t

  voice_join-IsAnswered :
      (now : Moment) (s : ChatServer) (conn : Connection) (packet : Fields)
      → IsSettled s conn
      → IsServing s
      → IsAnswered s conn (handle_voice_join env now s conn packet)
  unfolding handle_voice_join RelayCalls.step
  voice_join-IsAnswered now s conn packet settled serving =
      let q : JoinRequest = voice_request env conn packet in
      from_join (join s.voice q now.token)
        (RelayCalls.step-IsValid s.voice (RelayCalls.joins q now.token) serving.voice_valid)
    where
      from_join :
          (out : Relay × Result RelayError Participant)
          → RelayTables.IsValid out.0
          → IsAnswered s conn (after_voice_join env s conn out)
      from_join (voice, err e) v = (
        refl,
        record {
          hub_valid = serving.hub_valid;
          voice_valid = v;
          history_bounded = serving.history_bounded;
        },
      )
      from_join (voice, ok p) v =
          stays-IsHandled s (record s { voice = voice }) conn conn _ refl refl refl refl v
            serving.history_bounded (tt, silent s conn _ (room_lines s.hub conn.room) (λ t. tt))
            settled serving

  voice_salt-IsHandled :
      (s : ChatServer) (conn : Connection) (packet : Fields)
      → IsSettled s conn
      → IsServing s
      → IsHandled s conn (handle_voice_salt env s conn packet)
  unfolding handle_voice_salt RelayCalls.step
  voice_salt-IsHandled s conn packet settled serving =
      let salt : Text = text_or_empty env (get_field packet (text "salt")) in
      let v =
        RelayCalls.step-IsValid s.voice (RelayCalls.sets_salt conn.client_id salt)
          serving.voice_valid in
      let t : ChatServer = record s { voice = (set_salt s.voice conn.client_id salt).0 } in
      stays-IsHandled s t conn conn _ refl refl refl refl v serving.history_bounded
        (told t (set_salt s.voice conn.client_id salt).1) settled serving
    where
      told :
          (t : ChatServer) (b : Bool)
          → All (IsOwn s conn) (if b then broadcast_voice_peers t conn.room else [])
      told t true = silent s conn _ (room_lines t.hub conn.room) (λ u. tt)
      told t false = tt

  if-IsAnswered :
      (s : ChatServer) (conn : Connection) (b : Bool) (x y : Result ChatServer Reply)
      → IsAnswered s conn x
      → IsAnswered s conn y
      → IsAnswered s conn (if b then x else y)
  if-IsAnswered s conn true x y p q = p
  if-IsAnswered s conn false x y p q = q

  -- Whatever packet a client sends: what leaves of it as a
  -- message or as a packet of the key exchange goes to the transports of the sender's room, with that
  -- room and the name the server settled on for the sender; the hub, the sender's thread and the
  -- threads of the other clients go on agreeing on rooms and names; and the parts stay valid.
  pub handle_packet-IsAnswered :
      (now : Moment) (s : ChatServer) (conn : Connection) (packet : Fields)
      → IsSettled s conn
      → IsServing s
      → IsAnswered s conn (handle_packet env now s conn packet)
  unfolding handle_packet
  handle_packet-IsAnswered now s conn packet settled serving =
      from_type (text_field packet (text "type"))
    where
      quiet : (out : Deliveries) → All (IsOwn s conn) out → IsHandled s conn (s, conn, out)
      quiet out own =
          stays-IsHandled s s conn conn out refl refl refl refl serving.voice_valid
            serving.history_bounded own settled serving

      from_type : (kind : Option Text) → IsAnswered s conn (handle_type env now s conn packet kind)
      from_type none = quiet [] tt
      from_type (some kind) =
          if-IsAnswered s conn (kind == text "message") _ _
            (message-IsHandled env now s conn packet settled serving)
            (if-IsAnswered s conn (kind == text "join") _ _
              (join-IsHandled now s conn packet settled serving)
              (if-IsAnswered s conn (kind == text "voice_join") _ _
                (voice_join-IsAnswered now s conn packet settled serving)
                (if-IsAnswered s conn (kind == text "voice_salt") _ _
                  (voice_salt-IsHandled s conn packet settled serving)
                  (if-IsAnswered s conn (kind == text "voice_leave") _ _
                    (voice_leave-IsHandled s conn settled serving)
                    (if-IsAnswered s conn (kind == text "key_offer" || kind == text "sender_key") _
                      _ (key_packet-IsHandled now kind s conn packet settled serving)
                      (if-IsAnswered s conn (kind == text "ping")
                        (ok (s, conn, (conn.line, pong now.wall) ∷ [])) (ok (s, conn, []))
                        (quiet _ (tt, tt)) (quiet [] tt)))))))
