-- ===== src/Server/Runs.antt =====
-- core/server.py over any history of connections, packets and voice datagrams.
use proxy_net.Prelude.{
  ℕ, ◌≡◌, ◌≢◌, refl, inl, inr, List, [], ◌∷◌, Bool, false, none, some, All, Text, text, ◌==◌,
  ==_iff, text_eq, Bool-cases, Option-cases, arith, Result, ok, err,
}
use proxy_net.Dict.{get, contains}
use proxy_net.Dict.Laws.{get-put}
use proxy_net.Packets.{Fields, get_field}
use proxy_net.Hub.{bind_transport, MessageHub, attach_client, join_room}
use proxy_net.Hub.Membership as HubMembers
use proxy_net.Hub.Runs as HubCalls
use proxy_net.Hub.Membership.{enter_room-IsValid, leave_room-IsValid, attach_client-IsValid}
use proxy_net.Names.{clean_name, unique_username}
use proxy_net.Relay.Membership as RelayCalls
use proxy_net.Server.{Runtime, Moment, Deliveries, ChatServer, Connection, Reply}
use proxy_net.Client.Inbox.{has_type}
use proxy_net.Server.Rooms.{admitted, handshake, admit, raw_name}
use proxy_net.Server.Loop.{handle_packet}
use proxy_net.Server.Senders.{IsServing, IsSettled, IsOwn}
use proxy_net.Server.Rounds.{
  attach_client_keeps, join_room_names, clean_name-filled, IsAnswered, handle_packet-IsAnswered,
}
use proxy_net.Server.Threads.{
  Running, Event, arrives, sends, ends, datagrams, new_server, after_round, after_handshake, step,
  run, IsRunning, put-IsRunning, finish-IsRunning,
}

-- What a round sends, where it ends without an exception.
abbrev pub sent_by : Result ChatServer Reply → Deliveries
sent_by (ok (s, c, out)) = out
sent_by (err s) = []

module _ (env : Runtime) where
  -- What admitting a client leaves.
  record IsAdmitted (r : Running) (client_id : Text) (reply : Reply) : Type 0 where
    same_id : reply.1.client_id ≡ client_id
    fresh_serving : IsServing reply.0
    fresh_settled : IsSettled reply.0 reply.1
    fresh_others :
        (other : Connection)
        → (client_id == other.client_id) ≡ false
        → IsSettled r.server other
        → IsSettled reply.0 other

  admit-IsAdmitted :
      (r : Running) (now : Moment) (client_id : Text) (line : ℕ) (peer_ip : Text) (packet : Fields)
      → IsServing r.server
      → IsAdmitted r client_id (admit env now r.server client_id line peer_ip packet)
  unfolding admit join_room bind_transport
  admit-IsAdmitted r now client_id line peer_ip packet serving =
      let hub : MessageHub = r.server.hub in
      let room : Text =
        clean_name env.is_space (raw_name env (get_field packet (text "room"))) (text "general") in
      let requested : Text =
        clean_name env.is_space (raw_name env (get_field packet (text "user"))) client_id in
      let username : Text = unique_username env.casefold hub.registry room requested client_id in
      let ready : MessageHub = bind_transport (attach_client hub client_id) client_id line in
      let (same_names, same_rooms) = attach_client_keeps hub client_id in
      let ready_valid : HubMembers.IsValid ready =
        HubMembers.clients-IsValid (attach_client hub client_id) _
          (attach_client-IsValid hub client_id serving.hub_valid) in
      let filled : room ≢ [] =
        clean_name-filled env.is_space (raw_name env (get_field packet (text "room")))
          (text "general") (λ e. cc) in
      let (names, rooms) = join_room_names ready room client_id username now.wall in
      record {
        same_id = refl;
        fresh_serving = record {
          hub_valid =
              enter_room-IsValid (attach_client ready client_id) room client_id username now.wall
                filled (attach_client-IsValid ready client_id ready_valid);
          voice_valid = serving.voice_valid;
          history_bounded = serving.history_bounded;
        };
        fresh_settled = record {
          named = rw names (
              ground (
                arith,
                get-put ready.client_usernames client_id client_id username,
                ==_iff client_id client_id,
              ));
          placed = rw rooms (
              ground (
                arith,
                get-put ready.client_rooms client_id client_id room,
                ==_iff client_id client_id,
              ));
        };
        fresh_others = λ other apart at. record {
          named =
              rw (names, same_names)
                (ground (
                  arith,
                  get-put hub.client_usernames client_id other.client_id username,
                  at.named,
                ));
          placed =
              rw (rooms, same_rooms)
                (ground
                  (arith, get-put hub.client_rooms client_id other.client_id room, at.placed));
        };
      }

  after_handshake-IsRunning :
      (r : Running) (client_id : Text) (reply : Reply)
      → IsRunning r
      → IsAdmitted r client_id reply
      → IsRunning (after_handshake r client_id (admitted reply))
  after_handshake-IsRunning r client_id (s, c, out) i a = rw⁻¹ a.same_id (
      put-IsRunning r s c i a.fresh_serving a.fresh_settled
        (λ other apart. a.fresh_others other (rw⁻¹ a.same_id apart)))

  after_round-IsRunning :
      (r : Running) (conn : Connection) (result : Result ChatServer Reply)
      → IsRunning r
      → IsAnswered env r.server conn result
      → IsRunning (after_round r conn result)
  after_round-IsRunning r conn (err s) i (same, serving) = finish-IsRunning r s conn same serving i
  after_round-IsRunning r conn (ok (s, c, out)) i h = rw⁻¹ h.same_client (
      put-IsRunning r s c i h.serving h.settled
        (λ other apart. h.others other (rw⁻¹ h.same_client apart)))

  step-IsRunning : (r : Running) (event : Event) → IsRunning r → IsRunning (step env r event)
  unfolding step handshake RelayCalls.step
  step-IsRunning r (arrives now client_id line peer_ip none) i =
      elim (Bool-cases (contains r.threads client_id)) [
        | inl there ↦ rw (step, there) i
        | inr anew ↦ rw (step, anew) i
      ]
  step-IsRunning r (arrives now client_id line peer_ip (some packet)) i =
      elim (Bool-cases (contains r.threads client_id)) [
        | inl there ↦ rw (step, there) i
        | inr anew ↦ elim (Bool-cases (has_type packet (text "join"))) [
          | inl joins ↦
              rw (step, anew, handshake, joins)
                (after_handshake-IsRunning r client_id _ i
                  (admit-IsAdmitted r now client_id line peer_ip packet i.serving))
          | inr other ↦ rw (step, anew, handshake, other) i
        ]
      ]
  step-IsRunning r (sends now client_id packet) i = elim (Option-cases (get r.threads client_id)) [
    | inl nobody ↦ rw (step, nobody) i
    | inr (conn, known) ↦
        rw (step, known)
          (after_round-IsRunning r conn (handle_packet env now r.server conn packet) i (
            handle_packet-IsAnswered env now r.server conn packet (i.settled client_id conn known).1
              i.serving))
  ]
  step-IsRunning r (ends client_id) i = elim (Option-cases (get r.threads client_id)) [
    | inl nobody ↦ rw (step, nobody) i
    | inr (conn, known) ↦ rw (step, known) (finish-IsRunning r r.server conn refl i.serving i)
  ]
  step-IsRunning r (datagrams datagram address now) i = record {
    serving = record {
      hub_valid = i.serving.hub_valid;
      voice_valid =
          RelayCalls.step-IsValid r.server.voice (RelayCalls.receives datagram address now)
            i.serving.voice_valid;
      history_bounded = i.serving.history_bounded;
    };
    threads_distinct = i.threads_distinct;
    settled = λ d c e.
        let (id, at) = i.settled d c e in (id, record { named = at.named; placed = at.placed });
  }

  run-IsRunning : (r : Running) (events : List Event) → IsRunning r → IsRunning (run env r events)
  unfolding run
  run-IsRunning r [] i = i
  run-IsRunning r (event ∷ events) i =
      run-IsRunning (step env r event) events (step-IsRunning r event i)

  new_server-IsRunning : (keep_history : Bool) (port : ℕ) → IsRunning (new_server keep_history port)
  unfolding get
  new_server-IsRunning keep_history port = record {
    serving = record {
      hub_valid = HubCalls.new-IsValid;
      voice_valid = RelayCalls.new-IsValid;
      history_bounded = record {
        distinct = tt;
        few_rooms = omega arith;
        few_messages = λ room ms e. absurd (cc);
      };
    };
    threads_distinct = tt;
    settled = λ d c e. absurd (cc);
  }

  -- After any history of connections, packets of any kind, ends of connections and voice datagrams,
  -- the thread of each client and the hub agree on the client's room and name, and the hub, the voice
  -- relay and the history are valid.
  pub server_run-IsRunning :
      (keep_history : Bool) (port : ℕ) (events : List Event)
      → IsRunning (run env (new_server keep_history port) events)
  server_run-IsRunning keep_history port events =
      run-IsRunning (new_server keep_history port) events (new_server-IsRunning keep_history port)

  sent_by-Own :
      (s : ChatServer) (conn : Connection) (result : Result ChatServer Reply)
      → IsAnswered env s conn result
      → All (IsOwn s conn) (sent_by result)
  sent_by-Own s conn (ok (t, c, out)) h = h.own
  sent_by-Own s conn (err t) h = tt

  -- After any such history, whatever packet a client sends: each message and each packet of the key
  -- exchange that leaves for it goes to a transport of the room the client is in, and carries that
  -- room and the name that the server settled on for the client.
  pub server_names_senders :
      (keep_history : Bool) (port : ℕ) (events : List Event) (now : Moment) (client_id : Text)
      (conn : Connection) (packet : Fields)
      → let r = run env (new_server keep_history port) events in
        get r.threads client_id ≡ some conn
        → All (IsOwn r.server conn) (sent_by (handle_packet env now r.server conn packet))
  server_names_senders keep_history port events now client_id conn packet e =
      let r = run env (new_server keep_history port) events in
      let i = server_run-IsRunning keep_history port events in
      sent_by-Own r.server conn (handle_packet env now r.server conn packet) (
        handle_packet-IsAnswered env now r.server conn packet (i.settled client_id conn e).1
          i.serving)
