-- ===== src/Server/Threads.antt =====
-- core/server.py: the server with the threads of its clients, and the events that reach it.
use proxy_net.Prelude.{
  ℕ, ◌≡◌, inl, inr, List, [], ◌∷◌, Bool, true, false, Option, none, some, if◌then◌else◌, Text, ◌==◌,
  ==_iff, text_eq, Bool-cases, Result, ok, err, ◌∙◌,
}
use proxy_net.Bytes.{Bytes}
use proxy_net.Dict.{Dict, get, put, remove, contains}
use proxy_net.Dict.Laws.{Distinct, get-put, get-remove, put-Distinct, remove-Distinct}
use proxy_net.Packets.{Fields}
use proxy_net.Hub
use proxy_net.Hub.{
  detach_client, bind_transport, MessagePacket, MessageHub, RoomSnapshot, attach_client, leave_room,
  join_room, enter_room, build_message_packet,
}
use proxy_net.Hub.Membership as HubMembers
use proxy_net.Hub.Membership.{enter_room-IsValid, leave_room-IsValid, attach_client-IsValid}
use proxy_net.Relay
use proxy_net.Relay.{
  Address, handle, Relay, RelayError, Participant, JoinRequest, join, leave, move, rename, set_salt,
}
use proxy_net.Relay.Membership as RelayCalls
use proxy_net.Server.{Runtime, Moment, ChatServer, Connection, Reply}
use proxy_net.Server.Rooms.{Handshake, refused, admitted, handshake, finish}
use proxy_net.Server.Loop.{handle_packet}
use proxy_net.Server.Senders.{IsServing, IsSettled}
use proxy_net.Server.Rounds.{leave_room-IsLeft}

-- The server and the threads of the admitted clients, by the clients' ids.
pub record Running : Type 0 where
  pub server : ChatServer
  pub threads : Dict Text Connection

-- A connection with its first packet, none where there is none; a packet of a client; the end of a
-- connection; and a datagram.
pub data Event : Type 0 where
  arrives : (now : Moment) (client_id : Text) (line : ℕ) (peer_ip : Text) → Option Fields → Event
  sends : (now : Moment) (client_id : Text) → Fields → Event
  ends : Text → Event
  datagrams : Bytes → Address → ℕ → Event

abbrev pub new_server : Bool → ℕ → Running
new_server keep_history port = record {
  server = record {
    keep_history = keep_history;
    port = port;
    hub = Hub.new;
    voice = Relay.new;
    history = [];
    transports = [];
  };
  threads = [];
}

abbrev pub end_thread : Running → ChatServer → Connection → Running
end_thread r s conn = record {
  server = (finish s conn).0;
  threads = remove r.threads conn.client_id;
}

abbrev pub after_round : Running → Connection → Result ChatServer Reply → Running
after_round r conn (ok (s, c, out)) = record {
  server = s;
  threads = put r.threads conn.client_id c;
}
after_round r conn (err s) = end_thread r s conn

abbrev pub after_handshake : Running → Text → Handshake → Running
after_handshake r client_id (refused out) = r
after_handshake r client_id (admitted (s, c, out)) = record {
  server = s;
  threads = put r.threads client_id c;
}

module _ (env : Runtime) where
  abbrev pub round : Running → Moment → Fields → Option Connection → Running
  round r now packet none = r
  round r now packet (some conn) = after_round r conn (handle_packet env now r.server conn packet)

  -- A connection has the id of no other.
  unfoldable pub step : Running → Event → Running
  step r (arrives now client_id line peer_ip first) =
      if contains r.threads client_id
      then r
      else after_handshake r client_id (handshake env now r.server client_id line peer_ip first)
  step r (sends now client_id packet) = round r now packet (get r.threads client_id)
  step r (ends client_id) = elim (get r.threads client_id) [
    | none ↦ r
    | some conn ↦ end_thread r r.server conn
  ]
  step r (datagrams datagram address now) = record r {
    server = record (r.server) { voice = (handle r.server.voice datagram address now).0 };
  }

  unfoldable pub run : Running → List Event → Running
  run r [] = r
  run r (event ∷ events) = run (step r event) events

-- Each thread is settled, under its own id, and the parts are valid.
pub record IsRunning (r : Running) : Type 0 where
  pub serving : IsServing r.server
  pub threads_distinct : Distinct r.threads
  pub settled :
      (client_id : Text) (conn : Connection)
      → get r.threads client_id ≡ some conn
      → (conn.client_id ≡ client_id) × IsSettled r.server conn

-- A thread is replaced or added, and the others are as settled as they were.
pub put-IsRunning :
    (r : Running) (s : ChatServer) (conn : Connection)
    → IsRunning r
    → IsServing s
    → IsSettled s conn
    → ((other : Connection)
        → (conn.client_id == other.client_id) ≡ false
        → IsSettled r.server other
        → IsSettled s other)
    → IsRunning (record { server = s; threads = put r.threads conn.client_id conn })
put-IsRunning r s conn i serving at others = record {
  serving = serving;
  threads_distinct = put-Distinct r.threads conn.client_id conn i.threads_distinct;
  settled = λ d c e. elim (Bool-cases (conn.client_id == d)) [
    | inl same ↦
        let f = rw (get-put r.threads conn.client_id d conn, same) at e in
        let is : c ≡ conn = cc in rw is ((==_iff conn.client_id d).0 same, at)
    | inr apart ↦
        let f = rw (get-put r.threads conn.client_id d conn, apart) at e in
        let (id, was) = i.settled d c f in (id, others c (rw id apart) was)
  ];
}

remove-IsRunning :
    (r : Running) (s : ChatServer) (client_id : Text)
    → IsRunning r
    → IsServing s
    → ((other : Connection)
        → (client_id == other.client_id) ≡ false
        → IsSettled r.server other
        → IsSettled s other)
    → IsRunning (record { server = s; threads = remove r.threads client_id })
remove-IsRunning r s client_id i serving others = record {
  serving = serving;
  threads_distinct = remove-Distinct r.threads client_id i.threads_distinct;
  settled = λ d c e. elim (Bool-cases (client_id == d)) [
    | inl same ↦
        let f = rw (get-remove r.threads client_id d i.threads_distinct, same) at e in absurd (cc)
    | inr apart ↦
        let f = rw (get-remove r.threads client_id d i.threads_distinct, apart) at e in
        let (id, was) = i.settled d c f in (id, others c (rw id apart) was)
  ];
}

pub finish-IsRunning :
    (r : Running) (s : ChatServer) (conn : Connection)
    → s.hub ≡ r.server.hub
    → IsServing s
    → IsRunning r
    → IsRunning (end_thread r s conn)
unfolding finish leave_room detach_client RelayCalls.step
finish-IsRunning r s conn same serving i =
    let c : Text = conn.client_id in
    let l = leave_room-IsLeft s.hub c true serving.hub_valid in
    remove-IsRunning r (finish s conn).0 c i
      (record {
        hub_valid = HubMembers.clients-IsValid (leave_room s.hub c) _ l.left_valid;
        voice_valid = RelayCalls.step-IsValid s.voice (RelayCalls.leaves c) serving.voice_valid;
        history_bounded = serving.history_bounded;
      })
      (λ other apart at. record {
        named = l.names_of_others other.client_id apart ∙ rw same at.named;
        placed = l.rooms_of_others other.client_id apart ∙ rw same at.placed;
      })
