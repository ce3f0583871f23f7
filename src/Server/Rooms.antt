-- ===== src/Server/Rooms.antt =====
-- core/server.py: a client enters, changes its room, and leaves.
use proxy_net.Prelude.{
  ℕ, [], ◌∷◌, ◌++◌, Bool, false, not, Option, none, some, if◌then◌else◌, Text, text, ◌==◌, text_eq,
}
use proxy_net.Dict.{put, remove}
use proxy_net.Packets.{Json, null, boolean, number, string, array, object, Fields, get_field}
use proxy_net.Hub.{
  MessageHub, RoomSnapshot, attach_client, bind_transport, detach_client, leave_room, join_room,
}
use proxy_net.History.{history_messages}
use proxy_net.Names.{clean_name, unique_username}
use proxy_net.RateLimit
use proxy_net.RateLimit.{RateLimiter, allow}
use proxy_net.Relay.{leave, move, rename}
use proxy_net.Server.{
  Runtime, Moment, failed, joined, past, Deliveries, ChatServer, Connection, Reply,
  send_room_snapshot, broadcast_voice_peers, broadcast_room_list, rate_limit_messages,
  rate_limit_window, key_exchange_rate_limit,
}
use proxy_net.Client.Inbox.{has_type}

-- `packet.get(name)`, for `_clean_name`.
abbrev pub raw_name : Runtime → Option Json → Option Text
raw_name env none = none
raw_name env (some null) = none
raw_name env (some (string t)) = some t
raw_name env (some (boolean b)) = some (env.str (boolean b))
raw_name env (some (number n)) = some (env.str (number n))
raw_name env (some (array xs)) = some (env.str (array xs))
raw_name env (some (object fs)) = some (env.str (object fs))

pub data Handshake : Type 0 where
  refused : Deliveries → Handshake
  admitted : Reply → Handshake

module _ (env : Runtime) where
  abbrev pub send_room_history : ChatServer → Text → ℕ → Deliveries
  send_room_history s room t =
      if s.keep_history
      then (t, past room (history_messages env.message_size (env.history_size room) s.history room))
        ∷ []
      else []

  -- What both rooms are told, once the client stands in the new one.
  abbrev pub announced_join : ChatServer → Connection → Text → Bool → RoomSnapshot → Deliveries
  announced_join s conn old_room moving snapshot =
      (if moving then broadcast_voice_peers s old_room else [])
      ++ (broadcast_voice_peers s conn.room
          ++ ((conn.line, joined conn.room conn.username snapshot)
              ∷ (send_room_history s conn.room conn.line
                  ++ (send_room_snapshot s.hub conn.room none ++ broadcast_room_list s))))

  abbrev pub rejoined : Moment → ChatServer → Connection → Text → Text → Bool → MessageHub → Reply
  rejoined now s conn room requested moving left =
      let username : Text =
        unique_username env.casefold left.registry room requested conn.client_id in
      let (hub, snapshot) = join_room left room conn.client_id username now.wall in
      let t : ChatServer = record s {
        hub = hub;
        voice = rename (move s.voice conn.client_id room) conn.client_id username;
      } in
      let placed : Connection = record conn { room = room; username = username } in
      (
        t,
        placed,
        (if moving then send_room_snapshot left conn.room (some conn.username) else [])
            ++ announced_join t placed conn.room moving snapshot,
      )

  unfoldable pub handle_join : Moment → ChatServer → Connection → Fields → Reply
  handle_join now s conn packet =
      let room : Text =
        clean_name env.is_space (raw_name env (get_field packet (text "room"))) conn.room in
      let requested : Text =
        clean_name env.is_space (raw_name env (get_field packet (text "user"))) conn.username in
      let moving : Bool = not (room == conn.room) in
      rejoined now s conn room requested moving
        (if moving then leave_room s.hub conn.client_id else s.hub)

  abbrev pub welcomed : ChatServer → Connection → MessageHub × RoomSnapshot → Reply
  welcomed s conn (hub, snapshot) =
      let t : ChatServer = record s { hub = hub } in
      (
        t,
        conn,
        (conn.line, joined conn.room conn.username snapshot)
            ∷ (send_room_history t conn.room conn.line
                ++ (send_room_snapshot t.hub conn.room none ++ broadcast_room_list t)),
      )

  -- The first packet of a connection, which is a join.
  unfoldable pub admit : Moment → ChatServer → Text → ℕ → Text → Fields → Reply
  admit now s client_id line peer_ip packet =
      let room : Text =
        clean_name env.is_space (raw_name env (get_field packet (text "room"))) (text "general") in
      let requested : Text =
        clean_name env.is_space (raw_name env (get_field packet (text "user"))) client_id in
      let username : Text = unique_username env.casefold s.hub.registry room requested client_id in
      let conn : Connection = record {
        client_id = client_id;
        line = line;
        peer_ip = peer_ip;
        room = room;
        username = username;
        limiter = RateLimit.new rate_limit_messages rate_limit_window;
        key_limiter = RateLimit.new key_exchange_rate_limit rate_limit_window;
        rate_limit_warned = false;
      } in
      let ready = bind_transport (attach_client s.hub client_id) client_id line in
      welcomed (record s { transports = put s.transports client_id line }) conn
        (join_room ready room client_id username now.wall)

  -- The handshake; the connection ends with an error, or it was admitted.
  unfoldable pub handshake : Moment → ChatServer → Text → ℕ → Text → Option Fields → Handshake
  handshake now s client_id line peer_ip none = refused ((line, failed (text "join_required")) ∷ [])
  handshake now s client_id line peer_ip (some packet) =
      if has_type packet (text "join")
      then admitted (admit now s client_id line peer_ip packet)
      else refused ((line, failed (text "join_required")) ∷ [])

-- The `finally` of a connection that was admitted, and its last words.
unfoldable pub finish : ChatServer → Connection → ChatServer × Deliveries
finish s conn =
    let (voice, left) = leave s.voice conn.client_id in
    let quiet : ChatServer = record s {
      transports = remove s.transports conn.client_id;
      voice = voice;
    } in
    let gone : ChatServer = record quiet {
      hub = detach_client (leave_room quiet.hub conn.client_id) conn.client_id;
    } in
    (
      gone,
      elim left [ none ↦ [] | some p ↦ broadcast_voice_peers quiet conn.room ]
          ++ (send_room_snapshot gone.hub conn.room none ++ broadcast_room_list gone),
    )
