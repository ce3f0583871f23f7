-- ===== src/Server/Loop.antt =====
-- core/server.py: a round of the client loop.
use proxy_net.Prelude.{
  ℕ, ◌-◌, ltb, err, [], ◌∷◌, ◌||◌, Option, none, some, if◌then◌else◌, Text, text, ◌==◌, text_eq,
  Result, ok,
}
use proxy_net.Packets.{Fields, text_field}
use proxy_net.Server.{Runtime, Moment, pong, failed, Deliveries, ChatServer, Connection, Reply}
use proxy_net.Server.Messages.{handle_message, handle_key_packet}
use proxy_net.Server.Rooms.{handle_join}
use proxy_net.Server.Voice.{handle_voice_join, handle_voice_salt, handle_voice_leave}

-- In milliseconds.
abbrev pub idle_timeout : ℕ
idle_timeout = 120000

-- What `recv_packet` does: a packet, a time-out, a malformed line, one over the limit, or the end.
pub data Read : Type 0 where
  arrived : Fields → Read
  quiet malformed oversized closed : Read

-- The loop goes on, with the time of the last packet, or ends.
pub data Turn : Type 0 where
  goes_on : Reply → ℕ → Turn
  stops : ChatServer → Deliveries → Turn

module _ (env : Runtime) where
  abbrev pub handle_type :
      Moment → ChatServer → Connection → Fields → Option Text → Result ChatServer Reply
  handle_type now s conn packet none = ok (s, conn, [])
  handle_type now s conn packet (some kind) =
      if kind == text "message"
      then ok (handle_message env now s conn packet)
      else if kind == text "join"
      then ok (handle_join env now s conn packet)
      else if kind == text "voice_join"
      then handle_voice_join env now s conn packet
      else if kind == text "voice_salt"
      then ok (handle_voice_salt env s conn packet)
      else if kind == text "voice_leave"
      then ok (handle_voice_leave s conn)
      else if kind == text "key_offer" || kind == text "sender_key"
      then ok (handle_key_packet now kind s conn packet)
      else if kind == text "ping"
      then ok (s, conn, (conn.line, pong now.wall) ∷ [])
      else ok (s, conn, [])

  -- A round of the loop, for a packet that was read.
  unfoldable pub handle_packet : Moment → ChatServer → Connection → Fields → Result ChatServer Reply
  handle_packet now s conn packet = handle_type now s conn packet (text_field packet (text "type"))

  abbrev pub after_handling : Moment → Result ChatServer Reply → Turn
  after_handling now (ok reply) = goes_on reply now.monotonic
  after_handling now (err s) = stops s []

  -- A round of the loop, whatever is read.
  unfoldable pub take_turn : Moment → ℕ → ChatServer → Connection → Read → Turn
  take_turn now last_seen s conn (arrived packet) =
      after_handling now (handle_packet now s conn packet)
  take_turn now last_seen s conn quiet =
      if ltb idle_timeout (now.monotonic - last_seen)
      then stops s ((conn.line, failed (text "idle_timeout")) ∷ [])
      else goes_on (s, conn, []) last_seen
  take_turn now last_seen s conn malformed =
      goes_on (s, conn, (conn.line, failed (text "malformed_packet_ignored")) ∷ []) last_seen
  take_turn now last_seen s conn oversized =
      stops s ((conn.line, failed (text "packet_too_large")) ∷ [])
  take_turn now last_seen s conn closed = stops s []
