-- ===== src/Server/Voice.antt =====
-- core/server.py: joining and leaving voice, and announcing a salt.
use proxy_net.Prelude.{
  [], ◌∷◌, Option, none, some, if◌then◌else◌, take, Text, text, text_eq, Result, ok, err,
}
use proxy_net.Packets.{Json, null, boolean, number, string, array, object, Fields, get_field}
use proxy_net.Relay.{Relay, RelayError, Participant, JoinRequest, join, leave, set_salt}
use proxy_net.Server.{
  Runtime, Moment, voice_joined, ChatServer, Connection, Reply, broadcast_voice_peers,
}

-- `str(packet.get(name) or "")`
abbrev pub text_or_empty : Runtime → Option Json → Text
text_or_empty env none = []
text_or_empty env (some null) = []
text_or_empty env (some (string t)) = t
text_or_empty env (some (boolean b)) = env.str_or_empty (boolean b)
text_or_empty env (some (number n)) = env.str_or_empty (number n)
text_or_empty env (some (array xs)) = env.str_or_empty (array xs)
text_or_empty env (some (object fs)) = env.str_or_empty (object fs)

unfoldable pub handle_voice_leave : ChatServer → Connection → Reply
handle_voice_leave s conn =
    let (voice, left) = leave s.voice conn.client_id in
    let t : ChatServer = record s { voice = voice } in
    elim left [ none ↦ (t, conn, []) | some p ↦ (t, conn, broadcast_voice_peers t conn.room) ]

module _ (env : Runtime) where
  -- An exception of `join` ends the loop, with the server as `join` left it.
  abbrev pub after_voice_join :
      ChatServer → Connection → Relay × Result RelayError Participant → Result ChatServer Reply
  after_voice_join s conn (voice, err e) = err (record s { voice = voice })
  after_voice_join s conn (voice, ok p) =
      let t : ChatServer = record s { voice = voice } in
      ok (
        t,
        conn,
        (conn.line, voice_joined p.sender_id p.token s.port p.codec)
            ∷ broadcast_voice_peers t conn.room,
      )

  abbrev pub voice_request : Connection → Fields → JoinRequest
  voice_request conn packet = record {
    client_id = conn.client_id;
    username = conn.username;
    room = conn.room;
    ip = conn.peer_ip;
    session_salt = take 64 (text_or_empty env (get_field packet (text "salt")));
    codec = take 16 (text_or_empty env (get_field packet (text "codec")));
    public_key = take 128 (text_or_empty env (get_field packet (text "pub")));
  }

  unfoldable pub handle_voice_join :
      Moment → ChatServer → Connection → Fields → Result ChatServer Reply
  handle_voice_join now s conn packet =
      after_voice_join s conn (join s.voice (voice_request conn packet) now.token)

  unfoldable pub handle_voice_salt : ChatServer → Connection → Fields → Reply
  handle_voice_salt s conn packet =
      let (voice, known) =
        set_salt s.voice conn.client_id (text_or_empty env (get_field packet (text "salt"))) in
      let t : ChatServer = record s { voice = voice } in
      (t, conn, if known then broadcast_voice_peers t conn.room else [])
