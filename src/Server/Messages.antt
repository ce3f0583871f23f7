-- ===== src/Server/Messages.antt =====
-- core/server.py: chat messages, and the packets of the key exchange that the server carries.
use proxy_net.Prelude.{
  List, [], ◌∷◌, ◌++◌, Bool, true, false, Option, none, some, ltb, if◌then◌else◌, Text, text,
  text_eq,
}
use proxy_net.Padding.{max_content_bytes}
use proxy_net.Packets.{
  Json, null, boolean, number, string, array, object, Fields, end, field, get_field, text_field,
}
use proxy_net.Hub.{MessagePacket, build_message_packet}
use proxy_net.History.{append_history}
use proxy_net.RateLimit.{RateLimiter, allow}
use proxy_net.Server.{
  Runtime, Moment, failed, message, key_exchange, ChatServer, Connection, Reply, broadcast,
  send_room_snapshot,
}

-- `str(packet.get("content", ""))`
abbrev pub content_text : Runtime → Option Json → Text
content_text env none = []
content_text env (some (string t)) = t
content_text env (some null) = env.str null
content_text env (some (boolean b)) = env.str (boolean b)
content_text env (some (number n)) = env.str (number n)
content_text env (some (array xs)) = env.str (array xs)
content_text env (some (object fs)) = env.str (object fs)

-- A text's field is copied.
abbrev pub with_text : Text → Option Text → Fields → Fields
with_text name none rest = rest
with_text name (some value) rest = field name (string value) rest

unfoldable pub key_fields : Fields → List Text → Fields
key_fields packet [] = end
key_fields packet (name ∷ names) = with_text name (text_field packet name) (key_fields packet names)

abbrev pub key_exchange_fields : List Text
key_exchange_fields = text "pub" ∷ text "mac" ∷ text "key" ∷ text "to" ∷ []

-- The packet that goes to the room; none of the copied names is one of the first three.
abbrev pub relayed : Text → Text → Text → Fields → Fields
relayed kind room user packet = field (text "type") (string kind) (
    field (text "room") (string room)
      (field (text "user") (string user) (key_fields packet key_exchange_fields)))

abbrev pub after_key_limit : Text → ChatServer → Connection → Fields → RateLimiter × Bool → Reply
after_key_limit kind s conn packet (limiter, false) = (s, record conn { key_limiter = limiter }, [])
after_key_limit kind s conn packet (limiter, true) = (
  s,
  record conn { key_limiter = limiter },
  broadcast s.hub conn.room (key_exchange (relayed kind conn.room conn.username packet)),
)

unfoldable pub handle_key_packet : Moment → Text → ChatServer → Connection → Fields → Reply
handle_key_packet now kind s conn packet =
    after_key_limit kind s conn packet (allow conn.key_limiter now.monotonic)

module _ (env : Runtime) where
  abbrev pub posted : ChatServer → Connection → RateLimiter → MessagePacket → Reply
  posted s conn limiter outgoing = (
    record s { history = append_history s.keep_history s.history conn.room outgoing },
    record conn { limiter = limiter; rate_limit_warned = false },
    broadcast s.hub conn.room (message outgoing) ++ send_room_snapshot s.hub conn.room none,
  )

  abbrev pub after_limit :
      Moment → ChatServer → Connection → Text → Option Text → RateLimiter × Bool → Reply
  after_limit now s conn content enc (limiter, false) = (
    s,
    record conn { limiter = limiter; rate_limit_warned = true },
    if conn.rate_limit_warned then [] else (conn.line, failed (text "rate_limited")) ∷ [],
  )
  after_limit now s conn content enc (limiter, true) =
      posted s conn limiter
        (build_message_packet s.hub conn.room conn.client_id content now.wall enc)

  abbrev pub handle_content : Moment → ChatServer → Connection → Text → Option Text → Reply
  handle_content now s conn [] enc = (s, conn, [])
  handle_content now s conn (c ∷ cs) enc =
      if ltb max_content_bytes (env.utf8_size (c ∷ cs))
      then (s, conn, (conn.line, failed (text "message_too_long")) ∷ [])
      else after_limit now s conn (c ∷ cs) enc (allow conn.limiter now.monotonic)

  unfoldable pub handle_message : Moment → ChatServer → Connection → Fields → Reply
  handle_message now s conn packet =
      handle_content now s conn (env.strip (content_text env (get_field packet (text "content"))))
        (text_field packet (text "enc"))
