-- ===== src/Server.antt =====
-- The client loop of core/server.py: what the server does with a packet of a connection, and at its
-- end. Each client has a transport, known by a number; what is sent is returned in order. Clock
-- readings and random tokens are arguments. An `enc` is a text or absent here, and every text has an
-- encoding in UTF-8.
pub mod Messages
pub mod Rooms
pub mod Voice
pub mod Loop
pub mod Senders
pub mod Rounds
pub mod Threads
pub mod Runs
mod Examples
use proxy_net.Prelude.{
  ℕ, List, [], ◌∷◌, ◌++◌, Bool, true, false, not, ◌&&◌, ◌||◌, Option, none, some, ltb,
  if◌then◌else◌, length, take, Text, text, ◌==◌, text_eq, Result, ok, err,
}
use proxy_net.Bytes.{Bytes}
use proxy_net.Dict.{Dict, get, put, remove, keys, values}
use proxy_net.Padding.{max_content_bytes}
use proxy_net.KeyAgreement.{bytes_leb}
use proxy_net.Packets.{
  Json, null, boolean, number, string, array, object, Fields, end, field, get_field, text_field,
}
use proxy_net.Hub.{
  MessagePacket, Client, attached, transport, MessageHub, RoomSnapshot, attach_client,
  bind_transport, detach_client, leave_room, join_room, room_snapshot, build_message_packet,
  broadcast_targets,
}
use proxy_net.History.{History, append_history, history_messages}
use proxy_net.Names.{clean_name, unique_username}
use proxy_net.RateLimit
use proxy_net.RateLimit.{RateLimiter, allow}
use proxy_net.Relay.{
  Relay, RelayError, Participant, PublicEntry, JoinRequest, join, leave, move, rename, set_salt,
  peers,
}

abbrev pub rate_limit_messages : ℕ
rate_limit_messages = 20

abbrev pub key_exchange_rate_limit : ℕ
key_exchange_rate_limit = 60

-- In milliseconds.
abbrev pub rate_limit_window : ℕ
rate_limit_window = 10000

-- What Python and the JSON library make of texts and values: `str.isspace`, `str.casefold`,
-- `str.strip`, `str` of a value that is no text, `str(value or "")` of one that is neither a text nor
-- null, the size of a text in UTF-8, and the sizes of an encoded message and of a room's history
-- packet without messages.
pub record Runtime : Type 0 where
  pub is_space : ℕ → Bool
  pub casefold : Text → Text
  pub strip : Text → Text
  pub str : Json → Text
  pub str_or_empty : Json → Text
  pub utf8_size : Text → ℕ
  pub message_size : MessagePacket → ℕ
  pub history_size : Text → ℕ

-- The monotonic and the wall clock, and the token of a voice participant.
pub record Moment : Type 0 where
  pub monotonic : ℕ
  pub wall : ℕ
  pub token : Bytes

-- The packets that the client loop sends; `code` is an error's.
pub data ServerPacket : Type 0 where
  failed : (code : Text) → ServerPacket
  joined : (room user : Text) (snapshot : RoomSnapshot) → ServerPacket
  past : (room : Text) (messages : List MessagePacket) → ServerPacket
  members_now : (snapshot : RoomSnapshot) (moved : Option Text) → ServerPacket
  voice_peers : (room : Text) (entries : List PublicEntry) → ServerPacket
  room_list : (rooms : List Text) → ServerPacket
  message : MessagePacket → ServerPacket
  voice_joined : (sender_id : ℕ) (token : Bytes) (port : ℕ) (codec : Text) → ServerPacket
  key_exchange : Fields → ServerPacket
  pong : (ts : ℕ) → ServerPacket

-- Transports and what is sent to each.
abbrev pub Deliveries : Type 0
Deliveries = List (ℕ × ServerPacket)

pub record ChatServer : Type 0 where
  pub keep_history : Bool
  pub port : ℕ
  pub hub : MessageHub
  pub voice : Relay
  pub history : History
  pub transports : Dict Text ℕ

-- The variables of a client's thread.
pub record Connection : Type 0 where
  pub client_id : Text
  pub line : ℕ
  pub peer_ip : Text
  pub room : Text
  pub username : Text
  pub limiter : RateLimiter
  pub key_limiter : RateLimiter
  pub rate_limit_warned : Bool

abbrev pub Reply : Type 0
Reply = ChatServer × Connection × Deliveries

-- The transports of clients, where they have one.
unfoldable pub lines_of : Dict Text Client → List Text → List ℕ
lines_of clients [] = []
lines_of clients (client_id ∷ targets) =
    let rest = lines_of clients targets in
    elim (get clients client_id) [
      | none ↦ rest
      | some client ↦ elim client [ attached packets ↦ rest | transport t ↦ t ∷ rest ]
    ]

unfoldable pub room_lines : MessageHub → Text → List ℕ
room_lines hub room = lines_of hub.clients (broadcast_targets hub.registry room none)

unfoldable pub copies : ServerPacket → List ℕ → Deliveries
copies packet [] = []
copies packet (t ∷ ts) = (t, packet) ∷ copies packet ts

-- `hub.broadcast_packet`, which leaves transports as they are.
abbrev pub broadcast : MessageHub → Text → ServerPacket → Deliveries
broadcast hub room packet = copies packet (room_lines hub room)

abbrev pub send_room_snapshot : MessageHub → Text → Option Text → Deliveries
send_room_snapshot hub room moved = broadcast hub room (members_now (room_snapshot hub room) moved)

abbrev pub broadcast_voice_peers : ChatServer → Text → Deliveries
broadcast_voice_peers s room = broadcast s.hub room (voice_peers room (peers s.voice room))

-- A name into a sorted list.
unfoldable pub insert_sorted : Text → List Text → List Text
insert_sorted x [] = x ∷ []
insert_sorted x (y ∷ ys) =
    let rest = insert_sorted x ys in if bytes_leb x y then x ∷ y ∷ ys else y ∷ rest

-- `registry.rooms()`
unfoldable pub sorted_rooms : List Text → List Text
sorted_rooms [] = []
sorted_rooms (x ∷ xs) = insert_sorted x (sorted_rooms xs)

abbrev pub broadcast_room_list : ChatServer → Deliveries
broadcast_room_list s =
    copies (room_list (sorted_rooms (keys s.hub.registry))) (values s.transports)
