-- ===== src/Client.antt =====
-- core/client.py: the client's end of a connection. What it sends and what it hands to the
-- interface is recorded in order; a clock reading, in milliseconds, holds while one packet is
-- handled; fresh keys and nonces are arguments, and what `on_status` is told is left out, as is what
-- `encode_packet` raises to the caller of the client's own calls for a text that UTF-8 cannot encode.
pub mod Peers
pub mod Inbox
pub mod Exchange
pub mod Listen
pub mod Outcomes
pub mod Sessions
pub mod Limits
pub mod Rooms
pub mod Answers
pub mod Runs
pub mod Opening
pub mod Queue
pub mod Switch
mod Examples
use proxy_net.Prelude.{
  ℕ, List, [], ◌∷◌, ◌++◌, Bool, true, false, not, ◌&&◌, Option, none, some, ltb, if◌then◌else◌,
  length, Text, text, ◌==◌, text_eq, Result, ok, err, ◌>>=◌, ◌>>◌, guard,
}
use proxy_net.Bytes.{Bytes}
use proxy_net.Dict.{Dict, get, put, contains, keys}
use proxy_net.Padding.{max_content_bytes}
use proxy_net.KeyAgreement.{KeyLibrary, KeyError, message_too_long as length_error, utf8}
use proxy_net.RoomSession.{RoomSession, new, forget_peer}
use proxy_net.Packets.{
  Fields, end, field, Json, string, RoomCipher, null_cipher, room_cipher, scheme, cipher_encrypt,
}

abbrev pub deferred_message_ms : ℕ
deferred_message_ms = 3000

abbrev pub max_deferred_messages : ℕ
max_deferred_messages = 50

abbrev pub max_tracked_strangers : ℕ
max_tracked_strangers = 256

-- What Python makes of a JSON value that is neither a text nor null: the truth of a numeral, and
-- `str(value or "")`.
pub record Python : Type 0 where
  pub is_nonzero : Text → Bool
  pub str_or_empty : Json → Text

-- The random choices of one call: an ephemeral private key, a sender key and a nonce.
pub record Fresh : Type 0 where
  pub own : Bytes
  pub sender_key : Bytes
  pub nonce : Bytes

-- A packet to the server, or one to the interface's `on_packet`.
pub data Effect : Type 0 where
  sends shows : Fields → Effect

-- `current` is the key in `_ciphers` of the object that `_cipher` is, and none for the NullCipher of
-- a client that joined no room. `transport` and `on_packet` are whether these are set, `stopped` is
-- `_stop_event`, and `deferred` has the arrival times.
pub record ChatClient : Type 0 where
  pub room : Text
  pub username : Text
  pub room_password : Text
  pub ciphers : Dict Text RoomCipher
  pub current : Option Text
  pub peer_users : Dict Bytes Text
  pub mismatched : List Bytes
  pub deferred : List (ℕ × Fields)
  pub pending_keys : Dict Bytes Bytes
  pub transport : Bool
  pub stopped : Bool
  pub on_packet : Bool
  pub effects : List Effect

-- The constructor.
abbrev pub new_client : Text → Bool → ChatClient
new_client room_password on_packet = record {
  room = text "general";
  username = text "guest";
  room_password = room_password;
  ciphers = [];
  current = none;
  peer_users = [];
  mismatched = [];
  deferred = [];
  pending_keys = [];
  transport = false;
  stopped = false;
  on_packet = on_packet;
  effects = [];
}

abbrev pub emit : ChatClient → Effect → ChatClient
emit c e = record c { effects = c.effects ++ e ∷ [] }

abbrev pub connected : ChatClient → Bool
connected c = c.transport && not c.stopped

abbrev pub found : Option RoomCipher → RoomCipher
found none = null_cipher
found (some k) = k

-- `_cipher`
abbrev pub cipher_at : Option Text → Dict Text RoomCipher → RoomCipher
cipher_at none ciphers = null_cipher
cipher_at (some key) ciphers = found (get ciphers key)

abbrev pub cipher : ChatClient → RoomCipher
cipher c = cipher_at c.current c.ciphers

-- The session that `_cipher` is changes in place, in the dictionary too.
abbrev pub updated : Option Text → Dict Text RoomCipher → RoomSession → Dict Text RoomCipher
updated none ciphers s = ciphers
updated (some key) ciphers s = put ciphers key (room_cipher s)

abbrev pub with_session : ChatClient → RoomSession → ChatClient
with_session c s = record c { ciphers = updated c.current c.ciphers s }

-- `forget_peer` of each
unfoldable pub forget_all : RoomSession → List Bytes → RoomSession
forget_all s [] = s
forget_all s (peer ∷ peers) = forget_all (forget_peer s peer) peers

-- The cipher's part of `_drop_all_peers`.
abbrev pub without_peers : ChatClient → RoomCipher → ChatClient
without_peers c null_cipher = c
without_peers c (room_cipher s) = with_session c (forget_all s (keys c.peer_users))

unfoldable pub drop_all_peers : ChatClient → ChatClient
drop_all_peers c = record (without_peers c (cipher c)) {
  peer_users = [];
  pending_keys = [];
  mismatched = [];
  deferred = [];
}

unfoldable pub disconnect : ChatClient → ChatClient
disconnect c = record (drop_all_peers c) {
  stopped = true;
  transport = false;
  ciphers = [];
  current = none;
}

abbrev pub join_packet : Text → Text → Fields
join_packet room username =
    field (text "type") (string (text "join"))
      (field (text "room") (string room) (field (text "user") (string username) end))

-- `packet["enc"] = self._cipher.scheme`
abbrev pub scheme_field : Option Text → Fields
scheme_field none = end
scheme_field (some name) = field (text "enc") (string name) end

abbrev pub message_packet : ChatClient → Text → Fields
message_packet c content = field (text "type") (string (text "message")) (
    field (text "room") (string c.room) (
      field (text "user") (string c.username)
        (field (text "content") (string content) (scheme_field (scheme (cipher c))))))

abbrev pub ping_packet : Fields
ping_packet = field (text "type") (string (text "ping")) end

-- ConnectionError, OSError from `connect`, and the cipher's errors.
pub data ClientError : Type 0 where
  not_connected unreachable : ClientError
  cipher_error : KeyError → ClientError

unfoldable pub send_packet : ChatClient → Fields → Result ClientError ChatClient
send_packet c packet = if c.transport then ok (emit c (sends packet)) else err not_connected

unfoldable pub ping : ChatClient → ChatClient
ping c = if c.transport then emit c (sends ping_packet) else c

abbrev pub or_cipher_error : {A : Type 0} → Result KeyError A → Result ClientError A
or_cipher_error (ok a) = ok a
or_cipher_error (err e) = err (cipher_error e)

module _ (lib : KeyLibrary) where
  abbrev pub as_room_cipher : Result KeyError RoomSession → Result KeyError RoomCipher
  as_room_cipher (ok s) = ok (room_cipher s)
  as_room_cipher (err e) = err e

  -- `RoomSession(room, self.room_password) if self.room_password else NullCipher()`
  abbrev pub new_cipher : Fresh → Text → Text → Result KeyError RoomCipher
  new_cipher fresh room [] = ok null_cipher
  new_cipher fresh room (c ∷ cs) = as_room_cipher (new lib room (c ∷ cs) fresh.own fresh.sender_key)

  abbrev pub with_cipher :
      Dict Text RoomCipher
      → Text
      → Result KeyError RoomCipher
      → Result KeyError (Dict Text RoomCipher)
  with_cipher ciphers key (ok k) = ok (put ciphers key k)
  with_cipher ciphers key (err e) = err e

  -- `_ciphers` once it has a cipher for the room.
  unfoldable pub cipher_for : Fresh → ChatClient → Text → Result KeyError (Dict Text RoomCipher)
  cipher_for fresh c room =
      let key : Text = lib.normalize_room room in
      if contains c.ciphers key
      then ok c.ciphers
      else with_cipher c.ciphers key (new_cipher fresh room c.room_password)

  -- `self.room` is set before `_cipher_for` raises.
  abbrev pub entering :
      ChatClient
      → Text
      → Result KeyError (Dict Text RoomCipher)
      → ChatClient × Result KeyError (Unit {0})
  entering c room (err e) = (record c { room = room }, err e)
  entering c room (ok ciphers) =
      (record c { room = room; ciphers = ciphers; current = some (lib.normalize_room room) }, ok tt)

  abbrev pub entered : Fresh → ChatClient → Text → ChatClient × Result KeyError (Unit {0})
  entered fresh c room = entering c room (cipher_for fresh c room)

  abbrev pub connecting :
      ChatClient
      → Text
      → Text
      → Bool
      → Result KeyError (Dict Text RoomCipher)
      → ChatClient × Result ClientError (Unit {0})
  connecting c room username reached (err e) = (c, err (cipher_error e))
  connecting c room username false (ok ciphers) = (record c { ciphers = ciphers }, err unreachable)
  connecting c room username true (ok ciphers) = (
    record (emit c (sends (join_packet room username))) {
      room = room;
      ciphers = ciphers;
      current = some (lib.normalize_room room);
      username = username;
      transport = true;
      stopped = false;
    },
    ok tt,
  )

  -- `connect` to a server that is reached or not.
  unfoldable pub connect :
      Fresh → ChatClient → Text → Text → Bool → ChatClient × Result ClientError (Unit {0})
  connect fresh c room username reached =
      let d = if connected c then disconnect c else c in
      connecting d room username reached (cipher_for fresh d room)

  abbrev pub asked_to_join :
      Text → ChatClient × Result KeyError (Unit {0}) → ChatClient × Result KeyError (Unit {0})
  asked_to_join room (c, err e) = (c, err e)
  asked_to_join room (c, ok _) = (emit c (sends (join_packet room c.username)), ok tt)

  unfoldable pub join_room : Fresh → ChatClient → Text → ChatClient × Result KeyError (Unit {0})
  join_room fresh c room =
      if c.transport then asked_to_join room (entered fresh c room) else (c, ok tt)

  unfoldable pub send_message : ChatClient → Bytes → Text → Result ClientError ChatClient
  send_message c nonce content = do
    guard c.transport not_connected
    ciphertext ← or_cipher_error (cipher_encrypt lib (cipher c) nonce content)
    ok (emit c (sends (message_packet c ciphertext)))

  abbrev pub is_too_long : Result KeyError Text → Result KeyError Bool
  is_too_long (err length_error) = ok true
  is_too_long (err e) = err e
  is_too_long (ok ciphertext) = do bs ← utf8 lib ciphertext; ok (ltb max_content_bytes (length bs))

  unfoldable pub message_too_long : ChatClient → Bytes → Text → Result KeyError Bool
  message_too_long c nonce content = is_too_long (cipher_encrypt lib (cipher c) nonce content)
