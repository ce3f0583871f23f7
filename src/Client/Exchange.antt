-- ===== src/Client/Exchange.antt =====
-- core/client.py: the exchange of keys with the peers of the room. An exception that no handler
-- catches is the result, and ends the listen loop.
use proxy_net.Prelude.{
  ℕ, List, [], ◌∷◌, ◌++◌, Bool, true, false, not, ◌&&◌, ◌||◌, Option, none, some, ltb, leb,
  if◌then◌else◌, length, drop, Text, text, ◌==◌, text_eq, Result, ok, err, ◌>>=◌,
}
use proxy_net.Bytes.{Bytes}
use proxy_net.Dict.{Dict, get, put, remove, contains}
use proxy_net.Names.{is_among}
use proxy_net.KeyAgreement.{
  KeyLibrary, KeyError, unknown_sender_key, offer_error, sender_key_error, decryption_error,
  message_too_long, value_error,
}
use proxy_net.RoomSession.{RoomSession, offer, accept_offer, accept_sender_key}
use proxy_net.Packets.{
  Json, string, array, null, boolean, number, object, Fields, end, field, get_field, text_field,
  RoomCipher, null_cipher, room_cipher,
}
use proxy_net.Client.{
  ChatClient, Python, Fresh, cipher, with_session, emit, sends, max_tracked_strangers,
}
use proxy_net.Client.Peers.{publish_verified}
use proxy_net.Client.Inbox.{flush_deferred, has_type, is_text}

-- `_mismatched.add` of a set that has room.
abbrev pub add_mismatched : List Bytes → Bytes → List Bytes
add_mismatched peers peer =
    if ltb (length peers) max_tracked_strangers
    then if is_among peer peers then peers else peers ++ peer ∷ []
    else peers

-- Without the oldest, where a new one has no room.
abbrev pub with_room : Dict Bytes Bytes → Bytes → Dict Bytes Bytes
with_room pending peer =
    if not (contains pending peer) && leb max_tracked_strangers (length pending)
    then drop 1 pending
    else pending

unfoldable pub add_pending : Dict Bytes Bytes → Bytes → Bytes → Dict Bytes Bytes
add_pending pending peer wrapped = put (with_room pending peer) peer wrapped

-- A packet that OSError keeps from leaving is lost like any other. `encode_packet` raises where the
-- room cannot be encoded; the rest of the packet is base64.
unfoldable pub send_key_packet :
    KeyLibrary → ChatClient → Text → Fields → ChatClient × Result KeyError (Unit {0})
send_key_packet lib c kind payload =
    if not c.transport
    then (c, ok tt)
    else if lib.encodes c.room
    then (
      emit c
          (sends (field (text "type") (string kind) (field (text "room") (string c.room) payload))),
      ok tt,
    )
    else (c, err value_error)

-- `str(packet.get("user") or "")`
abbrev pub user_name : Python → Option Json → Text
user_name python none = []
user_name python (some null) = []
user_name python (some (string t)) = t
user_name python (some (boolean b)) = python.str_or_empty (boolean b)
user_name python (some (number n)) = python.str_or_empty (number n)
user_name python (some (array xs)) = python.str_or_empty (array xs)
user_name python (some (object fs)) = python.str_or_empty (object fs)

-- The packets that `_handle_key_exchange` does not pass on.
abbrev pub is_key_exchange : Fields → Bool
is_key_exchange packet = has_type packet (text "key_offer") || has_type packet (text "sender_key")

module _ (lib : KeyLibrary) where
  abbrev pub from_b64 : Option Text → Option Bytes
  from_b64 none = none
  from_b64 (some []) = none
  from_b64 (some (c ∷ cs)) = lib.from_base64 (c ∷ cs)

  abbrev pub bytes_field : Fields → Text → Option Bytes
  bytes_field packet name = from_b64 (text_field packet name)

  abbrev pub offered :
      ChatClient → Result KeyError (Bytes × Bytes) → ChatClient × Result KeyError (Unit {0})
  offered c (err e) = (c, err e)
  offered c (ok (public_key, tag)) = send_key_packet lib c (text "key_offer") (
      field (text "pub") (string (lib.to_base64 public_key))
        (field (text "mac") (string (lib.to_base64 tag)) end))

  abbrev pub offer_of : ChatClient → RoomCipher → ChatClient × Result KeyError (Unit {0})
  offer_of c null_cipher = (c, ok tt)
  offer_of c (room_cipher s) = offered c (offer lib s)

  unfoldable pub send_offer : ChatClient → ChatClient × Result KeyError (Unit {0})
  send_offer c = offer_of c (cipher c)

  abbrev pub sender_key_fields : RoomSession → Bytes → Bytes → Fields
  sender_key_fields s wrapped peer =
      field (text "pub") (string (lib.to_base64 (lib.public_of s.own))) (
        field (text "key") (string (lib.to_base64 wrapped))
          (field (text "to") (string (lib.to_base64 peer)) end))

module _ (lib : KeyLibrary) (python : Python) where
  -- A peer's key was accepted.
  abbrev pub keyed : ChatClient → ℕ → ChatClient
  keyed c now = publish_verified (flush_deferred lib python c now)

  -- The handler of a key that waited.
  abbrev pub after_pending :
      ChatClient → ℕ → RoomSession × Result KeyError Bytes → ChatClient × Result KeyError (Unit {0})
  after_pending c now (s, ok ident) = (keyed (with_session c s) now, ok tt)
  after_pending c now (s, err sender_key_error) = (with_session c s, ok tt)
  after_pending c now (s, err offer_error) = (with_session c s, ok tt)
  after_pending c now (s, err unknown_sender_key) = (with_session c s, err unknown_sender_key)
  after_pending c now (s, err decryption_error) = (with_session c s, err decryption_error)
  after_pending c now (s, err message_too_long) = (with_session c s, err message_too_long)
  after_pending c now (s, err value_error) = (with_session c s, err value_error)

  abbrev pub try_pending :
      ChatClient → ℕ → RoomSession → Bytes → Option Bytes → ChatClient × Result KeyError (Unit {0})
  try_pending c now s peer none = (c, ok tt)
  try_pending c now s peer (some wrapped) =
      after_pending c now (accept_sender_key lib s peer wrapped)

  -- The sender's name is recorded and our key goes out, wrapped for it.
  abbrev pub answered :
      ChatClient → RoomSession → Bytes → Fields → Bytes → ChatClient × Result KeyError (Unit {0})
  answered c s peer packet wrapped =
      send_key_packet lib
        (record (with_session c s) {
          peer_users = put c.peer_users peer (user_name python (get_field packet (text "user")));
        })
        (text "sender_key") (sender_key_fields lib s wrapped peer)

  -- The key that waited for this offer, once the answer is out.
  abbrev pub take_pending :
      ℕ
      → RoomSession
      → Bytes
      → ChatClient × Result KeyError (Unit {0})
      → ChatClient × Result KeyError (Unit {0})
  take_pending now s peer (c, err e) = (c, err e)
  take_pending now s peer (c, ok _) =
      try_pending (record c { pending_keys = remove c.pending_keys peer }) now s peer
        (get c.pending_keys peer)

  abbrev pub after_offer :
      ChatClient
      → ℕ
      → Bytes
      → Fields
      → RoomSession × Result KeyError Bytes
      → ChatClient × Result KeyError (Unit {0})
  after_offer c now peer packet (s, ok wrapped) =
      take_pending now s peer (answered c s peer packet wrapped)
  after_offer c now peer packet (s, err offer_error) =
      (record (with_session c s) { mismatched = add_mismatched c.mismatched peer }, ok tt)
  after_offer c now peer packet (s, err sender_key_error) = (with_session c s, err sender_key_error)
  after_offer c now peer packet (s, err unknown_sender_key) =
      (with_session c s, err unknown_sender_key)
  after_offer c now peer packet (s, err decryption_error) = (with_session c s, err decryption_error)
  after_offer c now peer packet (s, err message_too_long) = (with_session c s, err message_too_long)
  after_offer c now peer packet (s, err value_error) = (with_session c s, err value_error)

  abbrev pub offer_with_tag :
      Fresh
      → ChatClient
      → ℕ
      → RoomSession
      → Bytes
      → Fields
      → Option Bytes
      → ChatClient × Result KeyError (Unit {0})
  offer_with_tag fresh c now s peer packet none = (c, ok tt)
  offer_with_tag fresh c now s peer packet (some tag) =
      after_offer c now peer packet (accept_offer lib s fresh.nonce peer tag)

  unfoldable pub accept_peer_offer :
      Fresh
      → ChatClient
      → ℕ
      → RoomSession
      → Bytes
      → Fields
      → ChatClient × Result KeyError (Unit {0})
  accept_peer_offer fresh c now s peer packet =
      offer_with_tag fresh c now s peer packet (bytes_field lib packet (text "mac"))

  abbrev pub after_key :
      ChatClient
      → ℕ
      → Bytes
      → Bytes
      → RoomSession × Result KeyError Bytes
      → ChatClient × Result KeyError (Unit {0})
  after_key c now peer wrapped (s, ok ident) = (keyed (with_session c s) now, ok tt)
  after_key c now peer wrapped (s, err unknown_sender_key) =
      (record (with_session c s) { pending_keys = add_pending c.pending_keys peer wrapped }, ok tt)
  after_key c now peer wrapped (s, err sender_key_error) = (with_session c s, ok tt)
  after_key c now peer wrapped (s, err offer_error) = (with_session c s, ok tt)
  after_key c now peer wrapped (s, err decryption_error) = (with_session c s, err decryption_error)
  after_key c now peer wrapped (s, err message_too_long) = (with_session c s, err message_too_long)
  after_key c now peer wrapped (s, err value_error) = (with_session c s, err value_error)

  abbrev pub key_with_wrapped :
      ChatClient → ℕ → RoomSession → Bytes → Option Bytes → ChatClient × Result KeyError (Unit {0})
  key_with_wrapped c now s peer none = (c, ok tt)
  key_with_wrapped c now s peer (some wrapped) =
      after_key c now peer wrapped (accept_sender_key lib s peer wrapped)

  unfoldable pub accept_peer_key :
      ChatClient → ℕ → RoomSession → Bytes → Fields → ChatClient × Result KeyError (Unit {0})
  accept_peer_key c now s peer packet =
      if is_text (bytes_field lib packet (text "to")) (lib.public_of s.own)
      then key_with_wrapped c now s peer (bytes_field lib packet (text "key"))
      else (c, ok tt)

  abbrev pub exchange_with :
      Fresh
      → ChatClient
      → ℕ
      → RoomSession
      → Option Bytes
      → Fields
      → ChatClient × Result KeyError (Unit {0})
  exchange_with fresh c now s none packet = (c, ok tt)
  exchange_with fresh c now s (some peer) packet =
      if peer == lib.public_of s.own
      then (c, ok tt)
      else if has_type packet (text "key_offer")
      then accept_peer_offer fresh c now s peer packet
      else accept_peer_key c now s peer packet

  abbrev pub exchange_keys :
      Fresh → ChatClient → ℕ → RoomCipher → Fields → ChatClient × Result KeyError (Unit {0})
  exchange_keys fresh c now null_cipher packet = (c, ok tt)
  exchange_keys fresh c now (room_cipher s) packet =
      exchange_with fresh c now s (bytes_field lib packet (text "pub")) packet

  unfoldable pub handle_key_exchange :
      Fresh → ChatClient → ℕ → Fields → ChatClient × Result KeyError Bool
  handle_key_exchange fresh c now packet =
      if is_key_exchange packet
      then (let (c', r) = exchange_keys fresh c now (cipher c) packet in (c', r >>= λ _. ok true))
      else (c, ok false)
