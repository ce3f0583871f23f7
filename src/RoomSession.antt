-- ===== src/RoomSession.antt =====
-- core/room_session.py: the end-to-end state of a client in one room. Random nonces and keys are
-- arguments; the library is that of `KeyAgreement`.
pub mod Tables
pub mod Runs
pub mod Reading
pub mod Sights
mod Examples
use proxy_net.Prelude.{
  ℕ, ◌+◌, List, [], ◌∷◌, ◌++◌, Bool, true, false, not, ◌&&◌, ◌||◌, Option, none, some, ltb, leb,
  eqb, if◌then◌else◌, length, take, drop, Text, text, ◌==◌, text_eq, Result, ok, err, ◌>>=◌, ◌>>◌,
  guard,
}
use proxy_net.Bytes.{Bytes}
use proxy_net.Dict.{Dict, get, put, remove, contains, keys}
use proxy_net.Padding.{PaddingError, pad, unpad}
use proxy_net.KeyAgreement.{
  KeyLibrary, KeyError, utf8, derive_master_key, offer_mac, verify_offer, pair_psk, pair_key,
  wrap_sender_key, unwrap_sender_key, or_raise_key, unknown_sender_key, sender_key_error,
  decryption_error, message_too_long,
}

abbrev pub key_id_bytes : ℕ
key_id_bytes = 4

abbrev pub nonce_bytes : ℕ
nonce_bytes = 12

abbrev pub seen_messages_limit : ℕ
seen_messages_limit = 8192

abbrev pub key_id_info : Bytes
key_id_info = text "proxynet-key-id-v1"

abbrev pub message_aad : Bytes
message_aad = text "proxynet-msg-v1"

-- `own` is the private ephemeral key. `seen` holds the keys of the dictionary, the oldest first.
pub record RoomSession : Type 0 where
  pub room : Text
  pub aad : Bytes
  pub master : Bytes
  pub psk : Bytes
  pub own : Bytes
  pub sender_key : Bytes
  pub pairs : Dict Bytes Bytes
  pub by_id : Dict Bytes Bytes
  pub peer_ids : Dict Bytes Bytes
  pub holders : Dict Bytes Bytes
  pub seen : List Bytes

-- Whether the id is held by someone other than `peer`.
abbrev pub is_taken : Option Bytes → Bytes → Bool
is_taken none peer = false
is_taken (some holder) peer = not (holder == peer)

-- `_by_id` or `_holders` without the peer's previous id, where it is not the new one.
abbrev pub without_previous : Dict Bytes Bytes → Option Bytes → Bytes → Dict Bytes Bytes
without_previous d none ident = d
without_previous d (some previous) ident = if previous == ident then d else remove d previous

unfoldable pub store_key : RoomSession → Bytes → Bytes → Bytes → RoomSession
store_key s peer ident key =
    let previous = get s.peer_ids peer in
    record s {
      by_id = put (without_previous s.by_id previous ident) ident key;
      holders = put (without_previous s.holders previous ident) ident peer;
      peer_ids = put s.peer_ids peer ident;
    }

-- `_by_id` or `_holders` without the id of a peer that has one.
abbrev pub without_id : Dict Bytes Bytes → Option Bytes → Dict Bytes Bytes
without_id d none = d
without_id d (some ident) = remove d ident

unfoldable pub forget_peer : RoomSession → Bytes → RoomSession
forget_peer s peer =
    let ident = get s.peer_ids peer in
    record s {
      pairs = remove s.pairs peer;
      peer_ids = remove s.peer_ids peer;
      by_id = without_id s.by_id ident;
      holders = without_id s.holders ident;
    }

unfoldable pub knows : RoomSession → Bytes → Bool
knows s ident = contains s.by_id ident

-- The set's elements.
unfoldable pub keyed_peers : RoomSession → List Bytes
keyed_peers s = keys s.peer_ids

unfoldable pub sender_key_of : RoomSession → Bytes → Option Bytes
sender_key_of s peer = elim (get s.peer_ids peer) [ none ↦ none | some ident ↦ get s.by_id ident ]

abbrev pub head_of : Option Bytes → Option Bytes
head_of none = none
head_of (some raw) =
    if leb (length raw) (key_id_bytes + nonce_bytes)
    then none
    else some (take (key_id_bytes + nonce_bytes) raw)

-- Membership of a key of `_seen`.
unfoldable pub is_seen : Bytes → List Bytes → Bool
is_seen h [] = false
is_seen h (x ∷ xs) = if x == h then true else is_seen h xs

-- The oldest is dropped where there are too many.
abbrev pub trimmed : List Bytes → List Bytes
trimmed [] = []
trimmed (x ∷ xs) = if ltb seen_messages_limit (length (x ∷ xs)) then xs else x ∷ xs

abbrev pub or_too_long : Result PaddingError Bytes → Result KeyError Bytes
or_too_long (ok bs) = ok bs
or_too_long (err e) = err message_too_long

-- The errors behind the tag are DecryptionError too.
abbrev pub or_undecryptable : Result PaddingError Bytes → Result KeyError Bytes
or_undecryptable (ok bs) = ok bs
or_undecryptable (err e) = err decryption_error

module _ (lib : KeyLibrary) where
  -- An HKDF without a salt.
  unfoldable pub key_id : Bytes → Bytes
  key_id sender_key = lib.hkdf key_id_bytes [] key_id_info sender_key

  -- The fields that the constructor sets.
  abbrev pub opened_with : Text → Bytes → Bytes → Bytes → Bytes → Bytes → RoomSession
  opened_with room aad master psk own sender_key = record {
    room = room;
    aad = aad;
    master = master;
    psk = psk;
    own = own;
    sender_key = sender_key;
    pairs = [];
    by_id = (key_id sender_key, sender_key) ∷ [];
    peer_ids = [];
    holders = (key_id sender_key, lib.public_of own) ∷ [];
    seen = [];
  }

  -- The constructor, of a room, a password, a private key and a sender key. It raises where UTF-8
  -- cannot encode the room or the password.
  unfoldable pub new : Text → Text → Bytes → Bytes → Result KeyError RoomSession
  new room password own sender_key = do
    name ← utf8 lib (lib.normalize_room room)
    master ← derive_master_key lib room password
    psk ← pair_psk lib master room
    ok (opened_with room (message_aad ++ name) master psk own sender_key)

  unfoldable pub offer : RoomSession → Result KeyError (Bytes × Bytes)
  offer s = do
    mac ← offer_mac lib (lib.public_of s.own) s.master s.room
    ok (lib.public_of s.own, mac)

  -- The pair stays recorded where the wrapping raises, which it does for no key of 32 bytes.
  abbrev pub wrapped_for : RoomSession → Bytes → Bytes → Bytes → RoomSession × Result KeyError Bytes
  wrapped_for s nonce peer_public pair = (
    record s { pairs = put s.pairs peer_public pair },
    wrap_sender_key lib nonce pair s.sender_key,
  )

  unfoldable pub accept_offer :
      RoomSession → Bytes → Bytes → Bytes → RoomSession × Result KeyError Bytes
  accept_offer s nonce peer_public mac =
      elim (do
        verify_offer lib peer_public mac s.master s.room
        pair_key lib s.own peer_public s.psk) [
          | err e ↦ (s, err e)
          | ok pair ↦ wrapped_for s nonce peer_public pair
        ]

  unfoldable pub accept_key : RoomSession → Bytes → Bytes → RoomSession × Result KeyError Bytes
  accept_key s peer key =
      if is_taken (get s.holders (key_id key)) peer
      then (s, err sender_key_error)
      else (store_key s peer (key_id key) key, ok (key_id key))

  unfoldable pub accept_sender_key :
      RoomSession → Bytes → Bytes → RoomSession × Result KeyError Bytes
  accept_sender_key s peer wrapped =
      elim (do
        pair ← or_raise_key (get s.pairs peer) unknown_sender_key
        unwrap_sender_key lib pair wrapped) [ err e ↦ (s, err e) | ok key ↦ accept_key s peer key ]

  -- `_head`
  unfoldable pub head : Text → Option Bytes
  head token = head_of (lib.from_base64 token)

  unfoldable pub can_read : RoomSession → Text → Bool
  can_read s token = elim (head token) [
    | none ↦ false
    | some h ↦ contains s.by_id (take key_id_bytes h)
  ]

  unfoldable pub key_owner : RoomSession → Text → Option Bytes
  key_owner s token = elim (head token) [
    | none ↦ none
    | some h ↦ get s.holders (take key_id_bytes h)
  ]

  unfoldable pub first_sight : RoomSession → Text → RoomSession × Bool
  first_sight s token = elim (head token) [
    | none ↦ (s, false)
    | some h ↦
        if is_seen h s.seen
        then (s, false)
        else (record s { seen = trimmed (s.seen ++ h ∷ []) }, true)
  ]

  unfoldable pub encrypt : RoomSession → Bytes → Text → Result KeyError Text
  encrypt s nonce plaintext = do
    plain ← utf8 lib plaintext
    padded ← or_too_long (pad plain)
    ok (
        lib.to_base64
          (key_id s.sender_key ++ (nonce ++ lib.encrypt s.sender_key nonce padded s.aad)))

  unfoldable pub decrypt : RoomSession → Text → Result KeyError Text
  decrypt s token = do
    raw ← or_raise_key (lib.from_base64 token) decryption_error
    guard (ltb (key_id_bytes + nonce_bytes) (length raw)) decryption_error
    key ← or_raise_key (get s.by_id (take key_id_bytes raw)) unknown_sender_key
    payload ←
        or_raise_key
          (lib.decrypt key (take nonce_bytes (drop key_id_bytes raw))
            (drop (key_id_bytes + nonce_bytes) raw) s.aad)
          decryption_error
    plain ← or_undecryptable (unpad payload)
    or_raise_key (lib.from_utf8 plain) decryption_error
