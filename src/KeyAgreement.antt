-- ===== src/KeyAgreement.antt =====
-- core/key_agreement.py and the key derivation of core/crypto.py: ephemeral keys that a room's
-- password authenticates, and sender keys wrapped for each peer. The cryptographic library is a
-- parameter; random nonces and private keys are arguments. `bytes` and `str` have their types here,
-- so the checks with `isinstance` have no counterpart.
pub mod Agreement
pub mod Plain
use proxy_net.Prelude.{
  ℕ, List, [], ◌∷◌, ◌++◌, Bool, true, false, not, Option, none, some, ltb, leb, eqb, if◌then◌else◌,
  length, take, drop, Text, text, ◌==◌, text_eq, Result, ok, err, ◌>>=◌, ◌>>◌, guard,
}
use proxy_net.Bytes.{Bytes}

-- What the code takes from Python and from the cryptographic library: X25519, where `exchange` of a
-- private and a public key is none for a secret that the library refuses; HMAC of a key and a
-- message; HKDF to a length of a salt, an info and a key; Argon2id of a salt and a password; AES-GCM
-- of a key, a nonce, the data and the associated data, where `decrypt` is none for InvalidTag;
-- UTF-8 and base64url, none where decoding raises; and `room.strip().casefold()`. `encodes` is
-- whether UTF-8 can encode a text, which it cannot where a lone surrogate stands in it, and `to_utf8`
-- is the encoding of one that it can.
pub record KeyLibrary : Type 0 where
  pub public_of : Bytes → Bytes
  pub exchange : Bytes → Bytes → Option Bytes
  pub hmac : Bytes → Bytes → Bytes
  pub hkdf : ℕ → Bytes → Bytes → Bytes → Bytes
  pub argon2id : Bytes → Bytes → Bytes
  pub encrypt : Bytes → Bytes → Bytes → Bytes → Bytes
  pub decrypt : Bytes → Bytes → Bytes → Bytes → Option Bytes
  pub encodes : Text → Bool
  pub to_utf8 : Text → Bytes
  pub from_utf8 : Bytes → Option Text
  pub to_base64 : Bytes → Text
  pub from_base64 : Text → Option Bytes
  pub normalize_room : Text → Text

-- `unknown_sender_key` is UnknownSenderKey, `decryption_error` DecryptionError and `message_too_long`
-- MessageTooLongError; `value_error` is ValueError, which UnicodeEncodeError is too.
pub data KeyError : Type 0 where
  offer_error sender_key_error unknown_sender_key decryption_error message_too_long value_error :
      KeyError

abbrev pub public_key_bytes : ℕ
public_key_bytes = 32

abbrev pub offer_mac_bytes : ℕ
offer_mac_bytes = 32

abbrev pub sender_key_bytes : ℕ
sender_key_bytes = 32

abbrev pub wrap_nonce_bytes : ℕ
wrap_nonce_bytes = 12

abbrev pub pair_psk_bytes : ℕ
pair_psk_bytes = 32

abbrev pub offer_mac_context : Bytes
offer_mac_context = text "proxynet-offer-v1"

abbrev pub pair_key_info : Bytes
pair_key_info = text "proxynet-pair-v2"

abbrev pub pair_psk_context : Bytes
pair_psk_context = text "proxynet-pair-psk-v1"

abbrev pub sender_key_wrap_info : Bytes
sender_key_wrap_info = text "proxynet-sender-key-v1"

abbrev pub salt_prefix : Bytes
salt_prefix = text "proxynet:argon2id:room:"

-- `text.encode("utf-8")`
abbrev pub utf8 : KeyLibrary → Text → Result KeyError Bytes
utf8 lib t = if lib.encodes t then ok (lib.to_utf8 t) else err value_error

unfoldable pub derive_master_key : KeyLibrary → Text → Text → Result KeyError Bytes
derive_master_key lib room password = do
  name ← utf8 lib (lib.normalize_room room)
  secret ← utf8 lib password
  ok (lib.argon2id (salt_prefix ++ name) secret)

-- `_check_public`
abbrev pub check_public : Bytes → Result KeyError (Unit {0})
check_public key = guard (eqb (length key) public_key_bytes) offer_error

-- The room is a session's, which `pair_psk` has encoded in the constructor already.
unfoldable pub offer_mac : KeyLibrary → Bytes → Bytes → Text → Result KeyError Bytes
offer_mac lib public_key master_key room = do
  check_public public_key
  ok (lib.hmac master_key (offer_mac_context ++ (lib.to_utf8 room ++ 0 ∷ public_key)))

unfoldable pub verify_offer : KeyLibrary → Bytes → Bytes → Bytes → Text → Result KeyError (Unit {0})
verify_offer lib public_key mac master_key room = do
  guard (eqb (length public_key) public_key_bytes) offer_error
  guard (eqb (length mac) offer_mac_bytes) offer_error
  expected ← offer_mac lib public_key master_key room
  guard (mac == expected) offer_error

unfoldable pub pair_psk : KeyLibrary → Bytes → Text → Result KeyError Bytes
pair_psk lib master_key room = do
  name ← utf8 lib room
  ok (lib.hmac master_key (pair_psk_context ++ (name ++ 0 ∷ [])))

unfoldable pub wrap_sender_key : KeyLibrary → Bytes → Bytes → Bytes → Result KeyError Bytes
wrap_sender_key lib nonce pair_key sender_key = do
  guard (eqb (length sender_key) sender_key_bytes) value_error
  ok (nonce ++ lib.encrypt pair_key nonce sender_key sender_key_wrap_info)

abbrev pub or_raise_key : {A : Type 0} → Option A → KeyError → Result KeyError A
or_raise_key none e = err e
or_raise_key (some a) e = ok a

unfoldable pub unwrap_sender_key : KeyLibrary → Bytes → Bytes → Result KeyError Bytes
unwrap_sender_key lib pair_key wrapped = do
  guard (ltb wrap_nonce_bytes (length wrapped)) sender_key_error
  opened ←
      or_raise_key
        (lib.decrypt pair_key (take wrap_nonce_bytes wrapped) (drop wrap_nonce_bytes wrapped)
          sender_key_wrap_info)
        sender_key_error
  guard (eqb (length opened) sender_key_bytes) sender_key_error
  ok opened

-- The order of `bytes`.
unfoldable pub bytes_leb : Bytes → Bytes → Bool
bytes_leb [] bs = true
bytes_leb (a ∷ rest) [] = false
bytes_leb (a ∷ rest) (b ∷ bs) =
    if ltb a b then true else if eqb a b then bytes_leb rest bs else false

-- b"".join(sorted((a, b)))
unfoldable pub joined_sorted : Bytes → Bytes → Bytes
joined_sorted a b = if bytes_leb a b then a ++ b else b ++ a

-- `EphemeralKey.pair_key` of a private key.
unfoldable pub pair_key : KeyLibrary → Bytes → Bytes → Bytes → Result KeyError Bytes
pair_key lib private_key peer_public psk = do
  check_public peer_public
  guard (eqb (length psk) pair_psk_bytes) value_error
  guard (not (peer_public == lib.public_of private_key)) offer_error
  shared ← or_raise_key (lib.exchange private_key peer_public) offer_error
  ok (
      lib.hkdf 32 (joined_sorted (lib.public_of private_key) peer_public) pair_key_info
        (shared ++ psk))
