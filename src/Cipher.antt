-- ===== src/Cipher.antt =====
-- The voice ciphers of core/voice_crypto.py: the shared skeleton `_VoiceCipherBase` and its three
-- versions. HKDF and AES-GCM are parameters; an `AESGCM` object is its key, and None where nothing
-- is encrypted. The random salt and the voice key of a password are arguments of the constructor.
pub mod Seal
pub mod Open
pub mod RoundTrip
mod Examples
use proxy_net.Prelude.{
  ℕ, ◌+◌, List, [], ◌∷◌, ◌++◌, Bool, true, false, not, Option, none, some, ltb, leb, eqb,
  if◌then◌else◌, length, take, Text, text, ◌==◌, nat_eq, text_eq, Result, ok, err, ◌>>=◌, ◌>>◌,
  guard,
}
use proxy_net.Bytes.{Bytes, to_bytes}
use proxy_net.Dict.{Dict, get, put, remove}
use proxy_net.VoicePacket.{
  VoiceHeader, VoicePacketError, packed, encode_header, pack, unpack, header_bytes, type_audio,
  max_sender_id,
}
use proxy_net.Replay.{ReplayWindow, check, replay_window_size}

-- What the code takes from its cryptographic library: HKDF of a salt, an info and a key to 32
-- bytes, and AES-GCM of a key, a nonce, the data and the associated data. Decryption is none where
-- the library raises InvalidTag.
pub record Library : Type 0 where
  pub hkdf : Bytes → Bytes → Bytes → Bytes
  pub encrypt : Bytes → Bytes → Bytes → Bytes → Bytes
  pub decrypt : Bytes → Bytes → Bytes → Bytes → Option Bytes

pub data CipherError : Type 0 where
  packet_error : VoicePacketError → CipherError
  sequence_reuse unknown_sender replay decryption sender_key_missing value_error : CipherError

abbrev pub session_salt_bytes : ℕ
session_salt_bytes = 16

pub record Sender : Type 0 where
  pub salt : Bytes
  pub window : ReplayWindow
  pub aead : Option Bytes

-- VoiceCipher, ForwardSecretVoiceCipher with its own sender key, and NullVoiceCipher.
pub data Scheme : Type 0 where
  password_derived : Bytes → Scheme
  forward_secret : Bytes → Scheme
  unencrypted : Scheme

-- `keys` is used by the forward-secret version alone. `last_sequence` is none where the source
-- keeps -1.
pub record Cipher : Type 0 where
  pub scheme : Scheme
  pub sender_id : ℕ
  pub session_salt : Bytes
  pub last_sequence : Option ℕ
  pub own_aead : Option Bytes
  pub senders : Dict ℕ Sender
  pub keys : Dict ℕ Bytes

-- The error of voice_packet.py passes through.
abbrev pub lift : {A : Type 0} → Result VoicePacketError A → Result CipherError A
lift (ok a) = ok a
lift (err e) = err (packet_error e)

-- `ReplayWindow()`
abbrev pub new_window : ReplayWindow
new_window = record {
  size = replay_window_size;
  mask = 0xffff_ffff_ffff_ffff;
  highest = none;
  seen = 0;
}

-- `_NONCE.pack`, the format "!IQ".
unfoldable pub nonce : ℕ → ℕ → Result CipherError Bytes
nonce sender_id sequence = do
  sender ← lift (packed 4 sender_id)
  number ← lift (packed 8 sequence)
  ok (sender ++ number)

abbrev check_salt : Bytes → Bool
check_salt salt = eqb (length salt) session_salt_bytes

abbrev pub session_key_info : Bytes
session_key_info = text "proxynet-voice-session-v1"

abbrev pub fs_session_key_info : Bytes
fs_session_key_info = text "proxynet-voice-session-v3"

unfoldable pub derive_session_key : Library → Bytes → Bytes → ℕ → Result CipherError Bytes
derive_session_key lib voice_key salt sender_id = do
  guard (check_salt salt) value_error
  guard (leb sender_id max_sender_id) value_error
  id ← lift (packed 4 sender_id)
  ok (lib.hkdf salt (session_key_info ++ id) voice_key)

unfoldable pub derive_voice_session_key : Library → Bytes → Bytes → ℕ → Result CipherError Bytes
derive_voice_session_key lib sender_key salt sender_id = do
  guard (check_salt salt) value_error
  guard (eqb (length sender_key) 32) value_error
  guard (leb sender_id max_sender_id) value_error
  id ← lift (packed 4 sender_id)
  ok (lib.hkdf salt (fs_session_key_info ++ id) sender_key)

abbrev pub aead_of : Result CipherError Bytes → Result CipherError (Option Bytes)
aead_of (ok key) = ok (some key)
aead_of (err e) = err e

abbrev pub or_missing : Option Bytes → Result CipherError Bytes
or_missing none = err sender_key_missing
or_missing (some key) = ok key

-- The key of one sender in the forward-secret version.
abbrev pub key_of : Bytes → ℕ → Dict ℕ Bytes → ℕ → Result CipherError Bytes
key_of own_key own_id keys sender_id =
    if eqb sender_id own_id then ok own_key else or_missing (get keys sender_id)

-- `_session_aead` of the three versions; the arguments behind the scheme are `sender_id` and
-- `_keys` of the cipher.
unfoldable pub session_aead :
    Library → Scheme → ℕ → Dict ℕ Bytes → ℕ → Bytes → Result CipherError (Option Bytes)
session_aead lib (password_derived voice_key) own_id keys sender_id salt =
    aead_of (derive_session_key lib voice_key salt sender_id)
session_aead lib (forward_secret own_key) own_id keys sender_id salt =
    aead_of (do
      key ← key_of own_key own_id keys sender_id
      derive_voice_session_key lib key salt sender_id)
session_aead lib unencrypted own_id keys sender_id salt = ok none

-- The check of ForwardSecretVoiceCipher's own constructor.
abbrev own_key_is_valid : Scheme → Bool
own_key_is_valid (password_derived voice_key) = true
own_key_is_valid (forward_secret own_key) = eqb (length own_key) 32
own_key_is_valid unencrypted = true

-- The constructors; `salt` is the random session salt.
unfoldable pub new : Library → Scheme → ℕ → Bytes → Result CipherError Cipher
new lib scheme sender_id salt = do
  guard (own_key_is_valid scheme) value_error
  guard (leb sender_id max_sender_id) value_error
  own ← session_aead lib scheme sender_id [] sender_id salt
  ok (record {
    scheme = scheme;
    sender_id = sender_id;
    session_salt = salt;
    last_sequence = none;
    own_aead = own;
    senders = (sender_id, record { salt = salt; window = new_window; aead = own }) ∷ [];
    keys = [];
  })

-- `_remember_key`
abbrev pub remembered : Cipher → Scheme → ℕ → Option Bytes → Result CipherError Cipher
remembered c (password_derived voice_key) sender_id sender_key = ok c
remembered c unencrypted sender_id sender_key = ok c
remembered c (forward_secret own_key) sender_id none =
    if eqb sender_id c.sender_id then ok c else err sender_key_missing
remembered c (forward_secret own_key) sender_id (some key) =
    if eqb sender_id c.sender_id
    then ok c
    else if not (eqb (length key) 32)
    then err value_error
    else ok (record c { keys = put c.keys sender_id key })

abbrev pub has_salt : Option Sender → Bytes → Bool
has_salt none salt = false
has_salt (some sender) salt = sender.salt == salt

-- The end of `add_sender`: a new session of the sender.
unfoldable pub renew_sender : Library → Cipher → ℕ → Bytes → Cipher × Result CipherError (Unit {0})
renew_sender lib c sender_id salt =
    elim (session_aead lib c.scheme c.sender_id c.keys sender_id salt) [
      | err e ↦ (c, err e)
      | ok aead ↦ (
        record c {
          senders =
              put c.senders sender_id (record { salt = salt; window = new_window; aead = aead });
        },
        ok tt,
      )
    ]

unfoldable pub record_sender : Library → Cipher → ℕ → Bytes → Cipher × Result CipherError (Unit {0})
record_sender lib c sender_id salt =
    if eqb sender_id c.sender_id
    then (c, if salt == c.session_salt then ok tt else err value_error)
    else if has_salt (get c.senders sender_id) salt
    then (c, ok tt)
    else renew_sender lib c sender_id salt

unfoldable pub add_sender :
    Library → Cipher → ℕ → Bytes → Option Bytes → Cipher × Result CipherError (Unit {0})
add_sender lib c sender_id salt sender_key =
    if not (check_salt salt)
    then (c, err value_error)
    else elim (remembered c c.scheme sender_id sender_key) [
      | err e ↦ (c, err e)
      | ok c' ↦ record_sender lib c' sender_id salt
    ]

-- `_keys` is empty but in the forward-secret version.
unfoldable pub forget : Cipher → ℕ → Cipher
forget c sender_id =
    if eqb sender_id c.sender_id
    then c
    else record c { senders = remove c.senders sender_id; keys = remove c.keys sender_id }

-- `_protect`
abbrev pub protect : Library → Cipher → Option Bytes → ℕ → Bytes → Bytes → Result CipherError Bytes
protect lib c none sequence header audio = ok audio
protect lib c (some key) sequence header audio = do
  n ← nonce c.sender_id sequence
  ok (lib.encrypt key n audio header)

-- sequence <= self._last_sequence
abbrev pub is_used : Option ℕ → ℕ → Bool
is_used none sequence = false
is_used (some last) sequence = leb sequence last

-- Where it raises, the cipher is as before.
unfoldable pub seal : Library → Cipher → Bytes → ℕ → ℕ → Result CipherError (Cipher × Bytes)
seal lib c audio sequence timestamp_ms = do
  guard (not (is_used c.last_sequence sequence)) sequence_reuse
  header ← lift (encode_header c.sender_id sequence timestamp_ms type_audio)
  body ← protect lib c c.own_aead sequence header audio
  datagram ← lift (pack header body)
  ok (record c { last_sequence = some sequence }, datagram)

abbrev pub or_invalid : Option Bytes → Result CipherError Bytes
or_invalid none = err decryption
or_invalid (some audio) = ok audio

-- `_unprotect`
abbrev pub unprotect :
    Library → Option Bytes → VoiceHeader → Bytes → Bytes → Result CipherError Bytes
unprotect lib none decoded header body = ok body
unprotect lib (some key) decoded header body = do
  n ← nonce decoded.sender_id decoded.sequence
  or_invalid (lib.decrypt key n body header)

-- The sender's window is asked last, after the decryption.
unfoldable pub admit :
    Cipher → Sender → VoiceHeader → Bytes → Cipher × Result CipherError (VoiceHeader × Bytes)
admit c sender header audio =
    let (window', is_fresh) = check sender.window header.sequence in
    (
      record c { senders = put c.senders header.sender_id (record sender { window = window' }) },
      if is_fresh then ok (header, audio) else err replay,
    )

unfoldable pub open_from :
    Library
    → Cipher
    → Sender
    → VoiceHeader
    → Bytes
    → Bytes
    → Cipher × Result CipherError (VoiceHeader × Bytes)
open_from lib c sender header datagram body =
    elim (unprotect lib sender.aead header (take header_bytes datagram) body) [
      | err e ↦ (c, err e)
      | ok audio ↦ admit c sender header audio
    ]

-- `open`
unfoldable pub open_datagram :
    Library → Cipher → Bytes → Cipher × Result CipherError (VoiceHeader × Bytes)
open_datagram lib c datagram = elim (unpack datagram) [
  | err e ↦ (c, err (packet_error e))
  | ok (header, body) ↦ elim (get c.senders header.sender_id) [
    | none ↦ (c, err unknown_sender)
    | some sender ↦ open_from lib c sender header datagram body
  ]
]
