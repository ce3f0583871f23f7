-- ===== src/VoiceSession.antt =====
-- core/voice_session.py: one person's voice session, between the microphone, the network and the
-- sound card. A moment is a reading of the clock, and `since now then` is
-- `round((now - then) * 1000)`.
pub mod Bins
pub mod Network
pub mod Playback
pub mod Percentile
pub mod Incoming
pub mod Playing
pub mod Runs
pub mod Delivery
mod Examples
use proxy_net.Prelude.{
  ℕ, zero, suc, ◌+◌, ◌-◌, ◌*◌, ◌/◌, ◌%◌, ◌^◌, List, [], ◌∷◌, ◌++◌, Bool, true, false, not, ◌&&◌,
  ◌||◌, Option, none, some, ltb, leb, eqb, if◌then◌else◌, length, take, drop, replicate, Text, text,
  nat_eq, Result, ok, err, ◌>>=◌, ◌>>◌, guard,
}
use proxy_net.Bytes.{Bytes, from_bytes}
use proxy_net.Dict.{Dict, get, put, remove, contains}
use proxy_net.VoicePacket.{VoiceHeader, packed, decode_header, header_bytes}
use proxy_net.VoiceSession.Bins.{Distribution, empty_distribution, add}
use proxy_net.Jitter.{
  JitterBuffer, JitterError, push, pop, buffered_ms, default_target_ms, default_frame_ms,
  default_capacity, default_catchup_slack_ms, default_catchup_interval,
}
use proxy_net.Jitter as Jitter
use proxy_net.Cipher.{
  Library, Scheme, password_derived, forward_secret, unencrypted, Cipher, CipherError, packet_error,
  sequence_reuse, unknown_sender, replay, decryption, sender_key_missing, value_error, lift,
  add_sender, forget, seal, open_datagram,
}
use proxy_net.Cipher as Cipher
use proxy_net.VoiceCodec.{
  SoundLibrary, CodecError, FrameCodec, silence, faded_repeat, encode, decode, conceal,
}
use proxy_net.VoiceCodec as VoiceCodec

abbrev pub timing_bytes : ℕ
timing_bytes = 10

abbrev pub no_echo : ℕ
no_echo = 0

abbrev pub device_allowance_ms : ℕ
device_allowance_ms = 40

abbrev pub max_concealed : ℕ
max_concealed = 3

-- `_Peer`
pub record Peer (S : Type 0) : Type 0 where
  pub buffer : JitterBuffer
  pub codec : FrameCodec S
  pub last_pcm : Option Bytes
  pub concealed_run : ℕ
  pub received : ℕ
  pub undecryptable : ℕ
  pub last_seen : Option (ℕ × ℕ)

pub record VoiceSession (S : Type 0) : Type 0 where
  pub cipher : Cipher
  pub sender_id : ℕ
  pub codec_name : Text
  pub encoder : FrameCodec S
  pub peers : Dict ℕ (Peer S)
  pub started : ℕ
  pub sequence : ℕ
  pub echo : Option (ℕ × ℕ × ℕ)
  pub last_rtt : Option ℕ
  pub sent : ℕ
  pub received : ℕ
  pub concealed : ℕ
  pub silent : ℕ
  pub undecryptable : ℕ
  pub malformed : ℕ
  pub rtt : Distribution
  pub mouth_to_ear : Distribution

-- `audio_error` is audioop.error.
pub data VoiceError : Type 0 where
  cipher_error : CipherError → VoiceError
  codec_error : CodecError → VoiceError
  jitter_error : JitterError → VoiceError
  audio_error : VoiceError

-- The subclasses of VoiceDecryptionError.
abbrev pub is_decryption_error : CipherError → Bool
is_decryption_error (packet_error e) = false
is_decryption_error sequence_reuse = false
is_decryption_error unknown_sender = true
is_decryption_error replay = true
is_decryption_error decryption = true
is_decryption_error sender_key_missing = false
is_decryption_error value_error = false

abbrev pub or_cipher_error : {A : Type 0} → Result CipherError A → Result VoiceError A
or_cipher_error (ok a) = ok a
or_cipher_error (err e) = err (cipher_error e)

abbrev pub or_codec_error : {A : Type 0} → Result CodecError A → Result VoiceError A
or_codec_error (ok a) = ok a
or_codec_error (err e) = err (codec_error e)

abbrev pub or_jitter_error : {A : Type 0} → Result JitterError A → Result VoiceError A
or_jitter_error (ok a) = ok a
or_jitter_error (err e) = err (jitter_error e)

-- The scheme that `make_voice_cipher` chooses; `voice_key` is the key of the room and the password.
abbrev pub choose_scheme : Option Text → Bytes → Option Bytes → Bool → Result CipherError Scheme
choose_scheme none voice_key own_key allow = ok unencrypted
choose_scheme (some []) voice_key own_key allow = ok unencrypted
choose_scheme (some (c ∷ cs)) voice_key (some own_key) allow = ok (forward_secret own_key)
choose_scheme (some (c ∷ cs)) voice_key none true = ok (password_derived voice_key)
choose_scheme (some (c ∷ cs)) voice_key none false = err sender_key_missing

unfoldable pub make_voice_cipher :
    Library → Option Text → Bytes → ℕ → Option Bytes → Bool → Bytes → Result CipherError Cipher
make_voice_cipher lib password voice_key sender_id own_key allow salt = do
  scheme ← choose_scheme password voice_key own_key allow
  Cipher.new lib scheme sender_id salt

-- `JitterBuffer()`
abbrev pub default_buffer : Result JitterError JitterBuffer
default_buffer =
    Jitter.new default_target_ms default_frame_ms default_capacity default_catchup_slack_ms
      (some default_catchup_interval)

-- `peer.last_pcm is None or peer.concealed_run > MAX_CONCEALED`
abbrev pub gives_up : Option Bytes → ℕ → Bool
gives_up none run = true
gives_up (some pcm) run = ltb max_concealed run

module _ {S : Type 0} where
  -- `add(self._last_rtt / 2 + buffered_ms + DEVICE_ALLOWANCE_MS)`
  abbrev pub heard : VoiceSession S → Option ℕ → JitterBuffer → VoiceSession S
  heard s none buffer = s
  heard s (some rtt) buffer = record s {
    mouth_to_ear = add s.mouth_to_ear (rtt + 2 * (buffered_ms buffer + device_allowance_ms));
  }

  abbrev pub count_concealed : VoiceSession S → Bool → VoiceSession S
  count_concealed s true = record s { silent = s.silent + 1 }
  count_concealed s false = record s { concealed = s.concealed + 1 }

  -- The end of `__init__`, where the cipher and the encoder are made.
  abbrev started_at : ℕ → Text → ℕ → Cipher × FrameCodec S → VoiceSession S
  started_at sender_id codec now (cipher, encoder) = record {
    cipher = cipher;
    sender_id = sender_id;
    codec_name = codec;
    encoder = encoder;
    peers = [];
    started = now;
    sequence = 0;
    echo = none;
    last_rtt = none;
    sent = 0;
    received = 0;
    concealed = 0;
    silent = 0;
    undecryptable = 0;
    malformed = 0;
    rtt = empty_distribution;
    mouth_to_ear = empty_distribution;
  }

  unfoldable pub close : VoiceSession S → VoiceSession S
  close s = record s { encoder = VoiceCodec.close s.encoder; peers = [] }

  unfoldable pub remove_peer : VoiceSession S → ℕ → VoiceSession S
  remove_peer s id = record s { peers = remove s.peers id; cipher = forget s.cipher id }

module _ {S : Type 0} (sound : SoundLibrary S) where
  -- `_Peer(codec)`
  unfoldable pub new_peer : Text → Result VoiceError (Peer S)
  new_peer codec_name = do
    buffer ← or_jitter_error default_buffer
    codec ← or_codec_error (VoiceCodec.new sound codec_name)
    ok (record {
      buffer = buffer;
      codec = codec;
      last_pcm = none;
      concealed_run = 0;
      received = 0;
      undecryptable = 0;
      last_seen = none;
    })

  -- A peer that is there stays as it is.
  abbrev pub with_peer : VoiceSession S → ℕ → VoiceSession S × Result VoiceError (Unit {0})
  with_peer s id = elim (get s.peers id) [
    | some peer ↦ (s, ok tt)
    | none ↦ elim (new_peer s.codec_name) [
      | err e ↦ (s, err e)
      | ok peer ↦ (record s { peers = put s.peers id peer }, ok tt)
    ]
  ]

module _ {S : Type 0} (lib : Library) (sound : SoundLibrary S) where
  -- The constructor, with the arguments of `make_voice_cipher`.
  unfoldable pub new :
      Option Text
      → Bytes
      → ℕ
      → Text
      → Option Bytes
      → Bool
      → Bytes
      → ℕ
      → Result VoiceError (VoiceSession S)
  new password voice_key sender_id codec own_key allow salt now = do
    cipher ← or_cipher_error (make_voice_cipher lib password voice_key sender_id own_key allow salt)
    encoder ← or_codec_error (VoiceCodec.new sound codec)
    ok (started_at sender_id codec now (cipher, encoder))

  unfoldable pub add_peer :
      VoiceSession S → ℕ → Bytes → Option Bytes → VoiceSession S × Result VoiceError (Unit {0})
  add_peer s id salt key =
      let (cipher, added) = add_sender lib s.cipher id salt key in
      elim (eqb id s.sender_id) [
        | true ↦ (s, ok tt)
        | false ↦ elim added [
          | err e ↦ (record s { cipher = cipher }, err (cipher_error e))
          | ok u ↦ with_peer sound (record s { cipher = cipher }) id
        ]
      ]
