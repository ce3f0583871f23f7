-- ===== src/VoiceCodec.antt =====
-- core/voice_codec.py: the choice of the codec, its frames, and the concealment of a lost frame.
-- `audioop` and the encoder and decoder of core/voice_opus.py, a binding of libopus, are a parameter
-- over the type `S` of the binding's native states.
pub mod Lengths
use proxy_net.Prelude.{
  ℕ, zero, suc, ◌+◌, ◌-◌, ◌*◌, ◌/◌, ◌%◌, List, [], ◌∷◌, Bool, true, false, not, ◌&&◌, ◌||◌, Option,
  none, some, ltb, leb, eqb, if◌then◌else◌, length, replicate, Text, text, ◌==◌, text_eq, Result,
  ok, err,
}
use proxy_net.Bytes.{Bytes}

abbrev pub frame_ms : ℕ
frame_ms = 20

abbrev pub sample_rate : ℕ
sample_rate = 16000

abbrev pub frame_samples : ℕ
frame_samples = sample_rate * frame_ms / 1000

abbrev pub frame_pcm_bytes : ℕ
frame_pcm_bytes = frame_samples * 2

abbrev pub codec_mulaw : Text
codec_mulaw = text "ulaw"

abbrev pub codec_opus : Text
codec_opus = text "opus"

abbrev pub opus_bitrate : ℕ
opus_bitrate = 24000

-- `lin2ulaw`, `ulaw2lin` and `add` of `audioop` at a width of two bytes, where `add` is none for
-- fragments that differ in length; and the Opus states, where none is OpusError.
pub record SoundLibrary (S : Type 0) : Type 0 where
  pub lin2ulaw : Bytes → Bytes
  pub ulaw2lin : Bytes → Bytes
  pub add : Bytes → Bytes → Option Bytes
  pub opus_encoder : Option S
  pub opus_decoder : Option S
  pub opus_encode : S → Bytes → S × Option Bytes
  pub opus_decode : S → Option Bytes → S × Option Bytes

-- `value_error` is ValueError.
pub data CodecError : Type 0 where
  value_error opus_error : CodecError

-- FRAME_BYTES.get
unfoldable pub frame_bytes_of : Text → Option ℕ
frame_bytes_of codec =
    if codec == codec_mulaw
    then some frame_samples
    else if codec == codec_opus
    then some (opus_bitrate * frame_ms / 8000)
    else none

unfoldable pub choose_codec : Text → Option Text → Text
choose_codec ours none = codec_mulaw
choose_codec ours (some theirs) =
    if (ours == codec_opus) && (theirs == codec_opus) then codec_opus else codec_mulaw

abbrev pub available_codec : Bool → Text
available_codec opus_available = if opus_available then codec_opus else codec_mulaw

unfoldable pub silence : Bytes
silence = replicate frame_pcm_bytes 0

-- `int(value * factor)` of a sample in two's complement, for a factor of `quarters` / 4.
unfoldable pub faded_sample : ℕ → ℕ → ℕ
faded_sample quarters sample =
    if ltb sample 32768
    then sample * quarters / 4
    else (65536 - (65536 - sample) * quarters / 4) % 65536

-- The loop of `faded_repeat`; the low byte of a sample comes first. It is none where
-- `samples.frombytes` raises ValueError.
unfoldable pub faded : ℕ → Bytes → Option Bytes
faded quarters [] = some []
faded quarters (b ∷ []) = none
faded quarters (low ∷ high ∷ pcm) =
    let sample = faded_sample quarters (low + 256 * high) in
    elim (faded quarters pcm) [
      | none ↦ none
      | some rest ↦ some ((sample % 256) ∷ (sample / 256) ∷ rest)
    ]

-- A factor of `quarters` / 4.
unfoldable pub faded_repeat : Bytes → ℕ → Option Bytes
faded_repeat pcm zero = some silence
faded_repeat pcm (suc q) = faded (suc q) pcm

pub record FrameCodec (S : Type 0) : Type 0 where
  pub codec : Text
  pub frame_bytes : ℕ
  pub encoder : Option S
  pub decoder : Option S

-- The states of Opus.
abbrev with_opus : {S : Type 0} → Text → ℕ → Option S → Option S → Result CodecError (FrameCodec S)
with_opus codec n (some encoder) (some decoder) =
    ok (record { codec = codec; frame_bytes = n; encoder = some encoder; decoder = some decoder })
with_opus codec n none decoder = err opus_error
with_opus codec n (some encoder) none = err opus_error

abbrev or_opus_error : Option Bytes → Result CodecError Bytes
or_opus_error none = err opus_error
or_opus_error (some bs) = ok bs

abbrev or_opus_error_some : Option Bytes → Result CodecError (Option Bytes)
or_opus_error_some none = err opus_error
or_opus_error_some (some bs) = ok (some bs)

module _ {S : Type 0} (sound : SoundLibrary S) where
  -- The constructor.
  unfoldable pub new : Text → Result CodecError (FrameCodec S)
  new codec = elim (frame_bytes_of codec) [
    | none ↦ err value_error
    | some n ↦ elim (codec == codec_opus) [
      | true ↦ with_opus codec n sound.opus_encoder sound.opus_decoder
      | false ↦ ok (record { codec = codec; frame_bytes = n; encoder = none; decoder = none })
    ]
  ]

  abbrev pub encode_with : FrameCodec S → Option S → Bytes → FrameCodec S × Result CodecError Bytes
  encode_with c none pcm = (c, ok (sound.lin2ulaw pcm))
  encode_with c (some encoder) pcm =
      let (encoder', packet) = sound.opus_encode encoder pcm in
      (record c { encoder = some encoder' }, or_opus_error packet)

  unfoldable pub encode : FrameCodec S → Bytes → FrameCodec S × Result CodecError Bytes
  encode c pcm =
      if eqb (length pcm) frame_pcm_bytes then encode_with c c.encoder pcm else (c, err value_error)

  abbrev pub decode_with : FrameCodec S → Option S → Bytes → FrameCodec S × Result CodecError Bytes
  decode_with c none frame = (c, ok (sound.ulaw2lin frame))
  decode_with c (some decoder) frame =
      let (decoder', pcm) = sound.opus_decode decoder (some frame) in
      (record c { decoder = some decoder' }, or_opus_error pcm)

  unfoldable pub decode : FrameCodec S → Bytes → FrameCodec S × Result CodecError Bytes
  decode c frame = decode_with c c.decoder frame

  abbrev pub conceal_with :
      FrameCodec S → Option S → FrameCodec S × Result CodecError (Option Bytes)
  conceal_with c none = (c, ok none)
  conceal_with c (some decoder) =
      let (decoder', pcm) = sound.opus_decode decoder none in
      (record c { decoder = some decoder' }, or_opus_error_some pcm)

  unfoldable pub conceal : FrameCodec S → FrameCodec S × Result CodecError (Option Bytes)
  conceal c = conceal_with c c.decoder

unfoldable pub close : {S : Type 0} → FrameCodec S → FrameCodec S
close c = record c { encoder = none; decoder = none }
