-- ===== src/VoiceCodec/Lengths.antt =====
-- The lengths and levels of the frames of core/voice_codec.py.
use proxy_net.Prelude.{
  ℕ, ◌+◌, ◌-◌, ◌*◌, ◌/◌, ◌%◌, ◌≡◌, refl, [], ◌∷◌, some, length, length-replicate, arith,
}
use proxy_net.Bytes.{Bytes}
use proxy_net.VoiceCodec.{silence, faded_sample, faded, frame_pcm_bytes}

pub length-silence : length silence ≡ frame_pcm_bytes
unfolding silence
length-silence = length-replicate {A = ℕ} frame_pcm_bytes 0

-- An even number of bytes.
abbrev pub IsPairs : Bytes → Type 0
IsPairs [] = Unit
IsPairs (b ∷ []) = ⊥
IsPairs (low ∷ high ∷ pcm) = IsPairs pcm

pub pairs : (pcm : Bytes) (n : ℕ) → length pcm ≡ 2 * n → IsPairs pcm
pairs [] n e = tt
pairs (b ∷ []) n e = omega arith
pairs (low ∷ high ∷ pcm) n e = pairs pcm (n - 1) (omega arith)

pub length-faded :
    (quarters : ℕ) (pcm : Bytes)
    → IsPairs pcm
    → (out : Bytes) × (faded quarters pcm ≡ some out) × (length out ≡ length pcm)
unfolding faded
length-faded quarters [] p = ([], refl, refl)
length-faded quarters (b ∷ []) p = absurd p
length-faded quarters (low ∷ high ∷ pcm) p =
    let (out, is, same) = length-faded quarters pcm p in
    let sample : ℕ = faded_sample quarters (low + 256 * high) in
    ((sample % 256) ∷ (sample / 256) ∷ out, rw (is, faded) refl, omega arith)
