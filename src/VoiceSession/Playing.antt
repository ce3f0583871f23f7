-- ===== src/VoiceSession/Playing.antt =====
-- What core/voice_session.py plays in a session whose codec is µ-law.
use proxy_net.Prelude.{
  ℕ, zero, suc, ◌+◌, ◌-◌, ◌*◌, ◌≡◌, refl, inl, inr, [], ◌∷◌, Bool, true, false, Option, none, some,
  eqb, length, arith, Bool-cases, Result, ok, err, All, nat_eq, ap, sym, ◌∙◌,
}
use mathlib.Core.Path.{subst}
use proxy_net.Bytes.{Bytes}
use proxy_net.Dict.{Dict, get, put, remove}
use proxy_net.Jitter.{JitterBuffer}
use proxy_net.Jitter.Slot.{IsValid}
use proxy_net.Jitter.Pop.{pop-PopsTo, PopsTo-IsValid, pop-in_turn}
use proxy_net.Jitter.Runs.Genuine.{Holds, PopsTo-Holds}
use proxy_net.VoiceCodec.{
  SoundLibrary, silence, faded_repeat, decode, conceal, codec_mulaw, frame_samples, frame_pcm_bytes,
}
use proxy_net.VoiceCodec.Lengths.{length-silence, length-faded, pairs}
use proxy_net.VoiceSession.{Peer, VoiceSession, VoiceError, heard, count_concealed, gives_up}
use proxy_net.VoiceSession.Playback.{
  stand_in, mix, or_silence, concealed_by, conceal_frame, decoded, play_frame, play_peer, play_all,
  play,
}

-- `ulaw2lin` doubles a fragment, and the sum of two fragments of one length, which is a whole number
-- of samples of two bytes, has that length.
pub record IsAudio {S : Type 0} (sound : SoundLibrary S) : Type 0 where
  pub doubles : (f : Bytes) → length (sound.ulaw2lin f) ≡ 2 * length f
  pub adds :
      (a b : Bytes) (samples : ℕ)
      → length a ≡ 2 * samples
      → length b ≡ 2 * samples
      → (c : Bytes) × (sound.add a b ≡ some c) × (length c ≡ length a)

-- A frame of 20 ms of samples, where there is one.
abbrev pub IsFrame : Option Bytes → Type 0
IsFrame none = Unit
IsFrame (some pcm) = length pcm ≡ frame_pcm_bytes

abbrev pub HasFrameSize : ℕ → Bytes → Type 0
HasFrameSize k v = length v ≡ frame_samples

-- A peer whose codec is µ-law and whose buffer is valid and holds frames of the codec alone.
pub record IsMulaw {S : Type 0} (p : Peer S) : Type 0 where
  pub plain : p.codec.decoder ≡ none
  pub sized : p.codec.frame_bytes ≡ frame_samples
  pub valid : IsValid p.buffer
  pub framed : Holds HasFrameSize p.buffer
  pub last : IsFrame p.last_pcm

pub record IsReady {S : Type 0} (s : VoiceSession S) : Type 0 where
  pub mulaw : s.codec_name ≡ codec_mulaw
  pub peers : All (λ entry. IsMulaw entry.1) s.peers

module _ {V : Type 0} (P : V → Type 0) where
  pub get-All : (d : Dict ℕ V) (k : ℕ) (v : V) → All (λ entry. P entry.1) d → get d k ≡ some v → P v
  unfolding get
  get-All [] k v a e = absurd (cc)
  get-All ((j, w) ∷ d) k v a e = elim (Bool-cases (eqb j k)) [
    | inl here ↦ let f = simp here at e in let is : w ≡ v = cc in subst P is a.0
    | inr there ↦ let f = simp there at e in get-All d k v a.1 f
  ]

  pub put-All :
      (d : Dict ℕ V) (k : ℕ) (v : V)
      → All (λ entry. P entry.1) d
      → P v
      → All (λ entry. P entry.1) (put d k v)
  unfolding put
  put-All [] k v a p = (p, tt)
  put-All ((j, w) ∷ d) k v a p = elim (Bool-cases (eqb j k)) [
    | inl here ↦ rw (here, put) (p, a.1)
    | inr there ↦ rw (there, put) (a.0, put-All d k v a.1 p)
  ]

  pub remove-All :
      (d : Dict ℕ V) (k : ℕ) → All (λ entry. P entry.1) d → All (λ entry. P entry.1) (remove d k)
  unfolding remove
  remove-All [] k a = tt
  remove-All ((j, w) ∷ d) k a = elim (Bool-cases (eqb j k)) [
    | inl here ↦ rw (here, remove) a.1
    | inr there ↦ rw (there, remove) (a.0, remove-All d k a.1)
  ]

faded_repeat-IsFrame :
    (pcm : Bytes) (quarters : ℕ)
    → length pcm ≡ frame_pcm_bytes
    → (out : Bytes) × (faded_repeat pcm quarters ≡ some out) × (length out ≡ frame_pcm_bytes)
unfolding faded_repeat
faded_repeat-IsFrame pcm zero f = (silence, refl, length-silence)
faded_repeat-IsFrame pcm (suc q) f =
    let (out, is, same) = length-faded (suc q) pcm (pairs pcm 320 f) in (out, is, same ∙ f)

-- What stands in for a lost frame is a frame.
stand_in-IsFrame :
    (last : Option Bytes) (run : ℕ)
    → IsFrame last
    → (pcm : Bytes) × (stand_in last run ≡ some pcm) × (length pcm ≡ frame_pcm_bytes)
stand_in-IsFrame none run f = (silence, refl, length-silence)
stand_in-IsFrame (some pcm) run f = elim (Bool-cases (gives_up (some pcm) run)) [
  | inl over ↦ rw over (silence, refl, length-silence)
  | inr within ↦ rw within (faded_repeat-IsFrame pcm (4 - run) f)
]

module _ {S : Type 0} where
  -- The same peers and the same codec.
  abbrev Same : VoiceSession S → VoiceSession S → Type 0
  Same s s' = (s'.peers ≡ s.peers) × (s'.codec_name ≡ s.codec_name)

  heard-Same :
      (s : VoiceSession S) (rtt : Option ℕ) (buffer : JitterBuffer) → Same s (heard s rtt buffer)
  heard-Same s none buffer = (refl, refl)
  heard-Same s (some rtt) buffer = (refl, refl)

  count_concealed-Same : (s : VoiceSession S) (over : Bool) → Same s (count_concealed s over)
  count_concealed-Same s true = (refl, refl)
  count_concealed-Same s false = (refl, refl)

module _ {S : Type 0} (sound : SoundLibrary S) (audio : IsAudio sound) where
  -- Of a peer's turn: it returns a frame and leaves the other peers alone.
  abbrev Plays : VoiceSession S → VoiceSession S × Peer S × Result VoiceError Bytes → Type 0
  Plays s (s', peer, r) =
      ((pcm : Bytes) × (r ≡ ok pcm) × (length pcm ≡ frame_pcm_bytes)) × IsMulaw peer × Same s s'

  concealed_by-Plays :
      (s : VoiceSession S) (p : Peer S) → IsMulaw p → Plays s (concealed_by sound s p (ok none))
  unfolding concealed_by
  concealed_by-Plays s p m =
      let (pcm, is, sized) = stand_in-IsFrame p.last_pcm p.concealed_run m.last in
      rw (is, concealed_by)
        ((pcm, refl, sized), m, count_concealed-Same s (gives_up p.last_pcm p.concealed_run))

  play_frame-Plays :
      (s : VoiceSession S) (p : Peer S) (frame : Option Bytes)
      → IsMulaw p
      → ((f : Bytes) → frame ≡ some f → length f ≡ frame_samples)
      → Plays s (play_frame sound s p frame)
  unfolding play_frame decode decoded conceal conceal_frame
  play_frame-Plays s p none m of_frame =
      rw (m.plain, play_frame, conceal_frame)
        (concealed_by-Plays s
          (record p {
            codec = record p.codec { decoder = none };
            concealed_run = p.concealed_run + 1;
          })
          (record {
            plain = refl;
            sized = m.sized;
            valid = m.valid;
            framed = m.framed;
            last = m.last;
          }))
  play_frame-Plays s p (some f) m of_frame =
      let size : length (sound.ulaw2lin f) ≡ frame_pcm_bytes =
        omega (arith, audio.doubles f, of_frame f refl) in
      rw (m.plain, play_frame, decode)
        (
          (sound.ulaw2lin f, refl, size),
          record { plain = refl; sized = m.sized; valid = m.valid; framed = m.framed; last = size },
          heard-Same s s.last_rtt p.buffer,
        )

  play_peer-Plays : (s : VoiceSession S) (p : Peer S) → IsMulaw p → Plays s (play_peer sound s p)
  unfolding play_peer
  play_peer-Plays s p m =
      let (r, c, popped, pops) = pop-PopsTo p.buffer m.valid in
      rw (popped, play_peer)
        (play_frame-Plays s (record p { buffer = c }) r
          (record {
            plain = m.plain;
            sized = m.sized;
            valid = PopsTo-IsValid p.buffer r c m.valid pops;
            framed = PopsTo-Holds HasFrameSize p.buffer r c pops m.framed;
            last = m.last;
          })
          (λ f e.
            let (k, _, there, _, _) =
              pop-in_turn p.buffer f c m.valid (popped ∙ ap (λ (x : Option Bytes). ok (x, c)) e) in
            m.framed k f there))

  -- Of a round over some peers: it returns the sum, and the session stays ready.
  abbrev PlaysAll : VoiceSession S × Result VoiceError (Option Bytes) → Type 0
  PlaysAll (s, r) = ((mixed : Option Bytes) × (r ≡ ok mixed) × IsFrame mixed) × IsReady s

  mix-IsFrame :
      (mixed : Option Bytes) (pcm : Bytes)
      → IsFrame mixed
      → length pcm ≡ frame_pcm_bytes
      → (sum : Bytes) × (mix sound mixed pcm ≡ some sum) × IsFrame (some sum)
  mix-IsFrame none pcm f size = (pcm, refl, size)
  mix-IsFrame (some m) pcm f size =
      let (c, is, same) = audio.adds m pcm frame_samples f size in (c, is, same ∙ f)

  play_all-PlaysAll :
      (s : VoiceSession S) (rest : Dict ℕ (Peer S)) (mixed : Option Bytes)
      → IsReady s
      → All (λ entry. IsMulaw entry.1) rest
      → IsFrame mixed
      → PlaysAll (play_all sound s rest mixed)
  unfolding play_all
  play_all-PlaysAll s [] mixed ready all f = ((mixed, refl, f), ready)
  play_all-PlaysAll s ((id, p) ∷ rest) mixed ready all f =
      let ((pcm, is, size), m, (peers, codec)) = play_peer-Plays s p all.0 in
      let (sum, mixes, fits) = mix-IsFrame mixed pcm f size in
      let s' : VoiceSession S = (play_peer sound s p).0 in
      let p' : Peer S = (play_peer sound s p).1 in
      rw (is, mixes, play_all)
        (play_all-PlaysAll (record s' { peers = put s'.peers id p' }) rest (some sum)
          (record {
            mulaw = codec ∙ ready.mulaw;
            peers =
                put-All IsMulaw s'.peers id p'
                  (subst (All (λ entry. IsMulaw entry.1)) (sym peers) ready.peers) m;
          })
          all.1 fits)

  -- A ready session plays a frame.
  pub play-IsReady :
      (s : VoiceSession S)
      → IsReady s
      → ((pcm : Bytes) × ((play sound s).1 ≡ ok pcm) × (length pcm ≡ frame_pcm_bytes))
        × IsReady (play sound s).0
  unfolding play
  play-IsReady s ready =
      finish (play_all sound s s.peers none) (play_all-PlaysAll s s.peers none ready ready.peers tt)
    where
      finish :
          (out : VoiceSession S × Result VoiceError (Option Bytes))
          → PlaysAll out
          → ((pcm : Bytes) × ((or_silence out).1 ≡ ok pcm) × (length pcm ≡ frame_pcm_bytes))
            × IsReady (or_silence out).0
      finish (s', err e) ((mixed, is, f), ready') = absurd (cc)
      finish (s', ok none) (sum, ready') =
          ((silence, refl, length-silence), record { mulaw = ready'.mulaw; peers = ready'.peers })
      finish (s', ok (some pcm)) ((mixed, is, f), ready') =
          let same : mixed ≡ some pcm = cc in ((pcm, refl, subst IsFrame same f), ready')
