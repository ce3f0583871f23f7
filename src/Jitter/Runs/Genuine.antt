-- ===== src/Jitter/Runs/Genuine.antt =====
-- What the jitter buffer of core/voice_jitter.py returns was put in, under its own number.
use proxy_net.Prelude.{
  ℕ, ◌-◌, ◌≡◌, inl, inr, List, [], ◌∷◌, Bool, true, false, Option, none, some, arith, Bool-cases,
  ◌∙◌, ap, sym, ok, eqb, eqb_iff, nat_eq, All,
}
use mathlib.Core.Path.{subst, subst₂}
use proxy_net.Bytes.{Bytes}
use proxy_net.Dict.{get}
use proxy_net.Jitter.{JitterBuffer, JitterError, new, push, pop, reset}
use proxy_net.Jitter.Slot.{IsValid}
use proxy_net.Jitter.Pop.{PopsTo, pop-in_turn}
use proxy_net.Jitter.Push.{push-IsValid, reset-IsValid, push-Reports, Reports}
use proxy_net.Jitter.Runs.{Call, pushes, pops, resets, run, note, after_pop}

alone : (s k : ℕ) (p v : Bytes) → eqb s k ≡ false → get ((s, p) ∷ []) k ≡ some v → true ≡ false
unfolding get
alone s k p v e g = ground arith

module _ (P : ℕ → Bytes → Type 0) where
  -- Every frame in the buffer has the property.
  abbrev pub Holds : JitterBuffer → Type 0
  Holds b = (k : ℕ) (v : Bytes) → get b.frames k ≡ some v → P k v

  -- Every packet that arrives has it.
  abbrev pub Arrives : List Call → Type 0
  Arrives [] = Unit
  Arrives (pushes s p ∷ calls) = P s p × Arrives calls
  Arrives (resets ∷ calls) = Arrives calls
  Arrives (pops ∷ calls) = Arrives calls

  at_number :
      (s k : ℕ) (p v : Bytes) (c : JitterBuffer)
      → P s p
      → get c.frames s ≡ some p
      → get c.frames k ≡ some v
      → s ≡ k
      → P k v
  at_number s k p v c x at g e =
      let whole : some p ≡ some v = sym at ∙ ap (get c.frames) e ∙ g in
      let same : p ≡ v = cc in subst₂ P e same x

  pub push-Holds :
      (b c : JitterBuffer) (s : ℕ) (p : Bytes) (accepted : Bool)
      → P s p
      → Holds b
      → Reports b s p c accepted
      → Holds c
  push-Holds b c s p true x h (at, rest) k v g = elim (Bool-cases (eqb s k)) [
    | inl same ↦ at_number s k p v c x at g ((eqb_iff s k).0 same)
    | inr other ↦ elim rest [
      | inl (_, _, _, only) ↦ cc (alone s k p v other (rw only at g))
      | inr (_, _, _, others, _) ↦ h k v (sym (others k (λ e. cc ((eqb_iff s k).1 e))) ∙ g)
    ]
  ]
  push-Holds b c s p false x h (e, _) k v g = h k v (rw e at g)

  reset-Holds : (b : JitterBuffer) → Holds (reset b)
  unfolding reset get
  reset-Holds b k v e = absurd (cc)

  pub PopsTo-Holds :
      (b : JitterBuffer) (r : Option Bytes) (c : JitterBuffer) → PopsTo b r c → Holds b → Holds c
  unfolding proxy_net.Jitter.begin
  PopsTo-Holds b r c (inl (_, _, _, e)) h = rw e h
  PopsTo-Holds b r c (inr (inl (_, _, _, e))) h = rw e h
  PopsTo-Holds b r c (inr (inr (inl (_, _, p)))) h = λ k v g. h k v (p.subset k v g)
  PopsTo-Holds b r c (inr (inr (inr (_, _, p)))) h = λ k v g. h k v (p.subset k v g)

  note-All :
      (b : JitterBuffer) (r : Option Bytes) (c : JitterBuffer) (later : List (ℕ × Bytes))
      → IsValid b
      → pop b ≡ ok (r, c)
      → Holds b
      → All (λ heard. P heard.0 heard.1) later
      → All (λ heard. P heard.0 heard.1) (note r c later)
  note-All b none c later v e h all = all
  note-All b (some f) c later v e h all =
      let (k, at, there, _, _) = pop-in_turn b f c v e in
      let number : k ≡ c.next - 1 = omega arith in (subst (λ n. P n f) number (h k f there), all)

  -- Any property of numbered frames that the buffer's frames and all arriving packets have, the
  -- returned frames have too, each under the number of the slot in which it is returned: `pop`
  -- makes no frame up, alters none and moves none to another slot.
  pub run-genuine :
      (calls : List Call) (b : JitterBuffer) (heard : List (ℕ × Bytes)) (d : JitterBuffer)
      → IsValid b
      → Holds b
      → Arrives calls
      → run calls b ≡ ok (heard, d)
      → All (λ frame. P frame.0 frame.1) heard
  unfolding run
  run-genuine [] b heard d v h x e = let nil : heard ≡ [] = cc in rw nil tt
  run-genuine (pushes s p ∷ calls) b heard d v h x e =
      run-genuine calls (push b s p).0 heard d (push-IsValid b s p v)
        (push-Holds b (push b s p).0 s p (push b s p).1 x.0 h (push-Reports b s p)) x.1 e
  run-genuine (resets ∷ calls) b heard d v h x e =
      run-genuine calls (reset b) heard d (reset-IsValid b v) (reset-Holds b) x e
  run-genuine (pops ∷ calls) b heard d v h x e =
      let (r, c, later, q, outcome, w, rest, out) = after_pop calls b heard d v e in
      rw out (
        note-All b r c later v q h
          (run-genuine calls c later d w (PopsTo-Holds b r c outcome h) x rest))
