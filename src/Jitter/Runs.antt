-- ===== src/Jitter/Runs.antt =====
-- The jitter buffer over any sequence of calls: one speaker's stream from its first packet on.
pub mod Order
pub mod Genuine
use proxy_net.Prelude.{
  ℕ, zero, suc, ◌+◌, ◌-◌, ◌≤◌, ◌<◌, ◌≡◌, ◌≢◌, refl, ◌⊎◌, inl, inr, List, [], ◌∷◌, Bool, true, false,
  Option, none, some, length, arith, Bool-cases, Option-cases, ◌∙◌, ap, sym, Result, ok, err, ◌>>=◌,
  All,
}
use proxy_net.Bytes.{Bytes}
use proxy_net.Dict.{Dict, get}
use proxy_net.Jitter.{JitterBuffer, JitterError, new, push, pop, reset}
use proxy_net.Jitter.Skip.{NoneBelow}
use proxy_net.Jitter.Slot.{IsValid, Plays}
use proxy_net.Jitter.Pop.{
  PopsTo, pop-PopsTo, pop-PopsTo_at, pop-IsValid, pop-in_turn, PopsTo-IsValid,
}
use proxy_net.Jitter.Push.{push-IsValid, reset-IsValid, push-PushesTo, PushesTo, push-Reports}

-- The calls that a session makes.
pub data Call : Type 0 where
  pushes : ℕ → Bytes → Call
  pops resets : Call

-- The frames returned, each with the number of its slot.
abbrev pub note : Option Bytes → JitterBuffer → List (ℕ × Bytes) → List (ℕ × Bytes)
note none c heard = heard
note (some f) c heard = (c.next - 1, f) ∷ heard

unfoldable pub run : List Call → JitterBuffer → Result JitterError (List (ℕ × Bytes) × JitterBuffer)
run [] b = ok ([], b)
run (pushes s p ∷ calls) b = run calls (push b s p).0
run (resets ∷ calls) b = run calls (reset b)
run (pops ∷ calls) b = do out ← pop b; rest ← run calls out.1; ok (note out.0 out.1 rest.0, rest.1)

-- A buffer that was reset plays nothing until it fills anew.
reset-silent : (b : JitterBuffer) → IsValid b → pop (reset b) ≡ ok (none, reset b)
unfolding pop reset proxy_net.Jitter.depth_frames
reset-silent b v = ground (arith, v.some_target)

-- Whatever packets arrive in whatever order, and however often the buffer is reset, no call on a
-- valid buffer raises, and the buffer stays valid; and once it is reset then, a pop returns nothing
-- and changes nothing.
pub run-IsValid :
    (calls : List Call) (b : JitterBuffer)
    → IsValid b
    → (heard : List (ℕ × Bytes)) × (d : JitterBuffer) × (run calls b ≡ ok (heard, d))
      × IsValid d
      × (pop (reset d) ≡ ok (none, reset d))
unfolding run
run-IsValid [] b v = ([], b, refl, v, reset-silent b v)
run-IsValid (pushes s p ∷ calls) b v = run-IsValid calls (push b s p).0 (push-IsValid b s p v)
run-IsValid (resets ∷ calls) b v = run-IsValid calls (reset b) (reset-IsValid b v)
run-IsValid (pops ∷ calls) b v =
    let (r, c, e, w) = pop-IsValid b v in
    let (heard, d, e', x, silent) = run-IsValid calls c w in
    (note r c heard, d, rw (e, e') refl, x, silent)

-- The rest of a run that begins with `pop`, from its result.
pub after_pop :
    (calls : List Call) (b : JitterBuffer) (heard : List (ℕ × Bytes)) (d : JitterBuffer)
    → IsValid b
    → run (pops ∷ calls) b ≡ ok (heard, d)
    → (r : Option Bytes) × (c : JitterBuffer) × (later : List (ℕ × Bytes)) × (pop b ≡ ok (r, c))
      × PopsTo b r c
      × IsValid c
      × (run calls c ≡ ok (later, d))
      × (heard ≡ note r c later)
unfolding run
after_pop calls b heard d v e =
    let (r, c, p, h) = pop-PopsTo b v in
    let w = PopsTo-IsValid b r c v h in
    let (later, d', q, _, _) = run-IsValid calls c w in
    let whole : run (pops ∷ calls) b ≡ ok (note r c later, d') = rw (p, q) refl in
    let same : ◌≡◌ {A = Result JitterError (List (ℕ × Bytes) × JitterBuffer)}
        (ok (note r c later, d')) (ok (heard, d)) =
      sym whole ∙ e in
    let same_d : d' ≡ d = cc in
    let same_heard : heard ≡ note r c later = cc in
    (r, c, later, p, h, w, rw (← same_d) q, same_heard)
