-- ===== src/Jitter/Runs/Order.antt =====
-- The order in which the jitter buffer of core/voice_jitter.py returns frames.
use proxy_net.Prelude.{
  ℕ, ◌+◌, ◌≤◌, ◌≡◌, refl, ◌⊎◌, inl, inr, List, [], ◌∷◌, true, Option, none, some, arith, ◌∙◌, ap,
  ok,
}
use proxy_net.Bytes.{Bytes}
use proxy_net.Jitter.{JitterBuffer, JitterError, new, push, pop, reset}
use proxy_net.Jitter.Slot.{IsValid, Plays}
use proxy_net.Jitter.Pop.{PopsTo}
use proxy_net.Jitter.Push.{push-IsValid, reset-IsValid}
use proxy_net.Jitter.Runs.{Call, pushes, pops, resets, run, note, after_pop}

-- Neither counter of a restarted stream falls.
abbrev pub Counts : (b c : JitterBuffer) → Type 0
Counts b c = (b.underrun ≤ c.underrun) × (b.resync ≤ c.resync)

push-Counts : (b : JitterBuffer) (s : ℕ) (p : Bytes) → Counts b (push b s p).0
unfolding push proxy_net.Jitter.restart
push-Counts b s p = ground arith

reset-Counts : (b : JitterBuffer) → Counts b (reset b)
unfolding reset
reset-Counts b = omega arith

PopsTo-Counts : (b : JitterBuffer) (r : Option Bytes) (c : JitterBuffer) → PopsTo b r c → Counts b c
unfolding proxy_net.Jitter.begin
PopsTo-Counts b r c (inl (_, _, _, e)) = rw e (omega arith)
PopsTo-Counts b r c (inr (inl (_, _, _, e))) = rw e (omega arith)
PopsTo-Counts b r c (inr (inr (inl (_, _, h)))) = omega (arith, h.same_underrun, h.same_resync)
PopsTo-Counts b r c (inr (inr (inr (_, _, h)))) = omega (arith, h.same_underrun, h.same_resync)

run-Counts :
    (calls : List Call) (b : JitterBuffer) (heard : List (ℕ × Bytes)) (d : JitterBuffer)
    → IsValid b
    → run calls b ≡ ok (heard, d)
    → Counts b d
unfolding run
run-Counts [] b heard d v e = let same : b ≡ d = cc in rw same (omega arith)
run-Counts (pushes s p ∷ calls) b heard d v e =
    omega
      (arith, push-Counts b s p, run-Counts calls (push b s p).0 heard d (push-IsValid b s p v) e)
run-Counts (resets ∷ calls) b heard d v e =
    omega (arith, reset-Counts b, run-Counts calls (reset b) heard d (reset-IsValid b v) e)
run-Counts (pops ∷ calls) b heard d v e =
    let (r, c, later, _, h, w, q, _) = after_pop calls b heard d v e in
    omega (arith, PopsTo-Counts b r c h, run-Counts calls c later d w q)

-- Slot numbers that grow strictly, from `n` on.
abbrev pub Ascending : ℕ → List (ℕ × Bytes) → Type 0
Ascending n [] = Unit
Ascending n ((k, f) ∷ heard) = (n ≤ k) × Ascending (k + 1) heard

Ascending-mono :
    {m n : ℕ} (heard : List (ℕ × Bytes)) → m ≤ n → Ascending n heard → Ascending m heard
Ascending-mono [] le h = tt
Ascending-mono ((k, f) ∷ heard) le h = (omega arith, h.1)

-- A push leaves a stream that plays as it is, or restarts it.
push_playing :
    (b : JitterBuffer) (s : ℕ) (p : Bytes)
    → b.playing ≡ true
    → ((push b s p).0.resync ≡ b.resync + 1)
      ⊎ (((push b s p).0.playing ≡ true) × ((push b s p).0.next ≡ b.next))
unfolding push proxy_net.Jitter.restart
push_playing b s p h = ground arith

heard-Ascending :
    (r : Option Bytes) (b c : JitterBuffer) (later : List (ℕ × Bytes))
    → Plays b r c
    → Ascending c.next later
    → Ascending b.next (note r c later)
heard-Ascending none b c later h asc =
    Ascending-mono later (omega (arith, h.slots, h.skipped_grows, h.next_grows)) asc
heard-Ascending (some f) b c later h asc =
    let (k, at, _, le) = h.in_turn f refl in (omega arith, Ascending-mono later (omega arith) asc)

-- One pop of a stream that plays: the slots heard go on from `next`, unless the buffer drains.
pop_step :
    (b c : JitterBuffer) (r : Option Bytes) (later : List (ℕ × Bytes))
    → b.playing ≡ true
    → c.underrun ≡ b.underrun
    → (c.playing ≡ true → Ascending c.next later)
    → PopsTo b r c
    → Ascending b.next (note r c later)
pop_step b c r later p same asc (inl (_, _, _, e)) =
    absurd (let drained = ap (λ (x : JitterBuffer). x.underrun) e in omega arith)
pop_step b c r later p same asc (inr (inl (q, _, _, _))) = cc
pop_step b c r later p same asc (inr (inr (inl (_, _, h)))) =
    heard-Ascending r b c later h (asc (h.same_playing ∙ p))
pop_step b c r later p same asc (inr (inr (inr (q, _, _)))) = cc

-- No call of the run is a reset.
abbrev pub WithoutReset : List Call → Type 0
WithoutReset [] = Unit
WithoutReset (pushes s p ∷ calls) = WithoutReset calls
WithoutReset (pops ∷ calls) = WithoutReset calls
WithoutReset (resets ∷ calls) = ⊥

-- As long as a playing stream is neither drained, rebuilt nor reset, the frames that it returns
-- carry strictly growing numbers, from `next` on: nothing is played twice or out of order.
pub run-Ascending :
    (calls : List Call) (b : JitterBuffer) (heard : List (ℕ × Bytes)) (d : JitterBuffer)
    → IsValid b
    → b.playing ≡ true
    → WithoutReset calls
    → run calls b ≡ ok (heard, d)
    → d.underrun ≡ b.underrun
    → d.resync ≡ b.resync
    → Ascending b.next heard
unfolding run
run-Ascending [] b heard d v p n e su sr = let nil : heard ≡ [] = cc in rw nil tt
run-Ascending (pushes s x ∷ calls) b heard d v p n e su sr =
    let w = push-IsValid b s x v in
    let before = push-Counts b s x in
    let behind = run-Counts calls (push b s x).0 heard d w e in
    elim (push_playing b s x p) [
      | inl rebuilt ↦ absurd (omega arith)
      | inr (p', same_next) ↦
          rw (← same_next)
            (run-Ascending calls (push b s x).0 heard d w p' n e (omega arith) (omega arith))
    ]
run-Ascending (resets ∷ calls) b heard d v p n e su sr = absurd n
run-Ascending (pops ∷ calls) b heard d v p n e su sr =
    let (r, c, later, _, h, w, q, out) = after_pop calls b heard d v e in
    let before = PopsTo-Counts b r c h in
    let behind = run-Counts calls c later d w q in
    rw out (
      pop_step b c r later p (omega arith)
        (λ p'. run-Ascending calls c later d w p' n q (omega arith) (omega arith)) h)
