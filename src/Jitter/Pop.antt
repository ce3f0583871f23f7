-- ===== src/Jitter/Pop.antt =====
-- `pop` of core/voice_jitter.py: it never raises, plays in order and accounts for every frame.
use proxy_net.Prelude.{
  ℕ, ◌+◌, ◌≤◌, ◌<◌, ◌≡◌, refl, ◌⊎◌, inl, inr, true, false, Option, none, some, ltb, leb, length,
  arith, Bool-cases, ◌↔◌, nat_eq, ok,
}
use proxy_net.Bytes.{Bytes}
use proxy_net.Dict.{get}
use proxy_net.Jitter.{JitterBuffer, begin, pop}
use proxy_net.Jitter.Slot.{got, IsValid, Plays, DropRate, play-Plays, begin-IsAhead}

-- What a call of `pop` on `b` may do: stop on an empty buffer, wait for the target, or play a slot.
abbrev pub PopsTo : JitterBuffer → Option Bytes → JitterBuffer → Type 0
PopsTo b r c =
    ((b.playing ≡ true)
      × (length b.frames ≡ 0)
      × (r ≡ none)
      × (c ≡ record b { underrun = b.underrun + 1; playing = false }))
    ⊎ ((b.playing ≡ false) × (length b.frames < b.target_frames) × (r ≡ none) × (c ≡ b))
    ⊎ ((b.playing ≡ true) × (0 < length b.frames) × Plays b r c)
    ⊎ ((b.playing ≡ false) × (b.target_frames ≤ length b.frames) × Plays (begin b) r c)

pub pop-PopsTo :
    (b : JitterBuffer)
    → IsValid b
    → (r : Option Bytes) × (c : JitterBuffer) × (pop b ≡ ok (r, c)) × PopsTo b r c
unfolding pop
pop-PopsTo b v = elim (Bool-cases b.playing) [
  | inl p ↦ elim (Bool-cases (leb (length b.frames) 0)) [
    | inl empty ↦ (
      none,
      record b { underrun = b.underrun + 1; playing = false },
      simp (p, empty),
      inl (p, ground arith, refl, refl),
    )
    | inr some' ↦
        let (r, c, e, h) =
          play-Plays b (record { distinct = v.distinct; none_below = v.ahead p }) in
        (r, c, simp (p, some') e, inr (inr (inl (p, ground arith, h))))
  ]
  | inr q ↦ elim (Bool-cases (ltb (length b.frames) b.target_frames)) [
    | inl short ↦ (none, b, simp (q, short), inr (inl (q, ground arith, refl, refl)))
    | inr full ↦
        let (r, c, e, h) = play-Plays (begin b) (begin-IsAhead b v.distinct) in
        (r, c, simp (q, full) e, inr (inr (inr (q, ground arith, h))))
  ]
]

-- Any property of the outcomes holds of the outcome at hand.
pub pop-PopsTo_at :
    (b : JitterBuffer) (r : Option Bytes) (c : JitterBuffer)
    → IsValid b
    → pop b ≡ ok (r, c)
    → PopsTo b r c
pop-PopsTo_at b r c v e =
    let (r', c', e', h) = pop-PopsTo b v in
    let same_r : r' ≡ r = cc in let same_c : c' ≡ c = cc in rw (← same_r, ← same_c) h

DropRate-grows : (o : Option ℕ) (b c : JitterBuffer) → DropRate o b c → b.dropped ≤ c.dropped
DropRate-grows none b c h = omega arith
DropRate-grows (some i) b c h = omega arith

Plays-IsValid :
    (b c : JitterBuffer) (r : Option Bytes)
    → length b.frames ≤ b.capacity
    → 1 ≤ b.capacity
    → 1 ≤ b.target_frames
    → Plays b r c
    → IsValid c
Plays-IsValid b c r le cap target h = record {
  distinct = h.ahead.distinct;
  bounded =
      omega (arith, h.account, h.same_capacity, DropRate-grows b.catchup_interval b c h.drop_rate);
  some_capacity = omega (arith, h.same_capacity);
  some_target = omega (arith, h.same_target);
  ahead = λ p. h.ahead.none_below;
}

pub PopsTo-IsValid :
    (b : JitterBuffer) (r : Option Bytes) (c : JitterBuffer) → IsValid b → PopsTo b r c → IsValid c
unfolding begin
PopsTo-IsValid b r c v (inl (p, empty, _, e)) = rw e (record {
  distinct = v.distinct;
  bounded = v.bounded;
  some_capacity = v.some_capacity;
  some_target = v.some_target;
  ahead = λ q. cc;
})
PopsTo-IsValid b r c v (inr (inl (_, _, _, e))) = rw e v
PopsTo-IsValid b r c v (inr (inr (inl (_, _, h)))) =
    Plays-IsValid b c r v.bounded v.some_capacity v.some_target h
PopsTo-IsValid b r c v (inr (inr (inr (_, _, h)))) =
    Plays-IsValid (begin b) c r v.bounded v.some_capacity v.some_target h

-- From a valid buffer `pop` always returns, also where it catches up and deletes a frame, and
-- leaves a valid buffer: within the capacity, no number twice, no frame whose turn has passed.
pub pop-IsValid :
    (b : JitterBuffer)
    → IsValid b
    → (r : Option Bytes) × (c : JitterBuffer) × (pop b ≡ ok (r, c)) × IsValid c
pop-IsValid b v = let (r, c, e, h) = pop-PopsTo b v in (r, c, e, PopsTo-IsValid b r c v h)

-- `pop` loses no frame unseen: each frame that leaves the buffer is the one returned or is counted
-- in `dropped`.
pop-account :
    (b : JitterBuffer) (r : Option Bytes) (c : JitterBuffer)
    → IsValid b
    → pop b ≡ ok (r, c)
    → length c.frames + c.dropped + got r ≡ length b.frames + b.dropped
unfolding begin
pop-account b r c v e = elim (pop-PopsTo_at b r c v e) [
  | inl (_, _, n, e') ↦ rw (n, e') (omega arith)
  | inr (inl (_, _, n, e')) ↦ rw (n, e') (omega arith)
  | inr (inr (inl (_, _, h))) ↦ h.account
  | inr (inr (inr (_, _, h))) ↦ h.account
]

-- A frame that `pop` returns was buffered under the number just below the new `next`; if the
-- buffer was already playing, its turn had not passed. What stays behind comes later, unchanged.
pub pop-in_turn :
    (b : JitterBuffer) (f : Bytes) (c : JitterBuffer)
    → IsValid b
    → pop b ≡ ok (some f, c)
    → (k : ℕ) × (c.next ≡ k + 1)
      × (get b.frames k ≡ some f)
      × (b.playing ≡ true → b.next ≤ k)
      × ((j : ℕ) (v : Bytes) → (get c.frames j ≡ some v) ↔ ((get b.frames j ≡ some v) × (k < j)))
unfolding begin
pop-in_turn b f c v e = elim (pop-PopsTo_at b (some f) c v e) [
  | inl (_, _, n, _) ↦ cc
  | inr (inl (_, _, n, _)) ↦ cc
  | inr (inr (inl (_, _, h))) ↦ turn b h (λ _. omega arith)
  | inr (inr (inr (q, _, h))) ↦ turn (begin b) h (λ p. cc)
]
  where
    turn :
        (a : JitterBuffer)
        → Plays a (some f) c
        → ((b.playing ≡ true) → b.next ≤ a.next)
        → (k : ℕ) × (c.next ≡ k + 1)
          × (get a.frames k ≡ some f)
          × (b.playing ≡ true → b.next ≤ k)
          × ((j : ℕ) (w : Bytes)
              → (get c.frames j ≡ some w) ↔ ((get a.frames j ≡ some w) × (k < j)))
    turn a h from =
        let (k, at, there, le) = h.in_turn f refl in
        (
          k,
          at,
          there,
          λ p. omega (arith, from p, le),
          λ j w. (
            λ g. (h.subset j w g, omega (arith, h.ahead.none_below j w g, at)),
            λ g. h.keeps j w (omega (arith, g.1, at)) g.0,
          ),
        )

-- While the buffer plays and holds a frame, `next` moves by one, by one for each slot skipped and
-- by one for the frame dropped; `lost` grows by one exactly if silence is returned; and a frame is
-- dropped at most once every `catchup_interval` slots, never where that is None.
pub pop-slots :
    (b : JitterBuffer) (r : Option Bytes) (c : JitterBuffer)
    → IsValid b
    → b.playing ≡ true
    → 0 < length b.frames
    → pop b ≡ ok (r, c)
    → (c.next + b.skipped + b.dropped ≡ b.next + c.skipped + c.dropped + 1)
      × (c.lost + got r ≡ b.lost + 1)
      × DropRate b.catchup_interval b c
pop-slots b r c v p some' e = elim (pop-PopsTo_at b r c v e) [
  | inl (_, z, _, _) ↦ absurd (omega arith)
  | inr (inl (q, _, _, _)) ↦ cc
  | inr (inr (inl (_, _, h))) ↦ (h.slots, h.heard, h.drop_rate)
  | inr (inr (inr (q, _, _))) ↦ cc
]
