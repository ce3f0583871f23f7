-- ===== src/Jitter/Push.antt =====
-- `push` of core/voice_jitter.py, on every branch.
use proxy_net.Prelude.{
  ℕ, ◌+◌, ◌≤◌, ◌<◌, ◌≡◌, ◌≢◌, refl, ◌⊎◌, inl, inr, [], ◌∷◌, Bool, true, false, ◌&&◌, Option, none,
  some, ltb, leb, length, arith, Bool-cases, Option-cases, eqb_iff, nat_eq, ok,
}
use proxy_net.Bytes.{Bytes}
use proxy_net.Dict.{Dict, get, put, contains}
use proxy_net.Dict.Laws.{contains-get-some, get-put, put-Distinct, length-put}
use proxy_net.Jitter.{JitterBuffer, new, push, restart, reset, is_far}
use proxy_net.Jitter.Slot.{IsValid}

-- What a call of `push` on `b` may do: rebuild from a number too far away; refuse a frame whose
-- turn has passed, one that is there already, or one past the capacity; or store it.
abbrev pub PushesTo : JitterBuffer → ℕ → Bytes → JitterBuffer × Bool → Type 0
PushesTo b sequence payload (c, accepted) =
    ((b.playing && is_far b sequence ≡ true) × (accepted ≡ true) × (c ≡ restart b sequence payload))
    ⊎ ((b.playing ≡ true)
        × (sequence < b.next)
        × (accepted ≡ false)
        × (c ≡ record b { late = b.late + 1 }))
    ⊎ ((contains b.frames sequence ≡ true)
        × (accepted ≡ false)
        × (c ≡ record b { duplicate = b.duplicate + 1 }))
    ⊎ ((b.capacity ≤ length b.frames)
        × (accepted ≡ false)
        × (c ≡ record b { overflow = b.overflow + 1 }))
    ⊎ ((b.playing ≡ true → b.next ≤ sequence)
        × (contains b.frames sequence ≡ false)
        × (length b.frames < b.capacity)
        × (accepted ≡ true)
        × (c ≡ record b { frames = put b.frames sequence payload }))

pub push-PushesTo :
    (b : JitterBuffer) (sequence : ℕ) (payload : Bytes)
    → PushesTo b sequence payload (push b sequence payload)
unfolding push
push-PushesTo b s p = elim (Bool-cases (b.playing && is_far b s)) [
  | inl far ↦ simp far (inl (refl, refl, refl))
  | inr near ↦ simp near (elim (Bool-cases (b.playing && ltb s b.next)) [
    | inl late ↦ simp late (inr (inl (ground arith, ground arith, refl, refl)))
    | inr timely ↦ simp timely (elim (Bool-cases (contains b.frames s)) [
      | inl there ↦ simp there (inr (inr (inl (refl, refl, refl))))
      | inr new' ↦ simp new' (elim (Bool-cases (leb b.capacity (length b.frames))) [
        | inl full ↦ simp full (inr (inr (inr (inl (ground arith, refl, refl)))))
        | inr room ↦
            simp room (inr (inr (inr (inr (λ q. ground arith, refl, ground arith, refl, refl)))))
      ])
    ])
  ])
]

-- The counters of refused frames.
abbrev pub refused : JitterBuffer → ℕ
refused b = b.late + b.duplicate + b.overflow

PushesTo-IsValid :
    (b c : JitterBuffer) (s : ℕ) (p : Bytes) (accepted : Bool)
    → IsValid b
    → PushesTo b s p (c, accepted)
    → IsValid c
unfolding restart get
PushesTo-IsValid b c s p a v (inl (_, _, e)) = rw e (record {
  distinct = (refl, tt);
  bounded = v.some_capacity;
  some_capacity = v.some_capacity;
  some_target = v.some_target;
  ahead = λ q. cc;
})
PushesTo-IsValid b c s p a v (inr (inl (_, _, _, e))) = rw e (record {
  distinct = v.distinct;
  bounded = v.bounded;
  some_capacity = v.some_capacity;
  some_target = v.some_target;
  ahead = v.ahead;
})
PushesTo-IsValid b c s p a v (inr (inr (inl (_, _, e)))) = rw e (record {
  distinct = v.distinct;
  bounded = v.bounded;
  some_capacity = v.some_capacity;
  some_target = v.some_target;
  ahead = v.ahead;
})
PushesTo-IsValid b c s p a v (inr (inr (inr (inl (_, _, e))))) = rw e (record {
  distinct = v.distinct;
  bounded = v.bounded;
  some_capacity = v.some_capacity;
  some_target = v.some_target;
  ahead = v.ahead;
})
PushesTo-IsValid b c s p a v (inr (inr (inr (inr (timely, fresh, room, _, e))))) = rw e (record {
  distinct = put-Distinct b.frames s p v.distinct;
  bounded = ground (arith, length-put b.frames s p);
  some_capacity = v.some_capacity;
  some_target = v.some_target;
  ahead = λ q k w g. ground (arith, get-put b.frames s k p, v.ahead q k w, timely q, eqb_iff s k);
})

pub push-IsValid : (b : JitterBuffer) (s : ℕ) (p : Bytes) → IsValid b → IsValid (push b s p).0
push-IsValid b s p v = PushesTo-IsValid b (push b s p).0 s p (push b s p).1 v (push-PushesTo b s p)

-- What a push says about the stored frames: accepted, the frame stands under its number; unless
-- the stream was rebuilt, it is new, its turn has not passed, and the others stay. Refused, no
-- frame changes and exactly one of the three counters grows, by one.
abbrev pub Reports : JitterBuffer → ℕ → Bytes → JitterBuffer → Bool → Type 0
Reports b s p c true =
    (get c.frames s ≡ some p)
    × (((b.playing ≡ true)
          × (c.playing ≡ false)
          × (c.resync ≡ b.resync + 1)
          × (c.frames ≡ (s, p) ∷ []))
        ⊎ ((get b.frames s ≡ none)
            × (b.playing ≡ true → b.next ≤ s)
            × (length c.frames ≡ length b.frames + 1)
            × ((j : ℕ) → s ≢ j → get c.frames j ≡ get b.frames j)
            × (refused c ≡ refused b)))
Reports b s p c false = (c.frames ≡ b.frames) × (refused c ≡ refused b + 1)

missing : (d : Dict ℕ Bytes) (k : ℕ) → contains d k ≡ false → get d k ≡ none
missing d k h = elim (Option-cases (get d k)) [
  | inl e ↦ e
  | inr (v, e) ↦ cc (contains-get-some d k v e)
]

get_only : (s : ℕ) (p : Bytes) → get ((s, p) ∷ []) s ≡ some p
unfolding get
get_only s p = ground arith

-- On every branch `push` reports truly what became of the frame.
pub push-Reports :
    (b : JitterBuffer) (s : ℕ) (p : Bytes) → Reports b s p (push b s p).0 (push b s p).1
unfolding restart
push-Reports b s p = reports (push b s p).0 (push b s p).1 (push-PushesTo b s p)
  where
    reports :
        (c : JitterBuffer) (accepted : Bool)
        → PushesTo b s p (c, accepted)
        → Reports b s p c accepted
    reports c true (inl (far, _, e)) = rw e (get_only s p, inl (ground arith, refl, refl, refl))
    reports c true (inr (inl (_, _, x, _))) = cc
    reports c true (inr (inr (inl (_, x, _)))) = cc
    reports c true (inr (inr (inr (inl (_, x, _))))) = cc
    reports c true (inr (inr (inr (inr (timely, fresh, room, _, e))))) = rw e (
      ground (arith, get-put b.frames s s p, eqb_iff s s),
      inr (
        missing b.frames s fresh,
        timely,
        ground (arith, length-put b.frames s p),
        λ j ne. ground (arith, get-put b.frames s j p, eqb_iff s j),
        refl,
      ),
    )
    reports c false (inl (_, x, _)) = cc
    reports c false (inr (inl (_, _, _, e))) = rw e (refl, omega arith)
    reports c false (inr (inr (inl (_, _, e)))) = rw e (refl, omega arith)
    reports c false (inr (inr (inr (inl (_, _, e))))) = rw e (refl, omega arith)
    reports c false (inr (inr (inr (inr (_, _, _, x, _))))) = cc

-- A buffer that the constructor accepts is valid, and so is one that is reset.
pub new-IsValid :
    (target frame capacity slack : ℕ) (interval : Option ℕ) (b : JitterBuffer)
    → new target frame capacity slack interval ≡ ok b
    → IsValid b
unfolding new get
new-IsValid target frame capacity slack interval b e = record {
  distinct = ground arith;
  bounded = ground arith;
  some_capacity = ground arith;
  some_target = ground arith;
  ahead = ground arith;
}

pub reset-IsValid : (b : JitterBuffer) → IsValid b → IsValid (reset b)
unfolding reset
reset-IsValid b v = record {
  distinct = tt;
  bounded = omega arith;
  some_capacity = v.some_capacity;
  some_target = v.some_target;
  ahead = λ p. cc;
}
