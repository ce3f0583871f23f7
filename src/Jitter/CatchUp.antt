-- ===== src/Jitter/CatchUp.antt =====
-- Catching up in core/voice_jitter.py: frames are accounted for, and no key is ever missing.
use proxy_net.Prelude.{
  ℕ, ◌+◌, ◌-◌, ◌≤◌, ◌≡◌, refl, ◌⊎◌, inl, inr, Bool, true, false, Option, none, some, if◌then◌else◌,
  length, arith, Bool-cases, eqb_iff, nat_eq, ◌∙◌, ap, Result, ok, err,
}
use proxy_net.Bytes.{Bytes}
use proxy_net.Dict.{get, contains, remove}
use proxy_net.Dict.Laws.{Distinct, get-remove, remove-Distinct, length-remove}
use proxy_net.Jitter.{
  JitterBuffer, JitterError, skip_missing_head, drop_head, melt, catch_up, catch_up_every,
  catch_up_if, must_drop, judge, depth_frames,
}
use proxy_net.Jitter.Skip.{NoneBelow, Skips, skip_missing_head-Skips, skip_by}

-- The frames of a buffer that plays: no number twice, none whose turn has passed.
pub record IsAhead (b : JitterBuffer) : Type 0 where
  pub distinct : Distinct b.frames
  pub none_below : NoneBelow b.next b.frames

-- Playback moves on from `b` to `c`: every slot that `next` passes is skipped or dropped, every
-- frame that goes is dropped, and no other frame changes.
pub record Moves (b c : JitterBuffer) : Type 0 where
  pub ahead : IsAhead c
  pub slots : c.next + b.skipped + b.dropped ≡ b.next + c.skipped + c.dropped
  pub account : length c.frames + c.dropped ≡ length b.frames + b.dropped
  pub subset : (k : ℕ) (v : Bytes) → get c.frames k ≡ some v → get b.frames k ≡ some v
  pub keeps : (k : ℕ) (v : Bytes) → c.next ≤ k → get b.frames k ≡ some v → get c.frames k ≡ some v
  pub next_grows : b.next ≤ c.next
  pub skipped_grows : b.skipped ≤ c.skipped
  pub same_playing : c.playing ≡ b.playing
  pub same_target : c.target_frames ≡ b.target_frames
  pub same_capacity : c.capacity ≡ b.capacity
  pub same_lost : c.lost ≡ b.lost
  pub same_interval : c.catchup_interval ≡ b.catchup_interval
  pub dropped_grows : b.dropped ≤ c.dropped
  pub same_underrun : c.underrun ≡ b.underrun
  pub same_resync : c.resync ≡ b.resync

Moves-trans : {b c d : JitterBuffer} → Moves b c → Moves c d → Moves b d
Moves-trans m n = record {
  ahead = n.ahead;
  slots = omega (arith, m.slots, n.slots);
  account = omega (arith, m.account, n.account);
  subset = λ k v h. m.subset k v (n.subset k v h);
  keeps = λ k v le h. n.keeps k v le (m.keeps k v (omega (arith, n.next_grows)) h);
  next_grows = omega (arith, m.next_grows, n.next_grows);
  skipped_grows = omega (arith, m.skipped_grows, n.skipped_grows);
  same_playing = n.same_playing ∙ m.same_playing;
  same_target = n.same_target ∙ m.same_target;
  same_capacity = n.same_capacity ∙ m.same_capacity;
  same_lost = n.same_lost ∙ m.same_lost;
  same_interval = n.same_interval ∙ m.same_interval;
  same_underrun = n.same_underrun ∙ m.same_underrun;
  same_resync = n.same_resync ∙ m.same_resync;
  dropped_grows = omega (arith, m.dropped_grows, n.dropped_grows);
}

-- The loop, from the record that its lemma gives.
skip_by-Moves :
    (b : JitterBuffer) (n : ℕ) → IsAhead b → NoneBelow (b.next + n) b.frames → Moves b (skip_by b n)
skip_by-Moves b n a h = record {
  ahead = record { distinct = a.distinct; none_below = h };
  slots = omega arith;
  account = omega arith;
  subset = λ k v g. g;
  keeps = λ k v le g. g;
  next_grows = omega arith;
  skipped_grows = omega arith;
  same_playing = refl;
  same_target = refl;
  same_capacity = refl;
  same_lost = refl;
  same_interval = refl;
  same_underrun = refl;
  same_resync = refl;
  dropped_grows = omega arith;
}

skip-Moves : (b : JitterBuffer) (depth : ℕ) → IsAhead b → Moves b (skip_missing_head b depth).0
skip-Moves b depth a =
    let s = skip_missing_head-Skips b depth in
    rw s.buffer (skip_by-Moves b s.n a (s.none_passed a.none_below))

-- The buffer that `drop_head` leaves before it skips.
abbrev without_head : JitterBuffer → JitterBuffer
without_head b = record b {
  frames = remove b.frames b.next;
  next = b.next + 1;
  dropped = b.dropped + 1;
  pops_since_drop = 0;
}

without_head-Moves :
    (b : JitterBuffer) → IsAhead b → contains b.frames b.next ≡ true → Moves b (without_head b)
without_head-Moves b a full = record {
  ahead = record {
    distinct = remove-Distinct b.frames b.next a.distinct;
    none_below = λ k v h.
        ground (arith, get-remove b.frames b.next k a.distinct, a.none_below k v, eqb_iff b.next k);
  };
  slots = omega arith;
  account = ground (arith, length-remove b.frames b.next);
  subset = λ k v h. ground (arith, get-remove b.frames b.next k a.distinct);
  keeps = λ k v le h. ground (arith, get-remove b.frames b.next k a.distinct, eqb_iff b.next k);
  next_grows = omega arith;
  skipped_grows = omega arith;
  same_playing = refl;
  same_target = refl;
  same_capacity = refl;
  same_lost = refl;
  same_interval = refl;
  same_underrun = refl;
  same_resync = refl;
  dropped_grows = omega arith;
}

-- Catching up from `b` ends in `c`. At most one real frame is dropped, and only once `interval`
-- slots were played since the last.
pub record CatchesUp (interval : ℕ) (b c : JitterBuffer) : Type 0 where
  pub moves : Moves b c
  pub drops :
      ((c.dropped ≡ b.dropped) × (c.pops_since_drop ≡ b.pops_since_drop))
      ⊎ ((c.dropped ≡ b.dropped + 1) × (interval ≤ b.pops_since_drop) × (c.pops_since_drop ≡ 0))

abbrev Catches : ℕ → JitterBuffer → Result JitterError JitterBuffer → Type 0
Catches interval b (ok c) = CatchesUp interval b c
Catches interval b (err e) = ⊥

drop_head-Catches :
    (interval : ℕ) (b : JitterBuffer) (depth : ℕ)
    → IsAhead b
    → contains b.frames b.next ≡ true
    → interval ≤ b.pops_since_drop
    → Catches interval b (drop_head b depth)
unfolding drop_head
drop_head-Catches interval b depth a full due = rw full (
    let s = skip_missing_head-Skips (without_head b) (depth - 1) in
    let m = without_head-Moves b a full in
    record {
      moves = Moves-trans m (skip-Moves (without_head b) (depth - 1) m.ahead);
      drops = rw s.buffer (inr (refl, due, refl));
    })

-- A move that drops nothing, in front.
Catches-after :
    (interval : ℕ) {b c : JitterBuffer} (r : Result JitterError JitterBuffer)
    → Moves b c
    → c.dropped ≡ b.dropped
    → c.pops_since_drop ≡ b.pops_since_drop
    → Catches interval c r
    → Catches interval b r
Catches-after interval (err e) m d p h = h
Catches-after interval {b} {c} (ok x) m d p h = record {
  moves = Moves-trans m h.moves;
  drops = ground (arith, h.drops);
}

-- Where the loop has stopped above the target, the next slot holds a frame.
melt_from :
    (interval : ℕ) (b : JitterBuffer) (depth : ℕ) (r : JitterBuffer × ℕ)
    → Skips b depth r
    → Moves b r.0
    → Catches interval b (if must_drop r.0 interval r.1 then drop_head r.0 r.1 else ok r.0)
melt_from interval b depth (c, left) s m = elim (Bool-cases (must_drop c interval left)) [
  | inr no_drop ↦ rw no_drop (record {
    moves = m;
    drops = inl (ap (λ x. x.dropped) s.buffer, ap (λ x. x.pops_since_drop) s.buffer);
  })
  | inl drop ↦ rw drop (
      Catches-after interval (drop_head c left) m (ap (λ x. x.dropped) s.buffer)
        (ap (λ x. x.pops_since_drop) s.buffer)
        (drop_head-Catches interval c left m.ahead (head_is_full drop) (ground arith)))
]
  where
    head_is_full : must_drop c interval left ≡ true → contains c.frames c.next ≡ true
    head_is_full drop = rw s.buffer (s.stops (ground (arith, ap (λ x. x.target_frames) s.buffer)))

melt-Catches :
    (interval : ℕ) (b : JitterBuffer) (depth : ℕ)
    → IsAhead b
    → Catches interval b (melt b interval depth)
unfolding melt
melt-Catches interval b depth a =
    melt_from interval b depth (skip_missing_head b depth) (skip_missing_head-Skips b depth)
      (skip-Moves b depth a)

judged-Moves : (b : JitterBuffer) (x : Bool) → IsAhead b → Moves b (record b { catching_up = x })
judged-Moves b x a = record {
  ahead = record { distinct = a.distinct; none_below = a.none_below };
  slots = refl;
  account = refl;
  subset = λ k v g. g;
  keeps = λ k v le g. g;
  next_grows = omega arith;
  skipped_grows = omega arith;
  same_playing = refl;
  same_target = refl;
  same_capacity = refl;
  same_lost = refl;
  same_interval = refl;
  same_underrun = refl;
  same_resync = refl;
  dropped_grows = omega arith;
}

catch_up_every-Catches :
    (interval : ℕ) (b : JitterBuffer) → IsAhead b → Catches interval b (catch_up_every b interval)
unfolding catch_up_every
catch_up_every-Catches interval b a = elim (Bool-cases (judge b (depth_frames b))) [
  | inl yes' ↦ rw yes' (
      Catches-after interval (melt (record b { catching_up = true }) interval (depth_frames b))
        (judged-Moves b true a) refl refl
        (melt-Catches interval (record b { catching_up = true }) (depth_frames b)
          (judged-Moves b true a).ahead))
  | inr no' ↦ rw no' (record { moves = judged-Moves b false a; drops = inl (refl, refl) })
]

-- The interval that counts: none was set, or this one.
abbrev pub DropsAtMost : Option ℕ → (b c : JitterBuffer) → Type 0
DropsAtMost none b c = (c.dropped ≡ b.dropped) × (c.skipped ≡ b.skipped)
DropsAtMost (some interval) b c =
    ((c.dropped ≡ b.dropped) × (c.pops_since_drop ≡ b.pops_since_drop))
    ⊎ ((c.dropped ≡ b.dropped + 1) × (interval ≤ b.pops_since_drop) × (c.pops_since_drop ≡ 0))

catch_up_if_lem :
    (o : Option ℕ) (b : JitterBuffer)
    → IsAhead b
    → (c : JitterBuffer) × (catch_up_if o b ≡ ok c) × Moves b c × DropsAtMost o b c
unfolding catch_up_if
catch_up_if_lem none b a = (b, refl, judged-Moves b b.catching_up a, (refl, refl))
catch_up_if_lem (some interval) b a =
    from_Catches (catch_up_every b interval) refl (catch_up_every-Catches interval b a)
  where
    from_Catches :
        (r : Result JitterError JitterBuffer)
        → catch_up_every b interval ≡ r
        → Catches interval b r
        → (c : JitterBuffer) × (catch_up_every b interval ≡ ok c)
          × Moves b c
          × DropsAtMost (some interval) b c
    from_Catches (ok c) e h = (c, e, h.moves, h.drops)
    from_Catches (err x) e h = absurd h

-- Catching up never fails.
pub catch_up_lem :
    (b : JitterBuffer)
    → IsAhead b
    → (c : JitterBuffer) × (catch_up b ≡ ok c) × Moves b c × DropsAtMost b.catchup_interval b c
unfolding catch_up
catch_up_lem b a = catch_up_if_lem b.catchup_interval b a
