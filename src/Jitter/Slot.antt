-- ===== src/Jitter/Slot.antt =====
-- One slot of playback in core/voice_jitter.py: catching up, then the frame whose turn it is.
use proxy_net.Prelude.{
  ℕ, ◌+◌, ◌≤◌, ◌≡◌, refl, ◌⊎◌, inl, inr, List, [], ◌∷◌, true, Option, none, some, ltb,
  if◌then◌else◌, length, arith, Option-cases, eqb_iff, nat_eq, ok,
}
use proxy_net.Bytes.{Bytes}
use proxy_net.Dict.{Dict, get, keys}
use proxy_net.Dict.Laws.{
  Distinct, contains-get-some, contains-get-none, get-remove, remove-Distinct, length-remove,
}
use proxy_net.Jitter.{JitterBuffer, first_sequence, least, take_next, play, begin}
use proxy_net.Jitter.Skip.{NoneBelow}
use proxy_net.Jitter.CatchUp.{IsAhead, Moves, catch_up_lem, DropsAtMost}

-- One frame was returned, or none.
abbrev pub got : Option Bytes → ℕ
got none = 0
got (some f) = 1

-- The state that the operations keep.
pub record IsValid (b : JitterBuffer) : Type 0 where
  pub distinct : Distinct b.frames
  pub bounded : length b.frames ≤ b.capacity
  pub some_capacity : 1 ≤ b.capacity
  pub some_target : 1 ≤ b.target_frames
  pub ahead : b.playing ≡ true → NoneBelow b.next b.frames

-- Over one slot at most one frame is dropped, and only if `interval` slots were played since the
-- last drop (or since the start); with catching up turned off, none is.
abbrev pub DropRate : Option ℕ → (b c : JitterBuffer) → Type 0
DropRate none b c = c.dropped ≡ b.dropped
DropRate (some interval) b c =
    ((c.dropped ≡ b.dropped) × (c.pops_since_drop ≡ b.pops_since_drop + 1))
    ⊎ ((c.dropped ≡ b.dropped + 1) × (interval ≤ b.pops_since_drop) × (c.pops_since_drop ≡ 1))

-- One slot of playback leads from `b` to `c` and returns `r`.
pub record Plays (b : JitterBuffer) (r : Option Bytes) (c : JitterBuffer) : Type 0 where
  pub ahead : IsAhead c
  pub slots : c.next + b.skipped + b.dropped ≡ b.next + c.skipped + c.dropped + 1
  pub account : length c.frames + c.dropped + got r ≡ length b.frames + b.dropped
  pub heard : c.lost + got r ≡ b.lost + 1
  pub in_turn :
      (f : Bytes)
      → r ≡ some f
      → (k : ℕ) × (c.next ≡ k + 1) × (get b.frames k ≡ some f) × (b.next ≤ k)
  pub keeps : (k : ℕ) (v : Bytes) → c.next ≤ k → get b.frames k ≡ some v → get c.frames k ≡ some v
  pub subset : (k : ℕ) (v : Bytes) → get c.frames k ≡ some v → get b.frames k ≡ some v
  pub skipped_grows : b.skipped ≤ c.skipped
  pub next_grows : b.next ≤ c.next
  pub same_playing : c.playing ≡ b.playing
  pub same_target : c.target_frames ≡ b.target_frames
  pub same_capacity : c.capacity ≡ b.capacity
  pub same_interval : c.catchup_interval ≡ b.catchup_interval
  pub same_underrun : c.underrun ≡ b.underrun
  pub same_resync : c.resync ≡ b.resync
  pub drop_rate : DropRate b.catchup_interval b c

after_slot : (o : Option ℕ) (b c : JitterBuffer) → DropsAtMost o b c → DropRate o b (take_next c).1
unfolding take_next
after_slot none b c h = h.0
after_slot (some i) b c h = ground arith

take_next-Plays :
    (b c : JitterBuffer)
    → Moves b c
    → DropsAtMost b.catchup_interval b c
    → Plays b (take_next c).0 (take_next c).1
unfolding take_next
take_next-Plays b c m d = record {
  ahead = record {
    distinct = remove-Distinct c.frames c.next m.ahead.distinct;
    none_below = λ k v h. ground (
      arith,
      get-remove c.frames c.next k m.ahead.distinct,
      m.ahead.none_below k v,
      eqb_iff c.next k,
    );
  };
  slots = omega (arith, m.slots);
  account = elim (Option-cases (get c.frames c.next)) [
    | inl e ↦ rw e (
        ground
          (arith, m.account, length-remove c.frames c.next, contains-get-none c.frames c.next e))
    | inr (f, e) ↦ rw e (
        ground
          (arith, m.account, length-remove c.frames c.next, contains-get-some c.frames c.next f e))
  ];
  heard = ground (arith, m.same_lost);
  in_turn = λ f h. (c.next, refl, m.subset c.next f h, m.next_grows);
  keeps = λ k v le h.
      ground (arith, get-remove c.frames c.next k m.ahead.distinct, m.keeps k v, eqb_iff c.next k);
  subset = λ k v h. m.subset k v (ground (arith, get-remove c.frames c.next k m.ahead.distinct));
  skipped_grows = m.skipped_grows;
  next_grows = omega (arith, m.next_grows);
  same_playing = m.same_playing;
  same_target = m.same_target;
  same_capacity = m.same_capacity;
  same_interval = m.same_interval;
  same_underrun = m.same_underrun;
  same_resync = m.same_resync;
  drop_rate = after_slot b.catchup_interval b c d;
}

pub play-Plays :
    (b : JitterBuffer)
    → IsAhead b
    → (r : Option Bytes) × (c : JitterBuffer) × (play b ≡ ok (r, c)) × Plays b r c
unfolding play
play-Plays b a =
    let (c, e, m, d) = catch_up_lem b a in
    ((take_next c).0, (take_next c).1, rw e, take_next-Plays b c m d)

-- The frames of a dictionary lie at or above its first sequence number.
least-le : (m : ℕ) (ks : List ℕ) → least m ks ≤ m
unfolding least
least-le m [] = omega arith
least-le m (k ∷ ks) = ground (arith, least-le (if ltb k m then k else m) ks)

least-le_get :
    (m : ℕ) (d : Dict ℕ Bytes) (k : ℕ) (v : Bytes) → get d k ≡ some v → least m (keys d) ≤ k
unfolding get least
least-le_get m [] k v h = cc
least-le_get m ((j, w) ∷ d) k v h = ground (
  arith,
  least-le (if ltb j m then j else m) (keys d),
  least-le_get (if ltb j m then j else m) d k v,
  eqb_iff j k,
)

first_sequence-NoneBelow : (d : Dict ℕ Bytes) → NoneBelow (first_sequence d) d
unfolding first_sequence get
first_sequence-NoneBelow [] k v h = cc
first_sequence-NoneBelow ((j, w) ∷ d) k v h =
    ground (arith, least-le j (keys d), least-le_get j d k v, eqb_iff j k)

pub begin-IsAhead : (b : JitterBuffer) → Distinct b.frames → IsAhead (begin b)
unfolding begin
begin-IsAhead b d = record { distinct = d; none_below = first_sequence-NoneBelow b.frames }
