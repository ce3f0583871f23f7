-- ===== src/VoiceSession/Percentile.antt =====
-- What the bins of core/voice_session.py say about the measurements that were counted.
use proxy_net.Prelude.{
  ℕ, zero, suc, ◌+◌, ◌≤◌, ◌<◌, ◌≡◌, refl, inl, inr, List, [], ◌∷◌, false, some, ltb, leb, eqb,
  if◌then◌else◌, length, replicate, length-replicate, arith, Bool-cases, ap, ◌∙◌,
}
use proxy_net.VoiceSession.Bins.{
  Distribution, empty_distribution, add, bump, clamped, rounded, reaches, percentile,
  histogram_max_ms,
}

unfoldable pub add_all : Distribution → List ℕ → Distribution
add_all d [] = d
add_all d (h ∷ hs) = add_all (add d h) hs

-- The bin of a measurement in half milliseconds.
abbrev pub bin_of : ℕ → ℕ
bin_of h = clamped (rounded h)

-- How many measurements lie in the bins below `k`.
unfoldable pub below : ℕ → List ℕ → ℕ
below k [] = 0
below k (h ∷ hs) = (if ltb (bin_of h) k then 1 else 0) + below k hs

abbrev sum_first : ℕ → List ℕ → ℕ
sum_first zero bins = 0
sum_first (suc k) [] = 0
sum_first (suc k) (b ∷ bins) = b + sum_first k bins

sum_first-bump :
    (k : ℕ) (bins : List ℕ) (j : ℕ)
    → j < length bins
    → sum_first k (bump bins j) ≡ sum_first k bins + (if ltb j k then 1 else 0)
unfolding bump
sum_first-bump zero bins j h = ground arith
sum_first-bump (suc k) [] j h = absurd (omega arith)
sum_first-bump (suc k) (b ∷ bins) zero h = ground arith
sum_first-bump (suc k) (b ∷ bins) (suc j) h = ground (arith, sum_first-bump k bins j)

length-bump : (bins : List ℕ) (j : ℕ) → length (bump bins j) ≡ length bins
unfolding bump
length-bump [] j = refl
length-bump (b ∷ bins) zero = refl
length-bump (b ∷ bins) (suc j) = ap suc (length-bump bins j)

sum_first-replicate : (k n : ℕ) → sum_first k (replicate n 0) ≡ 0
sum_first-replicate zero n = refl
sum_first-replicate (suc k) zero = refl
sum_first-replicate (suc k) (suc n) = omega (arith, sum_first-replicate k n)

clamped-fits : (ms : ℕ) → clamped ms ≤ histogram_max_ms
clamped-fits ms = ground arith

sum_first-add_all :
    (k : ℕ) (d : Distribution) (l : List ℕ)
    → length d.bins ≡ histogram_max_ms + 1
    → sum_first k (add_all d l).bins ≡ sum_first k d.bins + below k l
unfolding add_all below add
sum_first-add_all k d [] e = omega arith
sum_first-add_all k d (h ∷ hs) e =
    let ih = sum_first-add_all k (add d h) hs (length-bump d.bins (bin_of h) ∙ e) in
    omega (arith, ih, sum_first-bump k d.bins (bin_of h) (omega (arith, clamped-fits (rounded h))))

length-add_all : (d : Distribution) (l : List ℕ) → length (add_all d l).bins ≡ length d.bins
unfolding add_all add
length-add_all d [] = refl
length-add_all d (h ∷ hs) = length-add_all (add d h) hs ∙ length-bump d.bins (bin_of h)

count_lem : (d : Distribution) (l : List ℕ) → (add_all d l).count ≡ d.count + length l
unfolding add_all add
count_lem d [] = omega arith
count_lem d (h ∷ hs) = omega (arith, count_lem (add d h) hs)

below-all : (l : List ℕ) → below (histogram_max_ms + 1) l ≡ length l
unfolding below
below-all [] = refl
below-all (h ∷ hs) = ground (arith, below-all hs, clamped-fits (rounded h))

-- Where the loop of `percentile` stops.
reaches_lem :
    (target ms total : ℕ) (bins : List ℕ)
    → total < target
    → target ≤ total + sum_first (length bins) bins
    → (i : ℕ) × (reaches target ms total bins ≡ ms + i)
      × (total + sum_first i bins < target)
      × (target ≤ total + sum_first (suc i) bins)
unfolding reaches
reaches_lem target ms total [] less enough = absurd (omega arith)
reaches_lem target ms total (b ∷ bins) less enough = elim (Bool-cases (leb target (total + b))) [
  | inl here ↦ (0, simp here (omega arith), omega arith, ground arith)
  | inr later ↦
      let (i, is, low, high) =
        reaches_lem target (ms + 1) (total + b) bins (ground arith) (omega arith) in
      (suc i, simp later (is ∙ omega arith), omega arith, omega arith)
]

-- The number wanted, at least one.
abbrev pub one_or_more : ℕ → ℕ
one_or_more n = if ltb n 1 then 1 else n

rank_from :
    (d : Distribution) (l : List ℕ) (wanted : ℕ)
    → length d.bins ≡ histogram_max_ms + 1
    → d.count ≡ 0
    → ((k : ℕ) → sum_first k d.bins ≡ 0)
    → 1 ≤ length l
    → wanted ≤ length l
    → (v : ℕ) × (percentile (add_all d l) wanted ≡ some v)
      × (below v l < one_or_more wanted)
      × (one_or_more wanted ≤ below (suc v) l)
unfolding percentile
rank_from d l wanted size none_yet clear some_l few =
    let sums = λ (k : ℕ). sum_first-add_all k d l size in
    let whole : length (add_all d l).bins ≡ histogram_max_ms + 1 = length-add_all d l ∙ size in
    let all : sum_first (length (add_all d l).bins) (add_all d l).bins ≡ length l =
      rw whole
        (sums (histogram_max_ms + 1) ∙ omega (arith, clear (histogram_max_ms + 1), below-all l)) in
    let counted : eqb (add_all d l).count 0 ≡ false = ground (arith, count_lem d l) in
    let enough : one_or_more wanted ≤ 0 + sum_first (length (add_all d l).bins) (add_all d l).bins =
      ground arith in
    let (v, is, low, high) =
      reaches_lem (one_or_more wanted) 0 0 (add_all d l).bins (ground arith) enough in
    (
      v,
      rw counted (ap some (is ∙ omega arith)),
      omega (arith, sums v, clear v),
      omega (arith, sums (suc v), clear (suc v)),
    )

-- Of any measurements that are counted, at least one, a percentile for which at most all of them are
-- wanted is the bin of the measurement that stands at that place in the order of size: fewer than
-- the wanted number lie in smaller bins, and with its own bin they are enough. At least one is
-- wanted, and what lies above 5000 ms is in the last bin.
pub percentile_rank :
    (l : List ℕ) (wanted : ℕ)
    → 1 ≤ length l
    → wanted ≤ length l
    → (v : ℕ) × (percentile (add_all empty_distribution l) wanted ≡ some v)
      × (below v l < one_or_more wanted)
      × (one_or_more wanted ≤ below (suc v) l)
unfolding empty_distribution
percentile_rank l wanted some_l few =
    rank_from empty_distribution l wanted (length-replicate {A = ℕ} (histogram_max_ms + 1) 0) refl
      (λ k. sum_first-replicate k (histogram_max_ms + 1)) some_l few
