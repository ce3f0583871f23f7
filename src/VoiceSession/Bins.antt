-- ===== src/VoiceSession/Bins.antt =====
-- `Distribution` of core/voice_session.py: measurements counted into bins of a millisecond. A
-- measurement is a number of half milliseconds.
use proxy_net.Prelude.{
  ℕ, zero, suc, ◌+◌, ◌/◌, ◌%◌, List, [], ◌∷◌, Option, none, some, ltb, leb, eqb, if◌then◌else◌,
  replicate,
}

abbrev pub histogram_max_ms : ℕ
histogram_max_ms = 5000

pub record Distribution : Type 0 where
  pub bins : List ℕ
  pub count : ℕ

unfoldable pub empty_distribution : Distribution
empty_distribution = record { bins = replicate (histogram_max_ms + 1) 0; count = 0 }

-- `round` of a measurement in half milliseconds: a half goes to the even neighbour.
unfoldable pub rounded : ℕ → ℕ
rounded halves = if eqb (halves % 2) 0 then halves / 2 else halves / 2 + (halves / 2) % 2

-- `bins[k] += 1`
unfoldable pub bump : List ℕ → ℕ → List ℕ
bump [] k = []
bump (b ∷ bins) zero = (b + 1) ∷ bins
bump (b ∷ bins) (suc k) = b ∷ bump bins k

abbrev pub clamped : ℕ → ℕ
clamped ms = if ltb histogram_max_ms ms then histogram_max_ms else ms

-- `add` of a measurement in half milliseconds.
unfoldable pub add : Distribution → ℕ → Distribution
add d halves = record { bins = bump d.bins (clamped (rounded halves)); count = d.count + 1 }

-- The loop of `percentile`, from bin `ms` on.
unfoldable pub reaches : ℕ → ℕ → ℕ → List ℕ → ℕ
reaches target ms total [] = histogram_max_ms
reaches target ms total (b ∷ bins) =
    let next = reaches target (ms + 1) (total + b) bins in
    if leb target (total + b) then ms else next

-- `wanted` is `-(-self.count * ratio // 1)`, the share of the measurements, rounded up.
unfoldable pub percentile : Distribution → ℕ → Option ℕ
percentile d wanted =
    if eqb d.count 0 then none else some (reaches (if ltb wanted 1 then 1 else wanted) 0 0 d.bins)
