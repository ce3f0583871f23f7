-- ===== src/Padding/Rungs.antt =====
-- The ladder of core/padding.py: which rung a length lands on.
use proxy_net.Prelude.{
  ℕ, ◌+◌, ◌≤◌, ◌<◌, ◌≡◌, refl, ◌⊎◌, inl, inr, List, [], ◌∷◌, arith, ok, err, Result,
}
use proxy_net.Padding.{
  PaddingError, message_too_long, bucket_for, first_rung, buckets, max_plaintext_bytes,
}

-- `rung` stands in the list, holds `needed`, and every earlier entry is too small.
abbrev pub FirstFit : ℕ → ℕ → List ℕ → Type 0
FirstFit needed rung [] = ⊥
FirstFit needed rung (r ∷ rs) =
    ((r ≡ rung) × (needed ≤ r)) ⊎ ((r < needed) × FirstFit needed rung rs)

-- No entry holds `needed`.
abbrev pub NoFit : ℕ → List ℕ → Type 0
NoFit needed [] = Unit
NoFit needed (r ∷ rs) = (r < needed) × NoFit needed rs

-- What a search of the ladder may return.
abbrev pub Fits : ℕ → List ℕ → Result PaddingError ℕ → Type 0
Fits needed rungs (ok rung) = FirstFit needed rung rungs
Fits needed rungs (err e) = (e ≡ message_too_long) × NoFit needed rungs

pub first_rung-Fits : (needed : ℕ) (rungs : List ℕ) → Fits needed rungs (first_rung needed rungs)
unfolding first_rung
first_rung-Fits needed [] = (refl, tt)
first_rung-Fits needed (r ∷ rs) = ground (arith, first_rung-Fits needed rs)

pub bucket_for-Fits : (n : ℕ) → Fits (n + 2) buckets (bucket_for n)
unfolding bucket_for
bucket_for-Fits n = first_rung-Fits (n + 2) buckets

pub FirstFit-le : (needed rung : ℕ) (rungs : List ℕ) → FirstFit needed rung rungs → needed ≤ rung
FirstFit-le needed rung [] h = absurd h
FirstFit-le needed rung (r ∷ rs) (inl h) = omega arith
FirstFit-le needed rung (r ∷ rs) (inr h) = FirstFit-le needed rung rs h.1

-- On the ladder itself.
pub FirstFit-buckets-le : (needed rung : ℕ) → FirstFit needed rung buckets → rung ≤ 6112
FirstFit-buckets-le needed rung h = omega arith

pub bucket_for-total :
    (n : ℕ) → n ≤ max_plaintext_bytes → (rung : ℕ) × (bucket_for n ≡ ok rung) × (n + 2 ≤ rung)
bucket_for-total n h = go (bucket_for n) refl (bucket_for-Fits n)
  where
    go :
        (r : Result PaddingError ℕ)
        → bucket_for n ≡ r
        → Fits (n + 2) buckets r
        → (rung : ℕ) × (bucket_for n ≡ ok rung) × (n + 2 ≤ rung)
    go (ok rung) e f = (rung, e, FirstFit-le (n + 2) rung buckets f)
    go (err x) e f = absurd (omega arith)
