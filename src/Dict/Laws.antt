-- ===== src/Dict/Laws.antt =====
-- The laws of a dictionary by its lookups, and the size of its list of entries. A dictionary is
-- well formed (`Distinct`) if no key stands in it twice.
use proxy_net.Prelude.{
  ◌+◌, ◌≡◌, refl, inl, inr, [], ◌∷◌, none, some, true, false, Eq, ◌==◌, ==_iff, if◌then◌else◌,
  length, arith, Bool-cases,
}
use proxy_net.Dict.{Dict, get, put, remove, contains}

module _ {K V : Type 0} ⦃e : Eq K⦄ where
  -- No key stands twice.
  abbrev pub Distinct : Dict K V → Type 0
  Distinct [] = Unit
  Distinct ((k, v) ∷ d) = (get d k ≡ none) × Distinct d

  pub contains-get-some : (d : Dict K V) (k : K) (v : V) → get d k ≡ some v → contains d k ≡ true
  unfolding get contains
  contains-get-some [] k v h = cc
  contains-get-some ((j, w) ∷ d) k v h = ground (arith, contains-get-some d k v)

  pub contains-get-none : (d : Dict K V) (k : K) → get d k ≡ none → contains d k ≡ false
  unfolding get contains
  contains-get-none [] k h = refl
  contains-get-none ((j, w) ∷ d) k h = ground (arith, contains-get-none d k)

  pub get-contains : (d : Dict K V) (k : K) → contains d k ≡ true → (v : V) × (get d k ≡ some v)
  unfolding get contains
  get-contains [] k h = cc
  get-contains ((j, w) ∷ d) k h = elim (Bool-cases (j == k)) [
    | inl here ↦ rw here (w, refl)
    | inr there ↦ rw there (get-contains d k (ground arith))
  ]

  pub get-put :
      (d : Dict K V) (k j : K) (v : V) → get (put d k v) j ≡ (if k == j then some v else get d j)
  unfolding get put
  get-put [] k j v = refl
  get-put ((i, w) ∷ d) k j v = ground (arith, ==_iff i k, ==_iff i j, ==_iff k j, get-put d k j v)

  pub get-remove :
      (d : Dict K V) (k j : K)
      → Distinct d
      → get (remove d k) j ≡ (if k == j then none else get d j)
  unfolding get remove
  get-remove [] k j h = ground arith
  get-remove ((i, w) ∷ d) k j h =
      ground (arith, ==_iff i k, ==_iff i j, ==_iff k j, get-remove d k j h.1)

  pub put-Distinct : (d : Dict K V) (k : K) (v : V) → Distinct d → Distinct (put d k v)
  unfolding put get
  put-Distinct [] k v h = (refl, tt)
  put-Distinct ((i, w) ∷ d) k v h =
      ground (arith, get-put d k i v, ==_iff i k, ==_iff k i, put-Distinct d k v h.1)

  pub remove-Distinct : (d : Dict K V) (k : K) → Distinct d → Distinct (remove d k)
  unfolding remove
  remove-Distinct [] k h = tt
  remove-Distinct ((i, w) ∷ d) k h =
      ground (arith, get-remove d k i h.1, ==_iff i k, ==_iff k i, remove-Distinct d k h.1)

  pub length-put :
      (d : Dict K V) (k : K) (v : V)
      → length (put d k v) ≡ (if contains d k then length d else length d + 1)
  unfolding put contains
  length-put [] k v = omega arith
  length-put ((i, w) ∷ d) k v = ground (arith, length-put d k v)

  pub length-remove :
      (d : Dict K V) (k : K) → length (remove d k) + (if contains d k then 1 else 0) ≡ length d
  unfolding remove contains
  length-remove [] k = omega arith
  length-remove ((i, w) ∷ d) k = ground (arith, length-remove d k)
