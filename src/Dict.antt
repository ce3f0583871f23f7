-- ===== src/Dict.antt =====
-- Python's `dict`: insertion-ordered, keys compared by an `Eq` instance. `d[k] = v` keeps the
-- place of a key that is there and appends a new one.
pub mod Laws
use proxy_net.Prelude.{
  ℕ, List, [], ◌∷◌, Option, none, some, Bool, true, false, map, Eq, ◌==◌, if◌then◌else◌, length,
}

abbrev pub Dict : Type 0 → Type 0 → Type 0
Dict K V = List (K × V)

module _ {K V : Type 0} ⦃e : Eq K⦄ where
  -- d.get(k)
  unfoldable pub get : Dict K V → K → Option V
  get [] k = none
  get ((j, v) ∷ d) k = if j == k then some v else get d k

  -- d[k] = v
  unfoldable pub put : Dict K V → K → V → Dict K V
  put [] k v = (k, v) ∷ []
  put ((j, w) ∷ d) k v = if j == k then (j, v) ∷ d else (j, w) ∷ put d k v

  -- d.pop(k, None)
  unfoldable pub remove : Dict K V → K → Dict K V
  remove [] k = []
  remove ((j, w) ∷ d) k = if j == k then d else (j, w) ∷ remove d k

  -- k in d
  unfoldable pub contains : Dict K V → K → Bool
  contains [] k = false
  contains ((j, v) ∷ d) k = if j == k then true else contains d k

module _ {K V : Type 0} where
  -- list(d), the keys in order
  abbrev pub keys : Dict K V → List K
  keys [] = []
  keys ((k, v) ∷ d) = k ∷ keys d

  -- d.values()
  abbrev pub values : Dict K V → List V
  values [] = []
  values ((k, v) ∷ d) = v ∷ values d
