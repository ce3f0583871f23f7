-- ===== src/RateLimit/Window.antt =====
-- `RateLimiter` of core/server.py against the list of all events that it allowed.
use proxy_net.Prelude.{
  ℕ, ◌+◌, ◌-◌, ◌≤◌, ◌<◌, ◌≡◌, refl, inl, inr, List, [], ◌∷◌, ◌++◌, ◌&&◌, ltb, leb, if◌then◌else◌,
  length, arith, Bool-cases, ap,
}
use proxy_net.RateLimit.{expire}

-- How many of the moments lie between `t` and `t + window`.
unfoldable pub count_within : ℕ → ℕ → List ℕ → ℕ
count_within t window [] = 0
count_within t window (e ∷ es) =
    (if leb t e && leb e (t + window) then 1 else 0) + count_within t window es

-- Every moment is more than a window before `moment`.
abbrev pub Expired : ℕ → ℕ → List ℕ → Type 0
Expired window moment [] = Unit
Expired window moment (e ∷ es) = (e + window < moment) × Expired window moment es

pub count_within-append :
    (t w : ℕ) (xs ys : List ℕ)
    → count_within t w (xs ++ ys) ≡ count_within t w xs + count_within t w ys
unfolding count_within
count_within-append t w [] ys = omega arith
count_within-append t w (x ∷ xs) ys = omega (arith, count_within-append t w xs ys)

pub count_within-le : (t w : ℕ) (xs : List ℕ) → count_within t w xs ≤ length xs
unfolding count_within
count_within-le t w [] = omega arith
count_within-le t w (x ∷ xs) = ground (arith, count_within-le t w xs)

pub count_one :
    (t w m : ℕ) → count_within t w (m ∷ []) ≡ (if leb t m && leb m (t + w) then 1 else 0)
unfolding count_within
count_one t w m = omega arith

-- An interval that reaches `moment` holds no expired event.
pub count_within-Expired :
    (t w moment : ℕ) (xs : List ℕ) → Expired w moment xs → moment ≤ t + w → count_within t w xs ≡ 0
unfolding count_within
count_within-Expired t w moment [] x h = refl
count_within-Expired t w moment (e ∷ es) x h =
    ground (arith, count_within-Expired t w moment es x.1 h)

pub Expired-mono : {m n : ℕ} (w : ℕ) (xs : List ℕ) → m ≤ n → Expired w m xs → Expired w n xs
Expired-mono w [] le h = tt
Expired-mono w (x ∷ xs) le h = (omega arith, Expired-mono w xs le h.1)

pub Expired-append :
    (w m : ℕ) (xs ys : List ℕ) → Expired w m xs → Expired w m ys → Expired w m (xs ++ ys)
Expired-append w m [] ys h k = k
Expired-append w m (x ∷ xs) ys h k = (h.0, Expired-append w m xs ys h.1 k)

-- What the loop drops.
pub expire-splits :
    (w m : ℕ) (es : List ℕ) → (gone : List ℕ) × (es ≡ gone ++ expire w m es) × Expired w m gone
unfolding expire
expire-splits w m [] = ([], refl, tt)
expire-splits w m (e ∷ es) = elim (Bool-cases (ltb (e + w) m)) [
  | inl old ↦
      let (gone, split, x) = expire-splits w m es in
      (e ∷ gone, rw old (ap (◌∷◌ e) split), (ground arith, x))
  | inr live ↦ ([], rw live refl, tt)
]

-- Moments in order, from `lo` to `hi`.
abbrev pub Ordered : ℕ → ℕ → List ℕ → Type 0
Ordered lo hi [] = lo ≤ hi
Ordered lo hi (e ∷ es) = (lo ≤ e) × Ordered e hi es

Ordered-le : (lo hi : ℕ) (es : List ℕ) → Ordered lo hi es → lo ≤ hi
Ordered-le lo hi [] h = h
Ordered-le lo hi (e ∷ es) h = omega (arith, Ordered-le e hi es h.1)

Ordered-lower :
    {lo lo' : ℕ} (hi : ℕ) (es : List ℕ) → lo' ≤ lo → Ordered lo hi es → Ordered lo' hi es
Ordered-lower hi [] le h = omega arith
Ordered-lower hi (e ∷ es) le h = (omega arith, h.1)

pub Ordered-upper :
    {hi hi' : ℕ} (lo : ℕ) (es : List ℕ) → hi ≤ hi' → Ordered lo hi es → Ordered lo hi' es
Ordered-upper lo [] le h = omega arith
Ordered-upper lo (e ∷ es) le h = (h.0, Ordered-upper e es le h.1)

pub Ordered-snoc :
    (lo hi m : ℕ) (es : List ℕ) → hi ≤ m → Ordered lo hi es → Ordered lo m (es ++ m ∷ [])
Ordered-snoc lo hi m [] le h = (omega arith, omega arith)
Ordered-snoc lo hi m (e ∷ es) le h = (h.0, Ordered-snoc e hi m es le h.1)

-- What the loop keeps is in order and, the first event being within the window, all within it.
pub expire-Ordered :
    (w m lo hi : ℕ) (es : List ℕ) → Ordered lo hi es → Ordered lo hi (expire w m es)
unfolding expire
expire-Ordered w m lo hi [] h = h
expire-Ordered w m lo hi (e ∷ es) h = elim (Bool-cases (ltb (e + w) m)) [
  | inl old ↦ rw old (expire-Ordered w m lo hi es (Ordered-lower hi es h.0 h.1))
  | inr live ↦ rw live h
]

all_within :
    (w m lo hi : ℕ) (es : List ℕ)
    → Ordered lo hi es
    → m ≤ lo + w
    → hi ≤ m
    → count_within (m - w) w es ≡ length es
unfolding count_within
all_within w m lo hi [] h near le = refl
all_within w m lo hi (e ∷ es) h near le =
    ground (arith, all_within w m e hi es h.1, Ordered-le e hi es h.1)

pub live_within :
    (w m lo hi : ℕ) (es : List ℕ)
    → Ordered lo hi es
    → hi ≤ m
    → count_within (m - w) w (expire w m es) ≡ length (expire w m es)
unfolding expire
live_within w m lo hi [] h le = all_within w m m m [] (omega arith) (omega arith) (omega arith)
live_within w m lo hi (e ∷ es) h le = elim (Bool-cases (ltb (e + w) m)) [
  | inl old ↦ rw old (live_within w m e hi es h.1 le)
  | inr live ↦ rw live (all_within w m e hi (e ∷ es) (omega arith, h.1) (ground arith) le)
]
