-- ===== src/Replay/Check.antt =====
-- `check` of `ReplayWindow` decides freshness, and keeps the map true.
use Prim.Native.Nat.{bit_and, bit_or}
use proxy_net.Prelude.{
  ℕ, ◌-◌, ◌*◌, ◌/◌, ◌^◌, ◌≤◌, ◌<◌, ◌≡◌, refl, inl, inr, List, [], ◌∷◌, Bool, true, false, Option,
  none, some, ltb, leb, arith, ap, ◌∙◌, Bool-cases,
}
use proxy_net.Bits.Digits.{bit_and-one}
use proxy_net.Replay.{ReplayWindow, new, check, check_from, check_after}
use proxy_net.Replay.Window.{
  is_in, flag, Maps, Tracks, TracksFrom, is_fresh_from, first-Maps, far-Maps, near-Maps,
  inside-Maps,
}

-- The list of accepted numbers after an answer.
abbrev pub remember : Bool → ℕ → List ℕ → List ℕ
remember true n l = n ∷ l
remember false n l = l

-- The answer is whether the number is fresh, and the window tracks what was accepted.
pub record Answers (o : Option ℕ) (w : ReplayWindow) (l : List ℕ) (n : ℕ) (r : ReplayWindow × Bool)
    : Type 0 where
  pub verdict : r.1 ≡ is_fresh_from o w.size l n
  pub tracks : Tracks r.0 (remember r.1 n l)
  pub same_size : r.0.size ≡ w.size

seen_digit :
    (h : ℕ) (w : ReplayWindow) (l : List ℕ) (n : ℕ)
    → Maps w.size h w.seen l
    → n ≤ h
    → h - n < w.size
    → bit_and (w.seen / 2 ^ (h - n)) 1 ≡ flag (is_in n l)
seen_digit h w l n m le inside =
    let back : h - (h - n) ≡ n = omega arith in
    bit_and-one (w.seen / 2 ^ (h - n))
    ∙ m.digits (h - n) inside (omega arith)
    ∙ ap (λ (x : ℕ). flag (is_in x l)) back

-- A map below the window's own highest number.
mapped :
    (h : ℕ) (w : ReplayWindow) (l : List ℕ)
    → w.highest ≡ some h
    → Maps w.size h w.seen l
    → TracksFrom w.highest w l
mapped h w l e m = rw e m

check_after-Answers :
    (h : ℕ) (w : ReplayWindow) (l : List ℕ) (n : ℕ)
    → w.highest ≡ some h
    → Tracks w l
    → Maps w.size h w.seen l
    → Answers (some h) w l n (check_after w h n)
unfolding check_after
check_after-Answers h w l n top t m = elim (Bool-cases (ltb h n)) [
  | inl above ↦ elim (Bool-cases (leb w.size (n - h))) [
    | inl far ↦
        simp (above, far)
          (record {
            verdict = ground arith;
            tracks = record {
              some_size = t.some_size;
              full_mask = t.full_mask;
              map = far-Maps w.size h w.seen n l (ground arith) (ground arith) m;
            };
            same_size = refl;
          })
    | inr near ↦
        simp (above, near, t.full_mask)
          (record {
            verdict = ground arith;
            tracks = record {
              some_size = t.some_size;
              full_mask = refl;
              map = near-Maps w.size h w.seen n l (ground arith) m;
            };
            same_size = refl;
          })
  ]
  | inr below ↦ elim (Bool-cases (leb w.size (h - n))) [
    | inl old ↦ simp (below, old) (record { verdict = ground arith; tracks = t; same_size = refl })
    | inr inside ↦ elim (Bool-cases (is_in n l)) [
      | inl again ↦
          simp (below, inside, seen_digit h w l n m (ground arith) (ground arith), again)
            (record { verdict = ground arith; tracks = t; same_size = refl })
      | inr fresh ↦
          simp (below, inside, seen_digit h w l n m (ground arith) (ground arith), fresh)
            (record {
              verdict = ground arith;
              tracks = record {
                some_size = t.some_size;
                full_mask = t.full_mask;
                map =
                    mapped h (record w { seen = bit_or w.seen (1 * 2 ^ (h - n)) }) (n ∷ l) top
                      (inside-Maps w.size h w.seen n l (ground arith) m);
              };
              same_size = refl;
            })
    ]
  ]
]

check_from-Answers :
    (o : Option ℕ) (w : ReplayWindow) (l : List ℕ) (n : ℕ)
    → w.highest ≡ o
    → Tracks w l
    → TracksFrom o w l
    → Answers o w l n (check_from o w n)
unfolding check_from
check_from-Answers none w l n top t e = record {
  verdict = refl;
  tracks =
      rw e (record { some_size = t.some_size; full_mask = t.full_mask; map = first-Maps w.size n });
  same_size = refl;
}
check_from-Answers (some h) w l n top t m = check_after-Answers h w l n top t m

-- If the window tracks the accepted numbers, `check` accepts a number exactly if it is above the
-- highest, or within the window and not accepted before; and the window then tracks the accepted
-- numbers with this one, if it was accepted.
pub check-Answers :
    (w : ReplayWindow) (l : List ℕ) (n : ℕ) → Tracks w l → Answers w.highest w l n (check w n)
unfolding check
check-Answers w l n t = check_from-Answers w.highest w l n refl t t.map

pub new-Tracks : (size : ℕ) (w : ReplayWindow) → new size ≡ some w → Tracks w []
unfolding new
new-Tracks size w e = record {
  some_size = ground arith;
  full_mask = ground arith;
  map = ground arith;
}
