-- ===== src/Replay/Window.antt =====
-- The bit map of `ReplayWindow` against the list of the numbers that were accepted.
use Prim.Native.Nat.{bit_and, bit_or, max}
use proxy_net.Prelude.{
  ℕ, zero, suc, ◌+◌, ◌-◌, ◌*◌, ◌^◌, ◌≤◌, ◌<◌, ◌≡◌, refl, inl, inr, List, [], ◌∷◌, Bool, true, false,
  not, ◌&&◌, ◌||◌, Option, none, some, ltb, eqb, if◌then◌else◌, arith, ap, sym, ◌∙◌, Bool-cases,
}
use proxy_net.Bits.{digit}
use proxy_net.Bits.Digits.{
  digit-bit_or, digit-bit_and, digit-shift_low, digit-shift_high, digit-one, digit-mask,
  digit-lt_two,
}
use proxy_net.Replay.{ReplayWindow}

-- Membership as a test.
unfoldable pub is_in : ℕ → List ℕ → Bool
is_in n [] = false
is_in n (x ∷ xs) = if eqb x n then true else is_in n xs

abbrev pub flag : Bool → ℕ
flag true = 1
flag false = 0

-- No number of the list is above `h`.
abbrev pub AtMost : ℕ → List ℕ → Type 0
AtMost h [] = Unit
AtMost h (x ∷ xs) = (x ≤ h) × AtMost h xs

-- `seen` holds, for each number of the window below `h`, whether it was accepted.
pub record Maps (size h seen : ℕ) (l : List ℕ) : Type 0 where
  pub at_most : AtMost h l
  pub digits : (i : ℕ) → i < size → i ≤ h → digit seen i ≡ flag (is_in (h - i) l)

-- The window tracks the accepted numbers `l`.
abbrev pub TracksFrom : Option ℕ → ReplayWindow → List ℕ → Type 0
TracksFrom none w l = l ≡ []
TracksFrom (some h) w l = Maps w.size h w.seen l

pub record Tracks (w : ReplayWindow) (l : List ℕ) : Type 0 where
  pub some_size : 1 ≤ w.size
  pub full_mask : w.mask ≡ 2 ^ w.size - 1
  pub map : TracksFrom w.highest w l

-- What the window is to decide: the number is new, and not too old.
abbrev pub is_fresh_from : Option ℕ → ℕ → List ℕ → ℕ → Bool
is_fresh_from none size l n = true
is_fresh_from (some h) size l n = ltb h n || (ltb (h - n) size && not (is_in n l))

AtMost-mono : {h k : ℕ} (l : List ℕ) → h ≤ k → AtMost h l → AtMost k l
AtMost-mono [] le a = tt
AtMost-mono (x ∷ xs) le a = (omega arith, AtMost-mono xs le a.1)

pub is_in-above : (h n : ℕ) (l : List ℕ) → AtMost h l → h < n → is_in n l ≡ false
unfolding is_in
is_in-above h n [] a lt = refl
is_in-above h n (x ∷ xs) a lt = ground (arith, is_in-above h n xs a.1)

digit_one_at : (i : ℕ) → digit 1 i ≡ flag (eqb i 0)
digit_one_at zero = refl
digit_one_at (suc i) = digit-one i ∙ ground arith

-- The first number.
pub first-Maps : (size n : ℕ) → Maps size n 1 (n ∷ [])
unfolding is_in
first-Maps size n = record {
  at_most = (omega arith, tt);
  digits = λ i inside below. digit_one_at i ∙ ground arith;
}

-- A jump past the whole window.
pub far-Maps :
    (size h seen n : ℕ) (l : List ℕ)
    → h < n
    → size ≤ n - h
    → Maps size h seen l
    → Maps size n 1 (n ∷ l)
unfolding is_in
far-Maps size h seen n l lt jump m = record {
  at_most = (omega arith, AtMost-mono l (omega arith) m.at_most);
  digits = λ i inside below. digit_one_at i ∙ ground (arith, is_in-above h (n - i) l m.at_most);
}

-- A jump within the window: the map moves up, and its lowest digit is set.
moved_digit :
    (size seen s i : ℕ)
    → i < size
    → digit (bit_and (bit_or (seen * 2 ^ s) 1) (2 ^ size - 1)) i
      ≡ max (digit (seen * 2 ^ s) i) (flag (eqb i 0))
moved_digit size seen s i inside = omega (
  arith,
  digit-bit_and (bit_or (seen * 2 ^ s) 1) (2 ^ size - 1) i,
  digit-bit_or (seen * 2 ^ s) 1 i,
  digit-mask size i inside,
  digit_one_at i,
)

pub near-Maps :
    (size h seen n : ℕ) (l : List ℕ)
    → h < n
    → Maps size h seen l
    → Maps size n (bit_and (bit_or (seen * 2 ^ (n - h)) 1) (2 ^ size - 1)) (n ∷ l)
unfolding is_in
near-Maps size h seen n l lt m = record {
  at_most = (omega arith, AtMost-mono l (omega arith) m.at_most);
  digits = λ i inside below. moved_digit size seen (n - h) i inside ∙ value i inside below;
}
  where
    value :
        (i : ℕ)
        → i < size
        → i ≤ n
        → max (digit (seen * 2 ^ (n - h)) i) (flag (eqb i 0))
          ≡ flag (if eqb n (n - i) then true else is_in (n - i) l)
    value i inside below = elim (Bool-cases (ltb i (n - h))) [
      | inl low ↦
          ground (
            arith,
            digit-shift_low seen (n - h) i (ground arith),
            is_in-above h (n - i) l m.at_most,
          )
      | inr high ↦
          let k : ℕ = i - (n - h) in
          let up : n - h + k ≡ i = ground arith in
          let there : h - k ≡ n - i = ground arith in
          ground (
            arith,
            ap (digit (seen * 2 ^ (n - h))) (sym up)
                ∙ digit-shift_high seen (n - h) k
                ∙ m.digits k (ground arith) (ground arith)
                ∙ ap (λ (x : ℕ). flag (is_in x l)) there,
          )
    ]

-- A number inside the window that was not seen: its digit is set.
set_digit :
    (seen o i : ℕ)
    → digit (bit_or seen (1 * 2 ^ o)) i ≡ (if eqb i o then max (digit seen i) 1 else digit seen i)
set_digit seen o i = elim (Bool-cases (ltb i o)) [
  | inl low ↦ ground (arith, digit-bit_or seen (1 * 2 ^ o) i, digit-shift_low 1 o i (ground arith))
  | inr high ↦
      let up : o + (i - o) ≡ i = ground arith in
      ground (
        arith,
        digit-bit_or seen (1 * 2 ^ o) i,
        ap (digit (1 * 2 ^ o)) (sym up) ∙ digit-shift_high 1 o (i - o) ∙ digit_one_at (i - o),
      )
]

pub inside-Maps :
    (size h seen n : ℕ) (l : List ℕ)
    → n ≤ h
    → Maps size h seen l
    → Maps size h (bit_or seen (1 * 2 ^ (h - n))) (n ∷ l)
unfolding is_in
inside-Maps size h seen n l le m = record {
  at_most = (le, m.at_most);
  digits = λ i inside below.
      set_digit seen (h - n) i ∙ ground (arith, m.digits i inside below, digit-lt_two seen i);
}
