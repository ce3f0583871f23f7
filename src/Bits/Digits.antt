-- ===== src/Bits/Digits.antt =====
-- What `|`, `&`, `<<` and a mask of ones do to each digit.
use Prim.Native.Nat.{max, min, bit_or, bit_and}
use native.Mathlib.Nat.{pow-suc, one-le-pow, div-div-eq-div-mul, mul_comm}
use mathlib.Core.Path.{ap₂}
use proxy_net.Bits.{digit}
use proxy_net.Bits.Step.{bit_or_lem, bit_and_lem}
use proxy_net.Prelude.{
  ℕ, zero, suc, ◌+◌, ◌-◌, ◌*◌, ◌/◌, ◌%◌, ◌^◌, ◌≤◌, ◌<◌, ◌≡◌, refl, arith, ap, sym, ◌∙◌,
}

-- The digit above is the digit of the half.
pub digit-half : (x i : ℕ) → digit x (suc i) ≡ digit (x / 2) i
digit-half x i =
    ap (λ (p : ℕ). x / p % 2) (pow-suc 2 i ∙ mul_comm (2 ^ i) 2)
    ∙ ap (λ (q : ℕ). q % 2) (sym (div-div-eq-div-mul x 2 (2 ^ i)))

pub digit-bit_or : (x y i : ℕ) → digit (bit_or x y) i ≡ max (digit x i) (digit y i)
digit-bit_or x y zero = omega (arith, bit_or_lem x y)
digit-bit_or x y (suc i) =
    let half : bit_or x y / 2 ≡ bit_or (x / 2) (y / 2) = omega (arith, bit_or_lem x y) in
    omega (
      arith,
      digit-half (bit_or x y) i ∙ ap (λ (h : ℕ). digit h i) half,
      digit-bit_or (x / 2) (y / 2) i,
      digit-half x i,
      digit-half y i,
    )

pub digit-bit_and : (x y i : ℕ) → digit (bit_and x y) i ≡ min (digit x i) (digit y i)
digit-bit_and x y zero = omega (arith, bit_and_lem x y)
digit-bit_and x y (suc i) =
    let half : bit_and x y / 2 ≡ bit_and (x / 2) (y / 2) = omega (arith, bit_and_lem x y) in
    omega (
      arith,
      digit-half (bit_and x y) i ∙ ap (λ (h : ℕ). digit h i) half,
      digit-bit_and (x / 2) (y / 2) i,
      digit-half x i,
      digit-half y i,
    )

double : (x s : ℕ) → x * 2 ^ suc s ≡ x * 2 ^ s * 2
double x s = omega (arith, ap (λ (p : ℕ). x * p) (pow-suc 2 s))

-- Shifted to the left by `s`: zeros below, the old digits above.
pub digit-shift_low : (x s i : ℕ) → i < s → digit (x * 2 ^ s) i ≡ 0
digit-shift_low x zero i h = absurd (omega arith)
digit-shift_low x (suc s) zero h = omega (arith, double x s)
digit-shift_low x (suc s) (suc i) h =
    let half : x * 2 ^ suc s / 2 ≡ x * 2 ^ s = omega (arith, double x s) in
    digit-half (x * 2 ^ suc s) i
    ∙ ap (λ (y : ℕ). digit y i) half
    ∙ digit-shift_low x s i (omega arith)

pub digit-shift_high : (x s i : ℕ) → digit (x * 2 ^ s) (s + i) ≡ digit x i
digit-shift_high x zero i = ap₂ digit (omega arith) (omega arith)
digit-shift_high x (suc s) i =
    let half : x * 2 ^ suc s / 2 ≡ x * 2 ^ s = omega (arith, double x s) in
    ap (digit (x * 2 ^ suc s)) (suc_front s i)
    ∙ digit-half (x * 2 ^ suc s) (s + i)
    ∙ ap (λ (y : ℕ). digit y (s + i)) half
    ∙ digit-shift_high x s i
  where
    suc_front : (s i : ℕ) → suc s + i ≡ suc (s + i)
    suc_front s i = omega arith

pub digit-one : (i : ℕ) → digit 1 (suc i) ≡ 0
digit-one i = digit-half 1 i ∙ digit-zero i
  where
    digit-zero : (i : ℕ) → digit 0 i ≡ 0
    digit-zero zero = refl
    digit-zero (suc i) = digit-half 0 i ∙ digit-zero i

-- The mask of `k` ones.
pub digit-mask : (k i : ℕ) → i < k → digit (2 ^ k - 1) i ≡ 1
digit-mask zero i h = absurd (omega arith)
digit-mask (suc k) zero h = omega (arith, pow-suc 2 k, one-le-pow k 2 (omega arith))
digit-mask (suc k) (suc i) h =
    let half : (2 ^ suc k - 1) / 2 ≡ 2 ^ k - 1 =
      omega (arith, pow-suc 2 k, one-le-pow k 2 (omega arith)) in
    digit-half (2 ^ suc k - 1) i ∙ ap (λ (y : ℕ). digit y i) half ∙ digit-mask k i (omega arith)

pub digit-lt_two : (x i : ℕ) → digit x i < 2
digit-lt_two x i = omega arith

bit_and-zero_within : (n x : ℕ) → x ≤ n → bit_and x 0 ≡ 0
bit_and-zero_within n zero h = refl
bit_and-zero_within zero (suc x) h = absurd (omega arith)
bit_and-zero_within (suc n) (suc x) h =
    omega (arith, bit_and_lem (suc x) 0, bit_and-zero_within n (suc x / 2) (omega arith))

-- `x & 1`
pub bit_and-one : (x : ℕ) → bit_and x 1 ≡ x % 2
bit_and-one x = omega (arith, bit_and_lem x 1, bit_and-zero_within (x / 2) (x / 2) (omega arith))
