-- ===== src/Bits/Step.antt =====
-- One step of the native `|` and `&`: the lowest digit, and the halves. Both are defined by a
-- recursion on digits that carries fuel; any fuel from the first number on gives the same value.
use Prim.Native.Nat.{max, min, digits, bit_or, bit_and, bit_or-bitwise, bit_and-bitwise}
use proxy_net.Prelude.{ℕ, zero, suc, ◌+◌, ◌*◌, ◌/◌, ◌%◌, ◌≤◌, ◌≡◌, refl, arith}

module _ (rest : ℕ → ℕ) (op : ℕ → ℕ → ℕ) where
  enough_fuel : (j k x y : ℕ) → x ≤ j → x ≤ k → digits rest op j x y ≡ digits rest op k x y
  enough_fuel zero zero x y p q = refl
  enough_fuel zero (suc k) zero y p q = refl
  enough_fuel zero (suc k) (suc x) y p q = absurd (omega arith)
  enough_fuel (suc j) zero zero y p q = refl
  enough_fuel (suc j) zero (suc x) y p q = absurd (omega arith)
  enough_fuel (suc j) (suc k) zero y p q = refl
  enough_fuel (suc j) (suc k) (suc x) y p q =
      omega (arith, enough_fuel j k (suc x / 2) (y / 2) (omega arith) (omega arith))

pub bit_or_lem : (x y : ℕ) → bit_or x y ≡ bit_or (x / 2) (y / 2) * 2 + max (x % 2) (y % 2)
bit_or_lem zero y = omega (arith, bit_or-bitwise 0 y, bit_or-bitwise 0 (y / 2))
bit_or_lem (suc x) y = omega (
  arith,
  bit_or-bitwise (suc x) y,
  bit_or-bitwise (suc x / 2) (y / 2),
  enough_fuel (λ b. b) max x (suc x / 2) (suc x / 2) (y / 2) (omega arith) (omega arith),
)

pub bit_and_lem : (x y : ℕ) → bit_and x y ≡ bit_and (x / 2) (y / 2) * 2 + min (x % 2) (y % 2)
bit_and_lem zero y = omega (arith, bit_and-bitwise 0 y, bit_and-bitwise 0 (y / 2))
bit_and_lem (suc x) y = omega (
  arith,
  bit_and-bitwise (suc x) y,
  bit_and-bitwise (suc x / 2) (y / 2),
  enough_fuel (λ b. 0) min x (suc x / 2) (suc x / 2) (y / 2) (omega arith) (omega arith),
)
