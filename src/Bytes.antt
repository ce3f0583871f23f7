-- ===== src/Bytes.antt =====
-- Byte strings as lists of numbers, and unsigned big-endian fields: `int.to_bytes`,
-- `int.from_bytes` and the "!" formats of `struct`.
pub mod Fields
use proxy_net.Prelude.{
  ℕ, zero, suc, ◌+◌, ◌*◌, ◌/◌, ◌%◌, ◌^◌, List, [], ◌∷◌, ◌++◌, Option, none, some, ltb,
  if◌then◌else◌,
}

abbrev pub Bytes : Type 0
Bytes = List ℕ

-- The lowest `w` bytes of `n`, the highest first.
unfoldable pub big_endian : ℕ → ℕ → Bytes
big_endian zero n = []
big_endian (suc w) n = big_endian w (n / 256) ++ (n % 256) ∷ []

-- `none` stands for OverflowError and struct.error: the number does not fit the field.
unfoldable pub to_bytes : ℕ → ℕ → Option Bytes
to_bytes w n = if ltb n (256 ^ w) then some (big_endian w n) else none

unfoldable pub from_bytes_onto : ℕ → Bytes → ℕ
from_bytes_onto acc [] = acc
from_bytes_onto acc (b ∷ bs) = from_bytes_onto (acc * 256 + b) bs

unfoldable pub from_bytes : Bytes → ℕ
unfolding from_bytes_onto
from_bytes = from_bytes_onto 0
