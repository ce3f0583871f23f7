-- ===== src/Bytes/Fields.antt =====
-- A field holds its number: width, round trip and range.
use native.Mathlib.Nat.{pow-suc, mul-le-mul_right}
use proxy_net.Prelude.{
  All, take, drop, ◌≤◌, ℕ, zero, suc, ◌+◌, ◌*◌, ◌/◌, ◌%◌, ◌^◌, ◌<◌, ◌≡◌, refl, [], ◌∷◌, ◌++◌, arith,
  length, length-append, ◌∙◌,
}
use proxy_net.Bytes.{Bytes, big_endian, from_bytes, from_bytes_onto}

pub length-big_endian : (w n : ℕ) → length (big_endian w n) ≡ w
unfolding big_endian
length-big_endian zero n = refl
length-big_endian (suc w) n =
    omega (
      arith,
      length-append (big_endian w (n / 256)) ((n % 256) ∷ []),
      length-big_endian w (n / 256),
    )

from_bytes_onto-append :
    (acc : ℕ) (xs : Bytes) (b : ℕ)
    → from_bytes_onto acc (xs ++ b ∷ []) ≡ from_bytes_onto acc xs * 256 + b
unfolding from_bytes_onto
from_bytes_onto-append acc [] b = refl
from_bytes_onto-append acc (x ∷ xs) b = from_bytes_onto-append (acc * 256 + x) xs b

pub from_bytes-big_endian : (w n : ℕ) → n < 256 ^ w → from_bytes (big_endian w n) ≡ n
unfolding from_bytes big_endian
from_bytes-big_endian zero n h = omega arith
from_bytes-big_endian (suc w) n h =
    from_bytes_onto-append 0 (big_endian w (n / 256)) (n % 256)
    ∙ omega (arith, from_bytes-big_endian w (n / 256) (omega (arith, pow-suc 256 w)))

-- Numbers that stand for bytes.
abbrev pub AreBytes : Bytes → Type 0
AreBytes = All (λ b. b < 256)

from_bytes_onto-bounded :
    (acc : ℕ) (bs : Bytes) → AreBytes bs → from_bytes_onto acc bs < (acc + 1) * 256 ^ length bs
unfolding from_bytes_onto
from_bytes_onto-bounded acc [] a = omega arith
from_bytes_onto-bounded acc (b ∷ bs) a =
    let ih = from_bytes_onto-bounded (acc * 256 + b) bs a.1 in
    let p : ℕ = 256 ^ length bs in
    let grows : (acc * 256 + b + 1) * p ≤ ((acc + 1) * 256) * p =
      mul-le-mul_right {m = acc * 256 + b + 1} {n = (acc + 1) * 256} p (omega (arith, a.0)) in
    rw (pow-suc 256 (length bs)) (omega (arith, ih, grows))

pub from_bytes-bounded : (bs : Bytes) → AreBytes bs → from_bytes bs < 256 ^ length bs
unfolding from_bytes
from_bytes-bounded bs a = omega (arith, from_bytes_onto-bounded 0 bs a)

pub take-AreBytes : (n : ℕ) (bs : Bytes) → AreBytes bs → AreBytes (take n bs)
take-AreBytes zero bs a = tt
take-AreBytes (suc n) [] a = tt
take-AreBytes (suc n) (b ∷ bs) a = (a.0, take-AreBytes n bs a.1)

pub drop-AreBytes : (n : ℕ) (bs : Bytes) → AreBytes bs → AreBytes (drop n bs)
drop-AreBytes zero bs a = a
drop-AreBytes (suc n) [] a = tt
drop-AreBytes (suc n) (b ∷ bs) a = drop-AreBytes n bs a.1
