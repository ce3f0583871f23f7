-- ===== src/Bits.antt =====
-- Binary digits of numbers under `|`, `&` and shifts, at every width. `x >> i & 1` is `digit x i`.
mod Step
pub mod Digits
use proxy_net.Prelude.{ℕ, ◌/◌, ◌%◌, ◌^◌}

abbrev pub digit : ℕ → ℕ → ℕ
digit x i = x / 2 ^ i % 2
