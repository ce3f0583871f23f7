-- ===== src/Replay.antt =====
-- `ReplayWindow` of core/voice_crypto.py: sequence numbers seen, in a sliding bit map.
pub mod Window
pub mod Check
pub mod Runs
mod Examples
use Prim.Native.Nat.{bit_and, bit_or}
use proxy_net.Prelude.{
  ℕ, ◌-◌, ◌*◌, ◌/◌, ◌^◌, Bool, true, false, Option, none, some, ltb, leb, eqb, if◌then◌else◌,
}

-- `highest` is none where the source keeps -1. `mask` holds `size` ones.
pub record ReplayWindow : Type 0 where
  pub size : ℕ
  pub mask : ℕ
  pub highest : Option ℕ
  pub seen : ℕ

abbrev pub replay_window_size : ℕ
replay_window_size = 64

-- The constructor refuses a size of 0.
unfoldable pub new : ℕ → Option ReplayWindow
new size =
    if ltb size 1
    then none
    else some (record { size = size; mask = 1 * 2 ^ size - 1; highest = none; seen = 0 })

-- The part of `check` behind the first number; the shifts of the source are written with powers.
unfoldable pub check_after : ReplayWindow → ℕ → ℕ → ReplayWindow × Bool
check_after w highest sequence =
    if ltb highest sequence
    then (let shift = sequence - highest in
        (
          record w {
            seen = if leb w.size shift then 1 else bit_and (bit_or (w.seen * 2 ^ shift) 1) w.mask;
            highest = some sequence;
          },
          true,
        ))
    else (let offset = highest - sequence in
        if leb w.size offset
        then (w, false)
        else if eqb (bit_and (w.seen / 2 ^ offset) 1) 0
        then (record w { seen = bit_or w.seen (1 * 2 ^ offset) }, true)
        else (w, false))

unfoldable pub check_from : Option ℕ → ReplayWindow → ℕ → ReplayWindow × Bool
unfolding check_after
check_from none w sequence = (record w { highest = some sequence; seen = 1 }, true)
check_from (some highest) w sequence = check_after w highest sequence

unfoldable pub check : ReplayWindow → ℕ → ReplayWindow × Bool
unfolding check_from
check w sequence = check_from w.highest w sequence

unfoldable pub reset : ReplayWindow → ReplayWindow
reset w = record w { highest = none; seen = 0 }
