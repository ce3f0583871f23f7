-- ===== src/Replay/Examples.antt =====
-- Runs of `ReplayWindow` at concrete inputs.
use proxy_net.Prelude.{◌≡◌, refl, [], ◌∷◌, none, some, ◌^◌, ◌-◌}
use proxy_net.Replay.{ReplayWindow, new, check}
use proxy_net.Replay.Window.{Tracks}
use proxy_net.Replay.Check.{Answers, check-Answers, new-Tracks}
use proxy_net.Replay.Runs.{run, NoRepeats, run-NoRepeats}

abbrev fresh_window : ReplayWindow
fresh_window = record { size = 64; mask = 2 ^ 64 - 1; highest = none; seen = 0 }

new_window : new 64 ≡ some fresh_window
unfolding new
new_window = refl

-- 7 arrives again, 5 late, 80 jumps past the window, 16 is then too old and 17 is not.
run-sample :
    (run (7 ∷ 9 ∷ 7 ∷ 5 ∷ 80 ∷ 16 ∷ 17 ∷ 17 ∷ []) fresh_window []).1 ≡ 17 ∷ 80 ∷ 5 ∷ 9 ∷ 7 ∷ []
unfolding run check
run-sample = refl

check-Answers_example : Answers none fresh_window [] 7 (check fresh_window 7)
check-Answers_example = check-Answers fresh_window [] 7 (new-Tracks 64 fresh_window new_window)

run-NoRepeats_example :
    NoRepeats (run (7 ∷ 9 ∷ 7 ∷ []) fresh_window []).1
    × Tracks (run (7 ∷ 9 ∷ 7 ∷ []) fresh_window []).0 (run (7 ∷ 9 ∷ 7 ∷ []) fresh_window []).1
run-NoRepeats_example = run-NoRepeats 64 fresh_window (7 ∷ 9 ∷ 7 ∷ []) new_window
