-- ===== src/Replay/Runs.antt =====
-- `ReplayWindow` over any sequence of arriving numbers.
use proxy_net.Prelude.{
  ℕ, ◌≡◌, refl, List, [], ◌∷◌, Bool, true, false, Option, none, some, arith, sym, ◌∙◌,
}
use proxy_net.Replay.{ReplayWindow, new, check}
use proxy_net.Replay.Window.{is_in, Tracks, TracksFrom, is_fresh_from, is_in-above}
use proxy_net.Replay.Check.{remember, check-Answers, new-Tracks}

-- The numbers accepted, the latest first.
unfoldable pub run : List ℕ → ReplayWindow → List ℕ → ReplayWindow × List ℕ
run [] w l = (w, l)
run (n ∷ ns) w l = let (w', accepted) = check w n in run ns w' (remember accepted n l)

abbrev pub NoRepeats : List ℕ → Type 0
NoRepeats [] = Unit
NoRepeats (n ∷ l) = (is_in n l ≡ false) × NoRepeats l

pub fresh_not_in :
    (o : Option ℕ) (w : ReplayWindow) (l : List ℕ) (n : ℕ)
    → TracksFrom o w l
    → is_fresh_from o w.size l n ≡ true
    → is_in n l ≡ false
unfolding is_in
fresh_not_in none w l n e f = rw e refl
fresh_not_in (some h) w l n m f = ground (arith, is_in-above h n l m.at_most)

pub remember-NoRepeats :
    (accepted : Bool) (n : ℕ) (l : List ℕ)
    → (accepted ≡ true → is_in n l ≡ false)
    → NoRepeats l
    → NoRepeats (remember accepted n l)
remember-NoRepeats true n l h r = (h refl, r)
remember-NoRepeats false n l h r = r

run_from :
    (ns : List ℕ) (w : ReplayWindow) (l : List ℕ)
    → Tracks w l
    → NoRepeats l
    → Tracks (run ns w l).0 (run ns w l).1 × NoRepeats (run ns w l).1
unfolding run
run_from [] w l t r = (t, r)
run_from (n ∷ ns) w l t r =
    let a = check-Answers w l n t in
    run_from ns (check w n).0 (remember (check w n).1 n l) a.tracks (
      remember-NoRepeats (check w n).1 n l
        (λ e. fresh_not_in w.highest w l n t.map (sym a.verdict ∙ e)) r)

-- From a new window, whatever numbers arrive and however often, no number is accepted twice, and
-- the window tracks exactly the accepted ones.
pub run-NoRepeats :
    (size : ℕ) (w : ReplayWindow) (ns : List ℕ)
    → new size ≡ some w
    → NoRepeats (run ns w []).1 × Tracks (run ns w []).0 (run ns w []).1
run-NoRepeats size w ns e = let (t, r) = run_from ns w [] (new-Tracks size w e) tt in (r, t)
