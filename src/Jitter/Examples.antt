-- ===== src/Jitter/Examples.antt =====
-- Runs of core/voice_jitter.py at concrete inputs.
use proxy_net.Prelude.{
  ℕ, ◌+◌, ◌*◌, ◌≡◌, All, refl, [], ◌∷◌, List, arith, true, false, none, some, Option, ok, err,
  nat_eq,
}
use proxy_net.Bytes.{Bytes}
use proxy_net.Dict.{get, put, contains, remove}
use proxy_net.Jitter.{
  JitterBuffer, bad_capacity, new, push, pop, play, greatest, span, depth_frames, catch_up,
  catch_up_every, melt, drop_head, skip_missing_head, take_next, restart, reset,
}
use proxy_net.Jitter.Slot.{IsValid, got, DropRate}
use proxy_net.Jitter.Pop.{pop-IsValid, pop-slots}
use proxy_net.Jitter.Runs.{Call, pushes, pops, resets, run, run-IsValid}
use proxy_net.Jitter.Runs.Order.{run-Ascending, Ascending}
use proxy_net.Jitter.Runs.Genuine.{run-genuine}

-- A buffer with a target of two frames and a slack of one that has just played number 4.
abbrev sample : JitterBuffer
sample = record {
  target_ms = 40;
  frame_ms = 20;
  capacity = 50;
  target_frames = 2;
  catchup_slack_frames = 1;
  catchup_interval = some 5;
  frames = (6, 60 ∷ []) ∷ (5, 50 ∷ []) ∷ (7, 70 ∷ []) ∷ (8, 80 ∷ []) ∷ [];
  next = 5;
  playing = true;
  catching_up = false;
  pops_since_drop = 5;
  lost = 0;
  late = 0;
  duplicate = 0;
  overflow = 0;
  resync = 0;
  underrun = 0;
  dropped = 0;
  skipped = 0;
}

-- The buffer is two frames too deep: number 5 is dropped and number 6 played.
abbrev sample_popped : JitterBuffer
sample_popped = record sample {
  frames = (7, 70 ∷ []) ∷ (8, 80 ∷ []) ∷ [];
  next = 7;
  catching_up = true;
  pops_since_drop = 1;
  dropped = 1;
}

pop-sample : pop sample ≡ ok (some (60 ∷ []), sample_popped)
unfolding pop play catch_up catch_up_every melt drop_head skip_missing_head take_next depth_frames
    span greatest get contains remove
pop-sample = refl

new_bad_capacity : new 60 20 0 40 (some 5) ≡ err bad_capacity
unfolding new
new_bad_capacity = refl

push_late : (push sample 4 []).1 ≡ false
unfolding push
push_late = refl

push_far : (push sample 90 []).0.frames ≡ (90, []) ∷ []
unfolding push restart
push_far = refl

sample-IsValid : IsValid sample
unfolding get
sample-IsValid = record {
  distinct = (refl, (refl, (refl, (refl, tt))));
  bounded = omega arith;
  some_capacity = omega arith;
  some_target = omega arith;
  ahead = λ p k v g. ground arith;
}

pop-IsValid_example : (r : Option Bytes) × (c : JitterBuffer) × (pop sample ≡ ok (r, c)) × IsValid c
pop-IsValid_example = pop-IsValid sample sample-IsValid

pop-slots_example :
    (sample_popped.next + sample.skipped + sample.dropped
      ≡ sample.next + sample_popped.skipped + sample_popped.dropped + 1)
    × (sample_popped.lost + got (some (60 ∷ [])) ≡ sample.lost + 1)
    × DropRate sample.catchup_interval sample sample_popped
pop-slots_example =
    pop-slots sample (some (60 ∷ [])) sample_popped sample-IsValid refl (omega arith) pop-sample

abbrev calls : List Call
calls = pushes 9 (90 ∷ []) ∷ pops ∷ []

abbrev after_calls : JitterBuffer
after_calls = record sample_popped { frames = (7, 70 ∷ []) ∷ (8, 80 ∷ []) ∷ (9, 90 ∷ []) ∷ [] }

run-sample : run calls sample ≡ ok ((6, 60 ∷ []) ∷ [], after_calls)
unfolding run push put pop play catch_up catch_up_every melt drop_head skip_missing_head take_next
    depth_frames span greatest get contains remove
run-sample = refl

-- The same calls, and then a reset between two frames.
abbrev calls_with_reset : List Call
calls_with_reset = pushes 9 (90 ∷ []) ∷ pops ∷ resets ∷ pushes 4 (40 ∷ []) ∷ pops ∷ []

run-IsValid_example :
    (heard : List (ℕ × Bytes)) × (d : JitterBuffer) × (run calls_with_reset sample ≡ ok (heard, d))
    × IsValid d
    × (pop (reset d) ≡ ok (none, reset d))
run-IsValid_example = run-IsValid calls_with_reset sample sample-IsValid

run-Ascending_example : Ascending 5 ((6, 60 ∷ []) ∷ [])
run-Ascending_example =
    run-Ascending calls sample ((6, 60 ∷ []) ∷ []) after_calls sample-IsValid refl tt run-sample
      refl refl

sample_payloads : (k : ℕ) (v : Bytes) → get sample.frames k ≡ some v → v ≡ (10 * k) ∷ []
unfolding get
sample_payloads k v g = ground arith

-- Here: the payload of slot k is the one byte 10 * k.
run-genuine_example : All (λ (frame : ℕ × Bytes). frame.1 ≡ (10 * frame.0) ∷ []) ((6, 60 ∷ []) ∷ [])
run-genuine_example =
    run-genuine (λ k v. v ≡ (10 * k) ∷ []) calls sample ((6, 60 ∷ []) ∷ []) after_calls
      sample-IsValid sample_payloads (refl, tt) run-sample
