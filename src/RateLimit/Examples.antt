-- ===== src/RateLimit/Examples.antt =====
-- Runs of `RateLimiter` at concrete inputs.
use proxy_net.Prelude.{◌≤◌, ◌≡◌, refl, [], ◌∷◌, arith}
use proxy_net.RateLimit.{RateLimiter, new, allow, expire}
use proxy_net.RateLimit.Window.{count_within}
use proxy_net.RateLimit.Limit.{run, run_within_limit, Tracks}

-- Two events in ten ticks: the third call is refused, the fourth comes late enough.
run-sample : (run (new 2 10) [] (1 ∷ 5 ∷ 9 ∷ 12 ∷ [])).1 ≡ 1 ∷ 5 ∷ 12 ∷ []
unfolding run allow expire
run-sample = refl

run_within_limit_example : count_within 3 10 (run (new 2 10) [] (1 ∷ 5 ∷ 9 ∷ 12 ∷ [])).1 ≤ 2
run_within_limit_example = run_within_limit 2 10 3 12 (1 ∷ 5 ∷ 9 ∷ 12 ∷ []) (omega arith)

abbrev full_limiter : RateLimiter
full_limiter = record { max_events = 2; window = 10; events = 1 ∷ 5 ∷ [] }

full_limiter-Tracks : Tracks full_limiter (1 ∷ 5 ∷ []) 5
unfolding count_within
full_limiter-Tracks = record {
  dropped = [];
  split = refl;
  expired = tt;
  ordered = omega arith;
  within_limit = λ t. ground arith;
}
