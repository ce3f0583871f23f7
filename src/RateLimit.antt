-- ===== src/RateLimit.antt =====
-- `RateLimiter` of core/server.py: at most so many events within a sliding window. Moments are
-- readings of the monotonic clock, as numbers.
pub mod Window
pub mod Limit
mod Examples
use proxy_net.Prelude.{
  ℕ, ◌+◌, List, [], ◌∷◌, ◌++◌, Bool, true, false, ltb, leb, if◌then◌else◌, length,
}

pub record RateLimiter : Type 0 where
  pub max_events : ℕ
  pub window : ℕ
  pub events : List ℕ

abbrev pub new : ℕ → ℕ → RateLimiter
new max_events window = record { max_events = max_events; window = window; events = [] }

-- The loop of `allow`: old events leave at the front.
unfoldable pub expire : ℕ → ℕ → List ℕ → List ℕ
expire window moment [] = []
expire window moment (e ∷ events) =
    if ltb (e + window) moment then expire window moment events else e ∷ events

unfoldable pub allow : RateLimiter → ℕ → RateLimiter × Bool
allow l moment =
    let live = expire l.window moment l.events in
    if leb l.max_events (length live)
    then (record l { events = live }, false)
    else (record l { events = live ++ moment ∷ [] }, true)
