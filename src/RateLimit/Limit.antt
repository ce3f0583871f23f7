-- ===== src/RateLimit/Limit.antt =====
-- `RateLimiter` of core/server.py keeps its limit over any interval, and refuses no call too soon.
use mathlib.Core.Path.{subst₂}
use proxy_net.Prelude.{
  ℕ, ◌-◌, ◌≤◌, ◌<◌, ◌≡◌, refl, inl, inr, List, [], ◌∷◌, ◌++◌, append_assoc, Bool, true, false, leb,
  length, arith, Bool-cases, ap, sym, ◌∙◌, ◌↔◌,
}
use proxy_net.RateLimit.{RateLimiter, new, expire, allow}
use proxy_net.RateLimit.Window.{
  count_within, Expired, Ordered, count_within-append, count_within-le, count_one,
  count_within-Expired, Expired-mono, Expired-append, expire-splits, expire-Ordered, Ordered-upper,
  Ordered-snoc, live_within,
}

-- The limiter after events were allowed at the moments `allowed`, the last call being at `last`.
pub record Tracks (l : RateLimiter) (allowed : List ℕ) (last : ℕ) : Type 0 where
  pub dropped : List ℕ
  pub split : allowed ≡ dropped ++ l.events
  pub expired : Expired l.window last dropped
  pub ordered : Ordered 0 last l.events
  pub within_limit : (t : ℕ) → count_within t l.window allowed ≤ l.max_events

-- The events allowed after one more call.
abbrev pub record_event : Bool → ℕ → List ℕ → List ℕ
record_event true moment allowed = allowed ++ moment ∷ []
record_event false moment allowed = allowed

pub allow-Tracks :
    (l : RateLimiter) (allowed : List ℕ) (last moment : ℕ)
    → Tracks l allowed last
    → last ≤ moment
    → Tracks (allow l moment).0 (record_event (allow l moment).1 moment allowed) moment
unfolding allow
allow-Tracks l allowed last moment k le =
    let (gone, parts, x) = expire-splits l.window moment l.events in
    let live = expire l.window moment l.events in
    let split : allowed ≡ (k.dropped ++ gone) ++ live =
      k.split ∙ ap (◌++◌ k.dropped) parts ∙ sym (append_assoc k.dropped gone live) in
    let kept : Ordered 0 moment live =
      expire-Ordered l.window moment 0 moment l.events (Ordered-upper 0 l.events le k.ordered) in
    let expired =
      Expired-append l.window moment k.dropped gone (Expired-mono l.window k.dropped le k.expired)
        x in
    elim (Bool-cases (leb l.max_events (length live))) [
      | inl full ↦ simp full (record {
        dropped = k.dropped ++ gone;
        split = split;
        expired = expired;
        ordered = kept;
        within_limit = k.within_limit;
      })
      | inr room ↦ simp room (record {
        dropped = k.dropped ++ gone;
        split =
            ap (λ (z : List ℕ). z ++ moment ∷ []) split
            ∙ append_assoc (k.dropped ++ gone) live (moment ∷ []);
        expired = expired;
        ordered = Ordered-snoc 0 moment moment live (omega arith) kept;
        within_limit = λ t. one_more t live (k.dropped ++ gone) split expired (ground arith);
      })
    ]
  where
    one_more :
        (t : ℕ) (live old : List ℕ)
        → allowed ≡ old ++ live
        → Expired l.window moment old
        → length live < l.max_events
        → count_within t l.window (allowed ++ moment ∷ []) ≤ l.max_events
    one_more t live old split expired room = ground (
      arith,
      count_within-append t l.window allowed (moment ∷ []),
      ap (count_within t l.window) split ∙ count_within-append t l.window old live,
      count_within-Expired t l.window moment old expired,
      count_within-le t l.window live,
      count_one t l.window moment,
      k.within_limit t,
    )

-- A call is refused exactly if `max_events` events were allowed within the window that ends at the
-- moment of the call.
allow_refuses_iff :
    (l : RateLimiter) (allowed : List ℕ) (last moment : ℕ)
    → Tracks l allowed last
    → last ≤ moment
    → ((allow l moment).1 ≡ false)
      ↔ (count_within (moment - l.window) l.window allowed ≡ l.max_events)
unfolding allow
allow_refuses_iff l allowed last moment k le =
    let (gone, parts, x) = expire-splits l.window moment l.events in
    let live = expire l.window moment l.events in
    let counted : count_within (moment - l.window) l.window allowed ≡ length live = omega (
      arith,
      ap (count_within (moment - l.window) l.window) k.split
          ∙ count_within-append (moment - l.window) l.window k.dropped l.events,
      ap (count_within (moment - l.window) l.window) parts
          ∙ count_within-append (moment - l.window) l.window gone live,
      count_within-Expired (moment - l.window) l.window moment k.dropped
          (Expired-mono l.window k.dropped le k.expired) (omega arith),
      count_within-Expired (moment - l.window) l.window moment gone x (omega arith),
      live_within l.window moment 0 last l.events k.ordered le,
    ) in
    ground (arith, counted, k.within_limit (moment - l.window))

-- The moments allowed out of a series of calls.
unfoldable pub run : RateLimiter → List ℕ → List ℕ → RateLimiter × List ℕ
run l allowed [] = (l, allowed)
run l allowed (moment ∷ moments) =
    let (l', accepted) = allow l moment in run l' (record_event accepted moment allowed) moments

same_limits :
    (l : RateLimiter) (moment : ℕ)
    → ((allow l moment).0.window ≡ l.window) × ((allow l moment).0.max_events ≡ l.max_events)
unfolding allow
same_limits l moment = ground arith

run_from :
    (l : RateLimiter) (allowed moments : List ℕ) (last hi t : ℕ)
    → Tracks l allowed last
    → Ordered last hi moments
    → count_within t l.window (run l allowed moments).1 ≤ l.max_events
unfolding run
run_from l allowed [] last hi t k o = k.within_limit t
run_from l allowed (m ∷ ms) last hi t k o =
    let (w, n) = same_limits l m in
    subst₂ (λ x y. count_within t x (run l allowed (m ∷ ms)).1 ≤ y) w n
      (run_from (allow l m).0 (record_event (allow l m).1 m allowed) ms m hi t
        (allow-Tracks l allowed last m k o.0) o.1)

-- Whatever calls a client makes, at moments that do not go back, at most `max_events` of them are
-- allowed within any interval as long as the window.
pub run_within_limit :
    (max_events window t hi : ℕ) (moments : List ℕ)
    → Ordered 0 hi moments
    → count_within t window (run (new max_events window) [] moments).1 ≤ max_events
unfolding count_within
run_within_limit max_events window t hi moments o =
    run_from (new max_events window) [] moments 0 hi t
      (record {
        dropped = [];
        split = refl;
        expired = tt;
        ordered = omega arith;
        within_limit = λ u. omega arith;
      })
      o
