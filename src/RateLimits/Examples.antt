-- ===== src/RateLimits/Examples.antt =====
-- Small runs of the rate limiters.
use Prim.Native.String.{String}
use gitrank.Common.{◌≤◌, ◌≡◌, refl, true, false, List, [], ◌∷◌, count_by, arith, trim_space}
use gitrank.Common.Int.{pos, ◌<ℤ◌}
use gitrank.Common.Clock.{Time, add}
use gitrank.RateLimits.Sliding.{RateLimiter, gateway_allow, auth_allow}
use gitrank.RateLimits.Sliding.Window.{in_window, allowed_hits, window_bounded}
use gitrank.RateLimits.Scoped.{ScopeRateLimiter, allow, judge}
use gitrank.RateLimits.Scoped.Counted.{scope_retry_allowed}

-- Two hits in ten seconds.
abbrev sliding : RateLimiter
sliding = record { window = 10_000_000_000; max_hits = 2; hits = λ key. [] }

abbrev visits : List (String × Time)
visits = ("a", 20_000_000_000) ∷ ("a", 21_000_000_000) ∷ ("a", 22_000_000_000) ∷ []

visits_allowed :
    allowed_hits gateway_allow "a" sliding visits ≡ 20_000_000_000 ∷ 21_000_000_000 ∷ []
unfolding allowed_hits gateway_allow
visits_allowed = refl

window_bounded_example :
    (count_by
        (in_window 10_000_000_000 25_000_000_000)
        (allowed_hits gateway_allow "a" sliding visits)
      ≤ 2)
    × (count_by
          (in_window 10_000_000_000 25_000_000_000)
          (allowed_hits auth_allow "a" sliding visits)
        ≤ 2)
window_bounded_example =
    window_bounded "a" 25_000_000_000 0 sliding visits (omega arith) (omega arith)

abbrev full : RateLimiter
full = record sliding { hits = λ key. 20_000_000_000 ∷ 21_000_000_000 ∷ [] }

abbrev scoped : ScopeRateLimiter
scoped = record { window = pos 10; max = pos 1; hits = λ key. record { started_at = 0; count = 0 } }

abbrev busy : ScopeRateLimiter
busy = record scoped { hits = λ key. record { started_at = 5; count = 1 } }

busy_refuses : (allow "a" 7 busy).1 ≡ false
unfolding allow judge trim_space
busy_refuses = refl

scope_retry_allowed_example :
    (pos 0 <ℤ (allow "a" 7 busy).2)
    × ((allow "a" (add 7 (allow "a" 7 busy).2) (allow "a" 7 busy).0).1 ≡ true)
    × ((allow "a" 7 busy).0.hits (trim_space "a") ≡ busy.hits (trim_space "a"))
scope_retry_allowed_example = scope_retry_allowed "a" 7 busy busy_refuses
