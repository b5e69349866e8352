-- ===== src/RateLimits/Sliding.antt =====
-- gitrank/services/api-gateway/internal/httpapi/ratelimit.go (`rateLimiter`) and
-- gitrank/services/auth-service/internal/service/ratelimit.go (`RateLimiter`): the times of the hits
-- of each key, within a sliding window. The two differ in their default limit and in the delay that a
-- refusal names. The map is a function of the key.
pub mod Window
pub mod Retry
use text.Mathlib.Text.{◌==◌ as str_eq}
use gitrank.Common.{
  ℕ, ◌≤◌, ◌<◌, ◌≡◌, Bool, true, false, leb, String, List, [], ◌∷◌, ◌++◌, length, keep,
  if◌then◌else◌,
}
use gitrank.Common.Int.{ℤ, pos, pos_part, nonpos, ltb_ℤ, ◌+ℤ◌, ◌-ℤ◌}
use gitrank.Common.Clock.{Time, Duration, sub, second, minute}

-- `window` and `max_hits` are positive once the constructor has replaced other settings.
pub record RateLimiter : Type 0 where
  pub window : ℕ
  pub max_hits : ℕ
  pub hits : String → List Time

abbrev new_limiter : ℕ → Duration → ℤ → RateLimiter
new_limiter default_hits window max_hits = record {
  window = if nonpos window then pos_part minute else pos_part window;
  max_hits = if nonpos max_hits then default_hits else pos_part max_hits;
  hits = λ key. [];
}

-- `newRateLimiter` of the gateway
unfoldable pub new_gateway_limiter : Duration → ℤ → RateLimiter
new_gateway_limiter = new_limiter 60

-- `NewRateLimiter` of the auth service
unfoldable pub new_auth_limiter : Duration → ℤ → RateLimiter
new_auth_limiter = new_limiter 30

-- hit.After(now.Add(-l.window))
abbrev pub is_recent : ℕ → Time → Time → Bool
is_recent window now hit = ltb_ℤ (pos now -ℤ pos window) (pos hit)

abbrev put : String → List Time → (String → List Time) → String → List Time
put key value hits k = if str_eq key k then value else hits k

-- kept[0].Add(l.window).Sub(now); the list is not empty where this is read.
abbrev until_free : ℕ → List Time → Time → Duration
until_free window [] now = pos 0
until_free window (hit ∷ later) now = pos hit +ℤ pos window -ℤ pos now

-- The two lower bounds on the delay.
abbrev pub at_least_second : ℕ → Duration → Duration
at_least_second window delay = if ltb_ℤ delay second then second else delay

abbrev pub window_if_negative : ℕ → Duration → Duration
window_if_negative window delay = if ltb_ℤ delay (pos 0) then pos window else delay

-- The hits of the key afterwards, whether the new one is allowed, and the delay.
unfoldable pub judge :
    (ℕ → Duration → Duration) → ℕ → ℕ → List Time → Time → List Time × Bool × Duration
judge fit window max_hits current now =
    let kept = keep (is_recent window now) current in
    if leb max_hits (length kept)
    then (kept, false, fit window (until_free window kept now))
    else (kept ++ now ∷ [], true, pos 0)

allow_with : (ℕ → Duration → Duration) → String → Time → RateLimiter → RateLimiter × Bool × Duration
unfolding judge
allow_with fit key now l =
    let (hits, allowed, delay) = judge fit l.window l.max_hits (l.hits key) now in
    (record l { hits = put key hits l.hits }, allowed, delay)

-- `rateLimiter.Allow` of the gateway
unfoldable pub gateway_allow : String → Time → RateLimiter → RateLimiter × Bool × Duration
unfolding allow_with
gateway_allow = allow_with at_least_second

-- `RateLimiter.Allow` of the auth service
unfoldable pub auth_allow : String → Time → RateLimiter → RateLimiter × Bool × Duration
unfolding allow_with
auth_allow = allow_with window_if_negative
