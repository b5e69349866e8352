-- ===== src/RateLimits/Scoped.antt =====
-- gitrank/services/scheduler-worker/internal/service/ratelimit.go: `scopeRateLimiter`, which counts
-- the hits of a key in windows that start with its first hit.
pub mod Counted
use text.Mathlib.Text.{◌==◌ as str_eq}
use gitrank.Common.{ℕ, suc, Bool, true, false, ◌||◌, leb, String, if◌then◌else◌, trim_space}
use gitrank.Common.Int.{ℤ, pos, nonpos, leb_ℤ, ◌-ℤ◌}
use gitrank.Common.Clock.{Time, Duration, sub, is_zero, zero_time}

pub record ScopeWindow : Type 0 where
  pub started_at : Time
  pub count : ℕ

-- The zero value of the struct, which a missing key yields.
abbrev pub no_window : ScopeWindow
no_window = record { started_at = zero_time; count = 0 }

-- The map is a function of the key.
pub record ScopeRateLimiter : Type 0 where
  pub window : Duration
  pub max : ℤ
  pub hits : String → ScopeWindow

-- `newScopeRateLimiter`; the nil limiter, which allows all, is one whose `max` is 0.
unfoldable pub new_scope_limiter : Duration → ℤ → ScopeRateLimiter
new_scope_limiter window max = record { window = window; max = max; hits = λ key. no_window }

abbrev put : String → ScopeWindow → (String → ScopeWindow) → String → ScopeWindow
put key value hits k = if str_eq key k then value else hits k

-- The window of the key afterwards, whether the hit is allowed, and the delay.
unfoldable pub judge : Duration → ℤ → ScopeWindow → Time → ScopeWindow × Bool × Duration
judge window max current now =
    if is_zero current.started_at || leb_ℤ window (sub now current.started_at)
    then (record { started_at = now; count = 1 }, true, pos 0)
    else if leb_ℤ max (pos current.count)
    then (current, false, window -ℤ sub now current.started_at)
    else (record current { count = suc current.count }, true, pos 0)

-- `Allow`
unfoldable pub allow : String → Time → ScopeRateLimiter → ScopeRateLimiter × Bool × Duration
allow key now l =
    let k = trim_space key in
    let (current, allowed, delay) = judge l.window l.max (l.hits k) now in
    if nonpos l.max || nonpos l.window || str_eq k ""
    then (l, true, pos 0)
    else (record l { hits = put k current l.hits }, allowed, delay)
