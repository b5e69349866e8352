-- ===== src/GithubApi/Breaker.antt =====
-- gitrank/packages/githubapi/circuitbreaker.go. Each method holds the breaker's mutex, so it is one
-- step on the state. The clients always have a breaker, so its nil receiver is left out.
pub mod Policy
use gitrank.Common.{ℕ, suc, ◌≤◌, ◌<◌, ◌≡◌, ◌≢◌, Bool, true, false, leb, if◌then◌else◌}
use gitrank.Common.Int.{ℤ, pos, pos_part, nonpos, ltb_ℤ}
use gitrank.Common.Clock.{Time, Duration, sub, zero_time}

pub data CircuitState : Type 0 where
  circuit_closed circuit_open circuit_half_open : CircuitState

-- The three settings are positive once `newCircuitBreaker` has replaced the others.
pub record CircuitBreaker : Type 0 where
  pub failure_limit : ℕ
  pub open_interval : ℕ
  pub half_open_limit : ℕ
  pub state : CircuitState
  pub consecutive_fail : ℕ
  pub opened_at : Time
  pub half_open_active : ℕ

abbrev or_default : ℤ → ℕ → ℕ
or_default setting fallback = if nonpos setting then fallback else pos_part setting

-- `newCircuitBreaker`
unfoldable pub new_circuit_breaker : ℤ → Duration → ℤ → CircuitBreaker
new_circuit_breaker failure_limit open_interval half_open_limit = record {
  failure_limit = or_default failure_limit 5;
  open_interval = or_default open_interval 30_000_000_000;
  half_open_limit = or_default half_open_limit 1;
  state = circuit_closed;
  consecutive_fail = 0;
  opened_at = zero_time;
  half_open_active = 0;
}

-- The second `if` of `before`: a probe is let through while there is room.
probe : CircuitBreaker → CircuitBreaker × Bool
probe b =
    if leb b.half_open_limit b.half_open_active
    then (b, false)
    else (record b { half_open_active = suc b.half_open_active }, true)

dispatch : CircuitState → Time → CircuitBreaker → CircuitBreaker × Bool
unfolding probe
dispatch circuit_closed now b = (b, true)
dispatch circuit_half_open now b = probe b
dispatch circuit_open now b =
    if ltb_ℤ (sub now b.opened_at) (pos b.open_interval)
    then (b, false)
    else probe (record b { state = circuit_half_open; half_open_active = 0 })

-- `before`; the Boolean is false for `ErrCircuitOpen`.
unfoldable pub before : Time → CircuitBreaker → CircuitBreaker × Bool
unfolding dispatch
before now b = dispatch b.state now b

-- `success`
unfoldable pub success : CircuitBreaker → CircuitBreaker
success b = record b {
  state = circuit_closed;
  consecutive_fail = 0;
  opened_at = zero_time;
  half_open_active = 0;
}

abbrev trip : Time → CircuitBreaker → CircuitBreaker
trip now b = record b { state = circuit_open; opened_at = now; half_open_active = 0 }

count_failure : Time → CircuitBreaker → CircuitBreaker
count_failure now b =
    let counted = record b { consecutive_fail = suc b.consecutive_fail } in
    if leb counted.failure_limit counted.consecutive_fail then trip now counted else counted

fail_in : CircuitState → Time → CircuitBreaker → CircuitBreaker
unfolding count_failure
fail_in circuit_half_open now b = trip now b
fail_in circuit_closed now b = count_failure now b
fail_in circuit_open now b = count_failure now b

-- `failure`
unfoldable pub failure : Time → CircuitBreaker → CircuitBreaker
unfolding fail_in
failure now b = fail_in b.state now b
