-- ===== src/GithubApi/Breaker/Policy.antt =====
-- The states that a circuit breaker (gitrank/packages/githubapi/circuitbreaker.go) goes through.
use gitrank.Common.{
  suc, ◌+◌, ◌≤◌, ◌<◌, ◌≡◌, refl, ◌≢◌, true, false, List, [], ◌∷◌, length, ◌∙◌, arith,
}
use gitrank.Common.Int.{ℤ}
use gitrank.Common.Clock.{Time, Duration}
use gitrank.GithubApi.Breaker.{
  CircuitBreaker, circuit_closed, circuit_open, circuit_half_open, new_circuit_breaker, before,
  success, failure,
}

pub data Event : Type 0 where
  asks : Time → Event
  succeeds : Event
  fails : Time → Event

pub step : CircuitBreaker → Event → CircuitBreaker
step b (asks now) = (before now b).0
step b succeeds = success b
step b (fails now) = failure now b

pub run : CircuitBreaker → List Event → CircuitBreaker
unfolding step
run b [] = b
run b (e ∷ es) = run (step b e) es

pub record Inv (b : CircuitBreaker) : Type 0 where
  pub failure_limit_positive : 0 < b.failure_limit
  pub half_open_limit_positive : 0 < b.half_open_limit
  pub probes_bounded : b.half_open_active ≤ b.half_open_limit
  pub probes_only_half_open : b.state ≢ circuit_half_open → b.half_open_active ≡ 0
  pub closed_below_limit : b.state ≡ circuit_closed → b.consecutive_fail < b.failure_limit

new-Inv :
    (failure_limit : ℤ) (open_interval : Duration) (half_open_limit : ℤ)
    → Inv (new_circuit_breaker failure_limit open_interval half_open_limit)
unfolding new_circuit_breaker
new-Inv failure_limit open_interval half_open_limit = ground arith

step-Inv : (b : CircuitBreaker) (e : Event) → Inv b → Inv (step b e)
unfolding step before success failure
step-Inv b (asks now) v = ground arith
step-Inv b succeeds v = ground arith
step-Inv b (fails now) v = ground arith

run-Inv : (b : CircuitBreaker) (es : List Event) → Inv b → Inv (run b es)
unfolding run
run-Inv b [] v = v
run-Inv b (e ∷ es) v = run-Inv (step b e) es (step-Inv b e v)

-- Under any settings and any sequence of requests and results, a breaker's count of probes in flight
-- keeps to its half-open limit and is 0 unless the breaker is half open, and the breaker is closed
-- only while fewer failures in a row were counted than its limit. The count is what the breaker
-- knows: a trip sets it to 0, whatever probes are still out.
pub run-new-Inv :
    (failure_limit : ℤ) (open_interval : Duration) (half_open_limit : ℤ) (es : List Event)
    → Inv (run (new_circuit_breaker failure_limit open_interval half_open_limit) es)
run-new-Inv failure_limit open_interval half_open_limit es =
    run-Inv _ es (new-Inv failure_limit open_interval half_open_limit)

-- One failure after another, at the given times.
pub fail_times : List Time → CircuitBreaker → CircuitBreaker
fail_times [] b = b
fail_times (now ∷ ts) b = fail_times ts (failure now b)

failure_once :
    (now : Time) (b : CircuitBreaker)
    → b.state ≡ circuit_closed
    → suc b.consecutive_fail < b.failure_limit
    → ((failure now b).state ≡ circuit_closed)
      × ((failure now b).consecutive_fail ≡ suc b.consecutive_fail)
      × ((failure now b).failure_limit ≡ b.failure_limit)
unfolding failure
failure_once now b c h = ground arith

failures_counted :
    (ts : List Time) (b : CircuitBreaker)
    → b.state ≡ circuit_closed
    → b.consecutive_fail + length ts < b.failure_limit
    → ((fail_times ts b).state ≡ circuit_closed)
      × ((fail_times ts b).consecutive_fail ≡ b.consecutive_fail + length ts)
      × ((fail_times ts b).failure_limit ≡ b.failure_limit)
unfolding fail_times
failures_counted [] b c h = (c, omega arith, refl)
failures_counted (now ∷ ts) b c h =
    let once = failure_once now b c (omega arith) in
    let rest = failures_counted ts (failure now b) once.0 (omega (arith, once)) in
    (rest.0, omega (arith, once, rest), rest.2 ∙ once.2)

trips :
    (now : Time) (b : CircuitBreaker)
    → b.state ≡ circuit_closed
    → suc b.consecutive_fail ≡ b.failure_limit
    → ((failure now b).state ≡ circuit_open) × ((failure now b).opened_at ≡ now)
unfolding failure
trips now b c h = ground arith

-- A closed breaker stays closed while the failures in a row are fewer than its limit, and the one
-- that makes up the limit opens it, at its time.
pub opens_at_limit :
    (ts : List Time) (now : Time) (b : CircuitBreaker)
    → b.state ≡ circuit_closed
    → b.consecutive_fail + length ts + 1 ≡ b.failure_limit
    → ((fail_times ts b).state ≡ circuit_closed)
      × ((failure now (fail_times ts b)).state ≡ circuit_open)
      × ((failure now (fail_times ts b)).opened_at ≡ now)
opens_at_limit ts now b c h =
    let counted = failures_counted ts b c (omega arith) in
    let tripped = trips now (fail_times ts b) counted.0 (omega (arith, counted)) in
    (counted.0, tripped.0, tripped.1)

-- While its interval runs, an open breaker refuses every request and does not change; the first
-- request after that is let through as the one probe of a half-open breaker.
pub open_cools_down :
    (now : Time) (b : CircuitBreaker)
    → Inv b
    → b.state ≡ circuit_open
    → (now < b.opened_at + b.open_interval → before now b ≡ (b, false))
      × (b.opened_at + b.open_interval ≤ now
          → before now b ≡ (record b { state = circuit_half_open; half_open_active = 1 }, true))
unfolding before
open_cools_down now b v c = (λ h. ground arith, λ h. ground arith)

-- Every slot of a half-open breaker is taken.
abbrev pub IsFull : CircuitBreaker → Type 0
IsFull b = (b.state ≡ circuit_half_open) × (b.half_open_limit ≤ b.half_open_active)

-- A half-open breaker whose probes are all out refuses, at every time.
pub full_refuses : (now : Time) (b : CircuitBreaker) → IsFull b → before now b ≡ (b, false)
unfolding before
full_refuses now b f = ground arith
