-- ===== src/GithubApi/Examples.antt =====
-- Small runs of the circuit breaker and of the calls behind it (gitrank/packages/githubapi).
use gitrank.Common.{ℕ, ◌≤◌, ◌<◌, ◌≡◌, refl, true, false, [], ◌∷◌, arith}
use gitrank.Common.Int.{pos}
use gitrank.GithubApi.Breaker.{
  CircuitBreaker, circuit_closed, circuit_open, circuit_half_open, new_circuit_breaker, before,
  failure,
}
use gitrank.GithubApi.Breaker.Policy.{
  asks, fails, Inv, run, run-new-Inv, fail_times, opens_at_limit, open_cools_down,
}
use gitrank.GithubApi.Client.{Attempt, refused, abandoned, do_request, query_json}
use gitrank.GithubApi.Client.Reports.{
  EndsFrom, rest_verdict, graphql_verdict, call-Ends, later_requests, abandoned_probe_sticks,
}

run-new-Inv_example :
    Inv (run (new_circuit_breaker (pos 2) (pos 30) (pos 0)) (fails 1 ∷ fails 2 ∷ asks 40 ∷ []))
run-new-Inv_example = run-new-Inv (pos 2) (pos 30) (pos 0) (fails 1 ∷ fails 2 ∷ asks 40 ∷ [])

abbrev fresh : CircuitBreaker
fresh = record {
  failure_limit = 2;
  open_interval = 30;
  half_open_limit = 1;
  state = circuit_closed;
  consecutive_fail = 0;
  opened_at = 0;
  half_open_active = 0;
}

opens_at_limit_example :
    ((fail_times (10 ∷ []) fresh).state ≡ circuit_closed)
    × ((failure 20 (fail_times (10 ∷ []) fresh)).state ≡ circuit_open)
    × ((failure 20 (fail_times (10 ∷ []) fresh)).opened_at ≡ 20)
opens_at_limit_example = opens_at_limit (10 ∷ []) 20 fresh refl refl

abbrev tripped : CircuitBreaker
tripped = record fresh { state = circuit_open; consecutive_fail = 2; opened_at = 20 }

tripped-Inv : Inv tripped
tripped-Inv = ground arith

open_cools_down_example :
    (40 < 50 → before 40 tripped ≡ (tripped, false))
    × (50 ≤ 40
        → before 40 tripped
          ≡ (record tripped { state = circuit_half_open; half_open_active = 1 }, true))
open_cools_down_example = open_cools_down 40 tripped tripped-Inv refl

-- A server error that is to be retried, with a caller who gives up at once.
abbrev given_up : ℕ → Attempt
given_up n = record {
  status = 503;
  is_error = true;
  retry = true;
  decodes = false;
  limited = false;
  rested = false;
  now = 60;
}

call-Ends_example :
    let (b', admitted) = before 60 tripped in
    (admitted ≡ false
      → (do_request 60 given_up tripped ≡ (b', refused))
        × (query_json 60 given_up tripped ≡ (b', refused)))
    × (admitted ≡ true
        → EndsFrom rest_verdict given_up b' 0 (do_request 60 given_up tripped)
          × EndsFrom graphql_verdict given_up b' 0 (query_json 60 given_up tripped))
call-Ends_example = call-Ends 60 given_up tripped

gives_up : (do_request 60 given_up tripped).1 ≡ abandoned
unfolding do_request before
gives_up = refl

abandoned_probe_sticks_example :
    later_requests ((1_000_000, given_up) ∷ []) (do_request 60 given_up tripped).0
    ≡ ((do_request 60 given_up tripped).0, refused ∷ [])
abandoned_probe_sticks_example =
    abandoned_probe_sticks 60 given_up ((1_000_000, given_up) ∷ []) tripped tripped-Inv refl
      (omega arith) refl gives_up
