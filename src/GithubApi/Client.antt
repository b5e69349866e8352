-- ===== src/GithubApi/Client.antt =====
-- gitrank/packages/githubapi/client.go: how `RESTClient.do` and `GraphQLClient.QueryJSON` use the
-- circuit breaker around their three attempts. What the network, the server and the caller's context
-- do is an argument: the outcome of each attempt. Requests, bodies and headers are not modelled.
pub mod Reports
use gitrank.Common.{
  ℕ, zero, suc, ◌≤◌, ◌<◌, ◌≡◌, Bool, true, false, not, ◌||◌, ◌==◌, ltb, leb, if◌then◌else◌, List,
}
use gitrank.Common.Clock.{Time}
use gitrank.GithubApi.Breaker.{CircuitBreaker, before, success, failure}

-- One call of `once` and what follows it.
pub record Attempt : Type 0 where
  pub status : ℕ  -- `meta.StatusCode`, 0 where there was no response
  pub is_error : Bool  -- `err != nil`
  pub retry : Bool
  pub decodes : Bool  -- the response body is unmarshalled without error
  pub limited : Bool  -- `isGraphQLRateLimit` of the errors in the body
  pub rested : Bool  -- `sleepWithContext` returns nil: the caller did not give up in the wait
  pub now : Time  -- the clock's reading where a result is reported

pub data Outcome : Type 0 where
  refused : Outcome  -- `ErrCircuitOpen`
  answered : Outcome
  failed : Outcome
  abandoned : Outcome  -- the context was done during the wait for the next attempt

-- `isCircuitFailureStatus`
abbrev pub is_circuit_failure_status : ℕ → Bool
is_circuit_failure_status status = status == 0 || (status == 429 || leb 500 status)

-- `observeCircuitResult`
unfoldable pub observe : Attempt → CircuitBreaker → CircuitBreaker
observe a b =
    if is_circuit_failure_status a.status
    then failure a.now b
    else if ltb 0 a.status
    then success b
    else b

-- The loop of `RESTClient.do` from attempt `n` on, with `left` rounds of it to go.
unfoldable pub do_loop : (ℕ → Attempt) → ℕ → ℕ → CircuitBreaker → CircuitBreaker × Outcome
unfolding observe
do_loop env zero n b = (b, failed)
do_loop env (suc left) n b =
    let a = env n in
    let again = do_loop env left (suc n) b in
    if not a.is_error
    then (success b, answered)
    else if not a.retry
    then (observe a b, failed)
    else if leb 2 n
    then (observe a b, failed)
    else if not a.rested
    then (b, abandoned)
    else again

-- `RESTClient.do` from the request to the breaker on; `start` is the clock's reading there.
unfoldable pub do_request : Time → (ℕ → Attempt) → CircuitBreaker → CircuitBreaker × Outcome
unfolding do_loop
do_request start env b =
    let (b', admitted) = before start b in
    let run = do_loop env 3 0 b' in if admitted then run else (b', refused)

-- The loop of `QueryJSON`. A rate limit reported in a decoded body is retried like an error.
unfoldable pub query_loop : (ℕ → Attempt) → ℕ → ℕ → CircuitBreaker → CircuitBreaker × Outcome
unfolding observe
query_loop env zero n b = (b, failed)
query_loop env (suc left) n b =
    let a = env n in
    let rest = query_loop env left (suc n) b in
    let retried =
      if leb 2 n then (observe a b, failed) else if not a.rested then (b, abandoned) else rest in
    if not a.is_error
    then (if not a.decodes
        then (observe a b, failed)
        else if a.limited
        then retried
        else (success b, answered))
    else if not a.retry
    then (observe a b, failed)
    else retried

-- `QueryJSON` once its query is encoded.
unfoldable pub query_json : Time → (ℕ → Attempt) → CircuitBreaker → CircuitBreaker × Outcome
unfolding query_loop
query_json start env b =
    let (b', admitted) = before start b in
    let run = query_loop env 3 0 b' in if admitted then run else (b', refused)
