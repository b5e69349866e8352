-- ===== src/GithubApi/Client/Reports.antt =====
-- What a call of a GitHub client (gitrank/packages/githubapi/client.go) tells the circuit breaker.
use gitrank.Common.{
  ℕ, zero, suc, ◌+◌, ◌≤◌, ◌<◌, ◌≡◌, refl, subst, ◌⊎◌, inl, inr, true, false, not, leb,
  if◌then◌else◌, map, ap, List, [], ◌∷◌, arith, Bool-cases,
}
use gitrank.Common.Clock.{Time}
use gitrank.GithubApi.Breaker.{
  CircuitBreaker, circuit_open, circuit_half_open, before, success, failure,
}
use gitrank.GithubApi.Breaker.Policy.{Inv, IsFull, full_refuses, open_cools_down}
use gitrank.GithubApi.Client.{
  Attempt, Outcome, refused, answered, failed, abandoned, observe, do_loop, do_request, query_loop,
  query_json,
}

le-cases : (n k : ℕ) → n ≤ k → (n ≡ k) ⊎ (suc n ≤ k)
le-cases n k h = ground arith

-- What the answer's status makes the breaker hear of a failed attempt: a failure where there was no
-- response, the server was at fault or it limits the rate, else a success.
abbrev pub Hears : Attempt → CircuitBreaker → CircuitBreaker → Type 0
Hears a b b' =
    (((a.status ≡ 0) ⊎ (a.status ≡ 429) ⊎ 500 ≤ a.status) × (b' ≡ failure a.now b))
    ⊎ ((0 < a.status × a.status < 500 × ¬ (a.status ≡ 429)) × (b' ≡ success b))

-- How a client takes an attempt: as its answer, as worth another attempt, or as neither.
pub data Verdict : Type 0 where
  accepts retries gives_up : Verdict

-- A REST client does not read what comes without an error, and retries as `once` says.
abbrev pub rest_verdict : Attempt → Verdict
rest_verdict a = if not a.is_error then accepts else if a.retry then retries else gives_up

-- A GraphQL client decodes what comes without an error, and retries what reports a rate limit.
abbrev pub graphql_verdict : Attempt → Verdict
graphql_verdict a =
    if a.is_error
    then (if a.retry then retries else gives_up)
    else if not a.decodes
    then gives_up
    else if a.limited
    then retries
    else accepts

-- How a call that was admitted ends with its attempt `n`, of at most three: each attempt before it
-- was one to retry, and its caller waited. The attempt is accepted and the breaker hears of a
-- success; or the call fails with it and the breaker hears what its status says, the attempt being
-- the third or one not to retry; or the caller gives up in the wait after it, and the breaker hears
-- nothing.
pub data Ends (verdict : Attempt → Verdict) (env : ℕ → Attempt) (b : CircuitBreaker)
    : ℕ → CircuitBreaker × Outcome → Type 0 where
  by_success :
      (n : ℕ) → n < 3 → verdict (env n) ≡ accepts → Ends verdict env b n (success b, answered)
  by_report :
      (n : ℕ) (b' : CircuitBreaker)
      → n < 3
      → (verdict (env n) ≡ gives_up) ⊎ ((verdict (env n) ≡ retries) × (n ≡ 2))
      → Hears (env n) b b'
      → Ends verdict env b n (b', failed)
  by_absence :
      (n : ℕ)
      → n < 2
      → verdict (env n) ≡ retries
      → (env n).rested ≡ false
      → Ends verdict env b n (b, abandoned)

-- It ends at an attempt from `n` on, all before it having been retried.
abbrev pub EndsFrom :
    (Attempt → Verdict) → (ℕ → Attempt) → CircuitBreaker → ℕ → CircuitBreaker × Outcome → Type 0
EndsFrom verdict env b n r =
    (last : ℕ) × Ends verdict env b last r
    × ((k : ℕ) → n ≤ k → k < last → (verdict (env k) ≡ retries) × ((env k).rested ≡ true))

observe-Hears : (a : Attempt) (b : CircuitBreaker) → Hears a b (observe a b)
unfolding observe
observe-Hears a b = ground arith

-- A call that ends with its attempt `n`.
at_once :
    {verdict : Attempt → Verdict} {env : ℕ → Attempt} {b : CircuitBreaker} {n : ℕ}
    {r : CircuitBreaker × Outcome}
    → Ends verdict env b n r
    → EndsFrom verdict env b n r
at_once {n = n} ended = (n, ended, λ k h l. absurd (omega arith))

reports :
    (verdict : Attempt → Verdict) (env : ℕ → Attempt) (n : ℕ) (b : CircuitBreaker)
    → n < 3
    → (verdict (env n) ≡ gives_up) ⊎ ((verdict (env n) ≡ retries) × (n ≡ 2))
    → EndsFrom verdict env b n (observe (env n) b, failed)
reports verdict env n b h v =
    at_once (by_report n (observe (env n) b) h v (observe-Hears (env n) b))

later_Ends :
    (verdict : Attempt → Verdict) (env : ℕ → Attempt) (n : ℕ) (b : CircuitBreaker)
    (r : CircuitBreaker × Outcome)
    → verdict (env n) ≡ retries
    → (env n).rested ≡ true
    → EndsFrom verdict env b (suc n) r
    → EndsFrom verdict env b n r
later_Ends verdict env n b r v waited (last, ended, before_it) = (
  last,
  ended,
  λ k h l. elim (le-cases n k h) [
    | inl e ↦ subst (λ i. (verdict (env i) ≡ retries) × ((env i).rested ≡ true)) e (v, waited)
    | inr m ↦ before_it k m l
  ],
)

-- What follows an attempt that is to be retried.
retried-Ends :
    (verdict : Attempt → Verdict) (env : ℕ → Attempt) (n : ℕ) (b : CircuitBreaker)
    (rest : CircuitBreaker × Outcome)
    → n < 3
    → verdict (env n) ≡ retries
    → (n < 2 → EndsFrom verdict env b (suc n) rest)
    → EndsFrom verdict env b n (
        if leb 2 n
        then (observe (env n) b, failed)
        else if not (env n).rested
        then (b, abandoned)
        else rest)
retried-Ends verdict env n b rest few v h = elim (Bool-cases (leb 2 n)) [
  | inl last ↦ rw last (reports verdict env n b few (inr (v, ground arith)))
  | inr more ↦ elim (Bool-cases (env n).rested) [
    | inl waited ↦ rw (more, waited) (later_Ends verdict env n b rest v waited (h (ground arith)))
    | inr left ↦ rw (more, left) (at_once (by_absence n (ground arith) v left))
  ]
]

-- `n` rounds are over and `left` remain, of three.
do_loop-Ends :
    (env : ℕ → Attempt) (left n : ℕ) (b : CircuitBreaker)
    → left + n ≡ 3
    → n < 3
    → EndsFrom rest_verdict env b n (do_loop env left n b)
unfolding do_loop
do_loop-Ends env zero n b e h = absurd (omega arith)
do_loop-Ends env (suc left) n b e h = elim (Bool-cases (env n).is_error) [
  | inr fine ↦ rw fine (at_once (by_success n h (rw fine refl)))
  | inl bad ↦ elim (Bool-cases (env n).retry) [
    | inr final ↦ rw (bad, final) (reports rest_verdict env n b h (inl (rw (bad, final) refl)))
    | inl again ↦
        rw (bad, again)
          (retried-Ends rest_verdict env n b _ h (rw (bad, again) refl)
            (λ k. do_loop-Ends env left (suc n) b (omega arith) (omega arith)))
  ]
]

query_loop-Ends :
    (env : ℕ → Attempt) (left n : ℕ) (b : CircuitBreaker)
    → left + n ≡ 3
    → n < 3
    → EndsFrom graphql_verdict env b n (query_loop env left n b)
unfolding query_loop
query_loop-Ends env zero n b e h = absurd (omega arith)
query_loop-Ends env (suc left) n b e h =
    let stops = reports graphql_verdict env n b h in
    let rest = λ (v : graphql_verdict (env n) ≡ retries).
      retried-Ends graphql_verdict env n b (query_loop env left (suc n) b) h v
        (λ k. query_loop-Ends env left (suc n) b (omega arith) (omega arith)) in
    elim (Bool-cases (env n).is_error) [
      | inr fine ↦ elim (Bool-cases (env n).decodes) [
        | inr broken ↦ rw (fine, broken) (stops (inl (rw (fine, broken) refl)))
        | inl read ↦ elim (Bool-cases (env n).limited) [
          | inl limited ↦ rw (fine, read, limited) (rest (rw (fine, read, limited) refl))
          | inr free ↦ rw (fine, read, free) (at_once (by_success n h (rw (fine, read, free) refl)))
        ]
      ]
      | inl bad ↦ elim (Bool-cases (env n).retry) [
        | inr final ↦ rw (bad, final) (stops (inl (rw (bad, final) refl)))
        | inl again ↦ rw (bad, again) (rest (rw (bad, again) refl))
      ]
    ]

-- Every REST or GraphQL call either is refused by the breaker, or, once admitted, ends with its
-- first, second or third attempt, those before it having been retried after a wait. Either it
-- accepts that attempt and tells the breaker of a success; or it fails, because that attempt is not
-- to be retried or is the third, and tells the breaker of a failure if there was no response or its
-- status is 429 or at least 500, else of a success; or its caller gives up in the wait after that
-- attempt, not the third, and the breaker hears nothing. No call tells the breaker anything else.
pub call-Ends :
    (start : Time) (env : ℕ → Attempt) (b : CircuitBreaker)
    → let (b', admitted) = before start b in
      (admitted ≡ false
        → (do_request start env b ≡ (b', refused)) × (query_json start env b ≡ (b', refused)))
      × (admitted ≡ true
          → EndsFrom rest_verdict env b' 0 (do_request start env b)
            × EndsFrom graphql_verdict env b' 0 (query_json start env b))
unfolding do_request query_json
call-Ends start env b = (
  λ h. (rw h, rw h),
  λ h. (
    rw h (do_loop-Ends env 3 0 (before start b).0 refl (omega arith)),
    rw h (query_loop-Ends env 3 0 (before start b).0 refl (omega arith)),
  ),
)

-- The calls that follow, each with its start and its attempts.
pub later_requests : List (Time × (ℕ → Attempt)) → CircuitBreaker → CircuitBreaker × List Outcome
unfolding do_request
later_requests [] b = (b, [])
later_requests ((start, env) ∷ calls) b =
    let (b', outcome) = do_request start env b in
    let (b'', outcomes) = later_requests calls b' in (b'', outcome ∷ outcomes)

full_stays :
    (calls : List (Time × (ℕ → Attempt))) (b : CircuitBreaker)
    → IsFull b
    → later_requests calls b ≡ (b, map (λ c. refused) calls)
unfolding later_requests do_request
full_stays [] b f = refl
full_stays ((start, env) ∷ calls) b f = rw (full_refuses start b f, full_stays calls b f)

abandoned_unchanged :
    (verdict : Attempt → Verdict) (env : ℕ → Attempt) (b : CircuitBreaker) (n : ℕ)
    (r : CircuitBreaker × Outcome)
    → Ends verdict env b n r
    → r.1 ≡ abandoned
    → r.0 ≡ b
abandoned_unchanged verdict env b n r (by_success m few v) h = cc
abandoned_unchanged verdict env b n r (by_report m b' few v k) h = cc
abandoned_unchanged verdict env b n r (by_absence m few v left) h = refl

-- The slot of a probe whose caller gives up is not given back. With one probe allowed, as by
-- default, a single call that is abandoned while it probes an open breaker leaves that breaker full:
-- all later calls are refused, however long after, and the breaker never closes again by them.
pub abandoned_probe_sticks :
    (start : Time) (env : ℕ → Attempt) (calls : List (Time × (ℕ → Attempt))) (b : CircuitBreaker)
    → Inv b
    → b.state ≡ circuit_open
    → b.opened_at + b.open_interval ≤ start
    → b.half_open_limit ≡ 1
    → (do_request start env b).1 ≡ abandoned
    → later_requests calls (do_request start env b).0
      ≡ ((do_request start env b).0, map (λ c. refused) calls)
abandoned_probe_sticks start env calls b v c late one gone =
    full_stays calls (do_request start env b).0 full
  where
    probing : CircuitBreaker
    probing = record b { state = circuit_half_open; half_open_active = 1 }

    admits : before start b ≡ (probing, true)
    admits = (open_cools_down start b v c).1 late

    kept : (do_request start env b).0 ≡ (before start b).0
    kept =
        let (last, ended, tried) = ((call-Ends start env b).1 (ap (λ r. r.1) admits)).0 in
        abandoned_unchanged rest_verdict env (before start b).0 last (do_request start env b) ended
          gone

    full : IsFull (do_request start env b).0
    full = rw (kept, admits) (refl, omega arith)
