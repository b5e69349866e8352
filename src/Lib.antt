-- ===== src/Lib.antt =====
-- Verification of the gitrank backend (gitrank/packages and gitrank/services).
--
-- The backend turns pull request history into contribution scores. Webhooks and users make
-- sync jobs; workers lease them from a queue, call GitHub behind a circuit breaker, and hand
-- the evidence to the analyzer and the scoring engine; rate limiters guard the endpoints.
--
-- Store models gitrank/packages/store. Jobs has the job and dead-letter records of jobs.go
-- and `NewQueueJob`; Queue has the `InMemoryJobQueue` of memory.go: State the record and its
-- reads, Transitions the methods that move a job on (`Complete`, `Pause`, `Resume`, `Cancel`,
-- `CancelByCorrelation`, `Fail`, `FailNonRetryable`, `RecordDeadLetter`), Leases `LeaseReady`
-- and `LeaseJob`, Admission `Enqueue`, `EnqueueUnique`, `ReplayDeadLetter`, `ExportState` and
-- `RestoreState`, Steps all of them but `RestoreState` as one step function, so that
-- histories of calls in any order are lists; `RestoreState` replaces the whole queue, and a
-- history begins after it. Deliveries has deliveries.go and the `InMemoryDeliveryStore`.
-- SyncJobs is sync_builder.go: `BuildSyncJobs` over the request that Contracts.Modes
-- normalises, with the switch on the mode's text as a data type of modes. Built and Typed
-- have what it makes.
--
-- GithubApi models gitrank/packages/githubapi: Breaker is circuitbreaker.go, Client the retry
-- loops of `RESTClient.do` and `GraphQLClient.QueryJSON` in client.go. What the network, the
-- server and the caller's context do is an argument, one record for each attempt.
--
-- RateLimits models the three limiters: Sliding is ratelimit.go of the api-gateway and of the
-- auth-service, Scoped that of the scheduler-worker.
--
-- Contracts has the records of gitrank/packages/contracts (analysis.go, scoring.go) that
-- analysis and scoring exchange, and Contracts.Validation their `Validate` methods;
-- Contracts.Sync and Contracts.Modes are sync_validation.go, its regular expressions as tests
-- on the characters. Scoring models
-- gitrank/services/scoring-engine/internal/scoring/engine.go: Policy the policy and its
-- defaults, Shares `distributeSkillXP`, Engine `Engine.Score` and the functions it calls. A
-- `float64` is an element of the interface Common.Float, whose one law is that no value is
-- less than itself.
--
-- Replay models the part of gitrank/services/scoring-engine/internal/service/service.go that
-- makes a contributor's context of the earlier contributions: `deriveContributorContext` and
-- what it calls. Go's zero time is a Monday, so a week starts at a multiple of seven days,
-- and the loop of `consecutiveActiveWeeks` is a recursion on the number of the week.
--
-- Analyzer models gitrank/services/pr-analyzer/internal/analyzer: Policy and Normalize are
-- policy.go, Paths, Languages, References and Features are features.go (and `classifyFiles`),
-- Measures and Report the functions of analyzer.go that classify, measure and describe,
-- Guardrails guardrails.go, and Service `Service.analyze`. The answer of the language model,
-- which `Summarize` of ai_summary.go fetches, is an argument. What `encoding/json` makes of a
-- policy's text is another. A tag of the `switch` of `detectCriticalityTags` is an option;
-- `issueReferencePattern` is a matcher by hand, exact because no character of its two classes
-- can begin what follows them; `sort.SliceStable` is an insertion sort: the order it is given
-- is total on distinct languages, so every sort gives the same list. Errors are constructors
-- that hold what their texts quote.
--
-- Scheduler models gitrank/services/scheduler-worker/internal/service (service.go,
-- backfill.go, runner.go): State the `Service` with its queue, plans, limiters and counters,
-- Enqueue `enqueueSyncRequest` and `allowScopedRates`, Plans the backfill plans, Tick
-- `tickLocal`, Actions the calls on single jobs, Requests all of them as one function.
-- Decode, Execute and Runs are the worker of runner.go: the request in a job, the calls to
-- the other services that each type of job makes, and `RunNext`. What the services answer is
-- an argument with a state of its own, a case of `executeLeasedJob` is the list of its calls
-- in order, and `jobExecution` the list of the responses. An error of the worker is a
-- constructor, whose text is an argument. `RunNext` holds the lock while it leases a job and
-- while it settles it, but not in between, when the job is executed: what other requests and
-- other workers do then is an argument of `run_next`, `meanwhile`. Worked mixes requests and
-- runs in one history: a run with the requests served during it or, for workers that overlap,
-- its beginning and its end as events of their own. The service is the one without a state
-- store, where `persistDurableStateWithRollback` does nothing; Durable has what is stored of
-- it and `withDurableMutation` around any function on it, with the fault of the database as
-- an argument. The `captureDurableState` that stands before each call gives expired leases
-- back, and that is kept. Each call takes a draw of what it reads outside: clocks and the new
-- random id. The map of plans is a list, a plan holds the `Next` of its `cron.Schedule`, and
-- due plans alike in both of their times keep the order of the list, where `sort.Slice`
-- leaves the order open.
--
-- A method of a shared object runs under the object's mutex in the source, so it is a
-- function from the state to the new state and the result, and concurrent calls are a list of
-- calls in the order in which they take the mutex. An instant is the number of nanoseconds
-- since Go's zero time, and a duration an integer of nanoseconds; no instant lies before the
-- zero time, and the distance of two instants does not saturate. `int64` wraps where the
-- source shifts and multiplies (the backoff of `Fail`). Counters of attempts, hits and
-- failures are natural numbers without a bound. `time.Now()`, new random ids, `json.Marshal`,
-- `json.Valid` and SHA-256 are arguments. A map is a function of its key or an association
-- list. All loops are recursions on lists or, for the three attempts of a client, on the
-- number of rounds left, which `call-Ends` shows to be enough.
--
-- Common.Words has Go's `strings` functions: letters outside ASCII have no case in `ToLower`
-- and `EqualFold`. The sums of `int` in the scoring engine do not wrap: line and XP counts
-- are far from 2^63.
--
-- Not modelled: the PostgreSQL stores, the HTTP routers, the parsing of configuration,
-- logging and tracing, the frontend, the HTTP of the executors of the scheduler, and the
-- services and functions that are not named above.
pub mod Common
pub mod Analyzer
pub mod Contracts
pub mod Scoring
pub mod Replay
pub mod Scheduler
pub mod Store
pub mod GithubApi
pub mod RateLimits
