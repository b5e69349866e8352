-- ===== src/Scheduler/State.antt =====
-- The state of the scheduler's `Service` (gitrank/services/scheduler-worker/internal/service:
-- service.go, backfill.go). The map of plans is a list in which an id stands once.
use gitrank.Common.{
  ℕ, ◌≡◌, ◌⊎◌, refl, inl, inr, Bool, String, Option, none, some, List, [], ◌∷◌, if◌then◌else◌,
}
use text.Mathlib.Text.{◌==◌ as str_eq}
use gitrank.Common.Int.{ℤ}
use gitrank.Common.Clock.{Time, Duration, zero_time}
use gitrank.Contracts.Sync.{SyncRequest}
use gitrank.Store.Jobs.{StoreError}
use gitrank.Store.SyncJobs.{BuildError}
use gitrank.Store.Queue.State.{JobQueue, new_job_queue}
use gitrank.RateLimits.Scoped.{ScopeRateLimiter, new_scope_limiter}

-- The settings of `config.App` that the scheduler reads.
pub record SchedulerConfig : Type 0 where
  pub sync_cron : String
  pub max_attempts : ℤ
  pub retry_backoff : Duration
  pub worker_concurrency : ℤ
  pub lease_ttl : Duration
  pub per_user_rate_window : Duration
  pub per_user_rate_max : ℤ
  pub per_installation_rate_window : Duration
  pub per_installation_rate_max : ℤ

-- `schedule` is the `Next` of the `cron.Schedule` that the plan's expression stands for.
pub record BackfillPlan : Type 0 where
  pub id : String
  pub name : String
  pub cron : String
  pub schedule : Time → Time
  pub enabled : Bool
  pub targets : List SyncRequest
  pub last_run_at : Option Time
  pub next_run_at : Time
  pub queued_jobs_total : ℕ
  pub deduplicated_total : ℕ
  pub rate_limited_total : ℕ
  pub created_at : Time
  pub updated_at : Time
  pub last_correlation_id : String

pub record TickCounters : Type 0 where
  pub runs : ℕ
  pub due_plans : ℕ
  pub executed_plans : ℕ
  pub queued_jobs : ℕ
  pub deduplicated_jobs : ℕ
  pub rate_limited_targets : ℕ
  pub last_tick_at : Time
  pub rate_limited_by_scope : String → ℕ

-- `newTickCounters`
abbrev pub new_tick_counters : TickCounters
new_tick_counters = record {
  runs = 0;
  due_plans = 0;
  executed_plans = 0;
  queued_jobs = 0;
  deduplicated_jobs = 0;
  rate_limited_targets = 0;
  last_tick_at = zero_time;
  rate_limited_by_scope = λ scope. 0;
}

pub record Scheduler : Type 0 where
  pub queue : JobQueue
  pub plans : List BackfillPlan
  pub user_limiter : ScopeRateLimiter
  pub installation_limiter : ScopeRateLimiter
  pub ticks : TickCounters

-- `newService`
unfoldable pub new_service : SchedulerConfig → Scheduler
unfolding new_scope_limiter
new_service config = record {
  queue = new_job_queue;
  plans = [];
  user_limiter = new_scope_limiter config.per_user_rate_window config.per_user_rate_max;
  installation_limiter =
      new_scope_limiter config.per_installation_rate_window config.per_installation_rate_max;
  ticks = new_tick_counters;
}

-- The errors of the service.
pub data Refusal : Type 0 where
  not_built : BuildError → Refusal
  rate_limited : (scope key : String) (retry_after : Duration) → Refusal
  store_refused : StoreError → Refusal
  plan_not_found no_targets cron_malformed no_correlation : Refusal

pub data Outcome {ℓ} (A : Type ℓ) : Type ℓ where
  done : A → Outcome A
  refused : Refusal → Outcome A

pub Outcome-cases {ℓ} :
    {A : Type ℓ} (o : Outcome A)
    → ((refusal : Refusal) × (o ≡ refused refusal)) ⊎ ((a : A) × (o ≡ done a))
Outcome-cases (done a) = inr (a, refl)
Outcome-cases (refused refusal) = inl (refusal, refl)

-- What an operation draws from outside: the reading of the clock when the state is captured, that of
-- `NewQueueJob`, and the new random id.
pub record Draw : Type 0 where
  pub captured : Time
  pub clock : Time
  pub new_id : String

-- s.plans[id]
unfoldable pub find_plan : String → List BackfillPlan → Option BackfillPlan
find_plan id [] = none
find_plan id (plan ∷ plans) =
    let later = find_plan id plans in if str_eq plan.id id then some plan else later

-- s.plans[plan.ID] = plan
unfoldable pub put_plan : BackfillPlan → List BackfillPlan → List BackfillPlan
put_plan plan [] = plan ∷ []
put_plan plan (old ∷ plans) =
    let later = put_plan plan plans in if str_eq old.id plan.id then plan ∷ plans else old ∷ later

-- delete(s.plans, id)
unfoldable pub delete_plan : String → List BackfillPlan → List BackfillPlan
delete_plan id [] = []
delete_plan id (plan ∷ plans) =
    let later = delete_plan id plans in if str_eq plan.id id then later else plan ∷ later
