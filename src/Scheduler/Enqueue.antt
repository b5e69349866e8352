-- ===== src/Scheduler/Enqueue.antt =====
-- `allowScopedRates` and `enqueueSyncRequest`
-- (gitrank/services/scheduler-worker/internal/service/service.go).
use text.Mathlib.Text.{◌==◌ as str_eq}
use gitrank.Common.{
  suc, Bool, true, false, ◌&&◌, String, Option, none, some, List, [], ◌∷◌, trim_space,
  if◌then◌else◌,
}
use gitrank.Common.Clock.{Time, Duration}
use gitrank.Common.Words.{itoa}
use gitrank.Contracts.Sync.{SyncRequest}
use gitrank.Store.Jobs.{Bytes, QueueJob, Result, ok, err}
use gitrank.Store.SyncJobs.{Payload, Built, built, failed, build_sync_jobs, positive}
use gitrank.Store.Queue.State.{JobQueue, reap}
use gitrank.Store.Queue.Admission.{enqueue_unique}
use gitrank.RateLimits.Scoped.{ScopeRateLimiter, allow}
use gitrank.Scheduler.State.{
  SchedulerConfig, Scheduler, Refusal, not_built, rate_limited, store_refused, Outcome, done,
  refused, Draw,
}

-- The queue in `cfg.ServiceName`'s state: `primaryQueueName`.
abbrev pub primary_queue_name : String
primary_queue_name = "github-sync"

-- `recordRateLimited`
unfoldable pub record_rate_limited : String → Scheduler → Scheduler
record_rate_limited scope s = record s {
  ticks = record s.ticks {
    rate_limited_by_scope = λ k.
        if str_eq scope k
        then suc (s.ticks.rate_limited_by_scope k)
        else s.ticks.rate_limited_by_scope k;
  };
}

-- The check of one scope: the limiter's answer, put into the state by `keep`.
abbrev pub judged :
    String
    → String
    → ScopeRateLimiter × Bool × Duration
    → (ScopeRateLimiter → Scheduler)
    → Scheduler × Option Refusal
judged scope key (limiter, true, delay) keep = (keep limiter, none)
judged scope key (limiter, false, delay) keep =
    (record_rate_limited scope (keep limiter), some (rate_limited scope key delay))

unfoldable pub allow_user : SyncRequest → Time → Scheduler → Scheduler × Option Refusal
unfolding record_rate_limited
allow_user req now s =
    if str_eq (trim_space req.user) ""
    then (s, none)
    else judged "user" (trim_space req.user) (allow (trim_space req.user) now s.user_limiter)
        (λ limiter. record s { user_limiter = limiter })

unfoldable pub allow_installation : SyncRequest → Time → Scheduler → Scheduler × Option Refusal
unfolding record_rate_limited
allow_installation req now s =
    if positive req.installation_id
    then judged "installation" (itoa req.installation_id)
        (allow (itoa req.installation_id) now s.installation_limiter)
        (λ limiter. record s { installation_limiter = limiter })
    else (s, none)

abbrev pub then_installation :
    SyncRequest → Time → Scheduler × Option Refusal → Scheduler × Option Refusal
then_installation req now (s, some refusal) = (s, some refusal)
then_installation req now (s, none) = allow_installation req now s

-- `allowScopedRates`
unfoldable pub allow_scoped_rates : SyncRequest → Time → Scheduler → Scheduler × Option Refusal
allow_scoped_rates req now s = then_installation req now (allow_user req now s)

-- `SchedulerEnqueueResponse`
pub record Enqueued : Type 0 where
  pub job_ids : List String
  pub deduplicated : Bool
  pub correlation_id : String
  pub accepted_at : Time

abbrev pub status_of : Enqueued → String
status_of e = if e.deduplicated then "deduplicated" else "queued"

-- The loop of `enqueueSyncRequest`: the ids of the jobs, and whether all were in the queue already.
unfoldable pub enqueue_jobs : List QueueJob → JobQueue → JobQueue × Result (List String × Bool)
enqueue_jobs [] q = (q, ok ([], true))
enqueue_jobs (job ∷ jobs) q = elim (enqueue_unique job q).1 [
  | err e ↦ ((enqueue_unique job q).0, err e)
  | ok (entry, duplicate) ↦ elim (enqueue_jobs jobs (enqueue_unique job q).0).1 [
    | err e ↦ ((enqueue_jobs jobs (enqueue_unique job q).0).0, err e)
    | ok (ids, all) ↦
        ((enqueue_jobs jobs (enqueue_unique job q).0).0, ok (entry.id ∷ ids, duplicate && all))
  ]
]

-- The part of `captureDurableState` that changes the state: `ExportState` gives expired leases back.
abbrev pub capture : Time → Scheduler → Scheduler
capture now s = record s { queue = reap now s.queue }

unfoldable pub answer :
    String
    → Time
    → Scheduler
    → JobQueue × Result (List String × Bool)
    → Scheduler × Outcome Enqueued
answer correlation now s (q, err e) = (record s { queue = q }, refused (store_refused e))
answer correlation now s (q, ok (ids, all)) = (
  record s { queue = q },
  done (record {
    job_ids = ids;
    deduplicated = all;
    correlation_id = correlation;
    accepted_at = now;
  }),
)

unfoldable pub admit :
    List QueueJob → String → Time → Scheduler × Option Refusal → Scheduler × Outcome Enqueued
unfolding enqueue_jobs answer
admit jobs correlation now (s, some refusal) = (s, refused refusal)
admit jobs correlation now (s, none) = answer correlation now s (enqueue_jobs jobs s.queue)

module _ (marshal : Payload → Option Bytes) (config : SchedulerConfig) where
  unfoldable pub enqueue_built :
      SyncRequest → String → Time → Scheduler → Built → Scheduler × Outcome Enqueued
  unfolding admit
  enqueue_built req correlation now s (failed e) = (s, refused (not_built e))
  enqueue_built req correlation now s (built jobs) =
      admit jobs correlation now (allow_scoped_rates req now s)

  -- `enqueueSyncRequest`
  unfoldable pub enqueue_sync_request :
      SyncRequest → String → Time → Draw → Scheduler → Scheduler × Outcome Enqueued
  unfolding enqueue_built
  enqueue_sync_request req correlation now draw s =
      enqueue_built req correlation now (capture draw.captured s) (
        build_sync_jobs marshal draw.clock draw.new_id req primary_queue_name correlation
          config.max_attempts)
