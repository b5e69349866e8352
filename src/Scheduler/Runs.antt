-- ===== src/Scheduler/Runs.antt =====
-- `RunNext`: a worker leases the next job that it can run, runs it and settles it
-- (gitrank/services/scheduler-worker/internal/service/runner.go), the service being in memory.
use text.Mathlib.Text.{◌==◌ as str_eq}
use Prim.Native.String.{◌++◌ as append}
use gitrank.Common.{ℕ, suc, String, Option, none, some, List, [], ◌∷◌, trim_space, if◌then◌else◌}
use gitrank.Common.Clock.{Time, zero_time}
use gitrank.Contracts.Sync.{SyncRequest}
use gitrank.Store.Jobs.{
  Bytes, QueueJob, concurrency_reached, job_not_ready, job_not_found, Result, ok, err,
}
use gitrank.Store.Queue.State.{JobQueue, reap}
use gitrank.Store.Queue.Leases.{lease_job}
use gitrank.Scheduler.State.{
  SchedulerConfig, Scheduler, store_refused, Outcome, done, refused, Draw,
}
use gitrank.Scheduler.Actions.{JobAction, complete_job_call, fail_job_call}
use gitrank.Scheduler.Decode.{RunError, Attempt, fine, broken, is_executable_job}
use gitrank.Scheduler.Execute.{Runners, ServiceCall, execute_leased_job}

-- What the loop of `leaseNextExecutableJobLocal` makes of the answer of `LeaseJob`: it ends, or goes
-- on to `later`.
abbrev pub after_lease :
    JobQueue × Result QueueJob
    → JobQueue × Result (Option QueueJob)
    → JobQueue × Result (Option QueueJob)
after_lease (q, ok taken) later = (q, ok (some taken))
after_lease (q, err concurrency_reached) later = (q, ok none)
after_lease (q, err job_not_ready) later = later
after_lease (q, err job_not_found) later = later
after_lease (q, err e) later = (q, err e)

-- The loop of `leaseNextExecutableJobLocal`, over the jobs as they were read.
unfoldable pub lease_first :
    SchedulerConfig → Time → List QueueJob → JobQueue → JobQueue × Result (Option QueueJob)
unfolding is_executable_job
lease_first config now [] q = (q, ok none)
lease_first config now (job ∷ jobs) q =
    let skipped = lease_first config now jobs q in
    let leased = lease_job job.id now config.worker_concurrency config.lease_ttl q in
    let later = lease_first config now jobs leased.0 in
    if is_executable_job job now then after_lease leased later else skipped

-- `leaseNextExecutableJobLocal`; `Jobs` gives expired leases back first.
unfoldable pub lease_next_executable_job :
    SchedulerConfig → Time → Time → JobQueue → JobQueue × Result (Option QueueJob)
unfolding lease_first
lease_next_executable_job config now read_at q =
    let q' = reap read_at q in lease_first config now q'.jobs q'

-- `executionCounters`
pub record ExecutionCounters : Type 0 where
  pub last_run_at : Time
  pub by_outcome : String → ℕ

abbrev pub new_execution_counters : ExecutionCounters
new_execution_counters = record { last_run_at = zero_time; by_outcome = λ key. 0 }

-- `executionMetricKey`
abbrev pub execution_metric_key : String → String → String
execution_metric_key type status = append type (append "|" (trim_space status))

-- `recordExecution`
unfoldable pub record_execution : String → String → Time → ExecutionCounters → ExecutionCounters
record_execution type status now runs = record {
  last_run_at = now;
  by_outcome = λ key.
      if str_eq (execution_metric_key type status) key
      then suc (runs.by_outcome key)
      else runs.by_outcome key;
}

-- `SchedulerRunResponse`; `idle` has no job.
pub record RunResponse (R : Type 0) : Type 0 where
  pub status : String
  pub job : Option QueueJob
  pub execution : List R

abbrev pub idle : {R : Type 0} → RunResponse R
idle = record { status = "idle"; job = none; execution = [] }

-- The worker: the service, its execution counters and the services that it calls.
pub record Worker (W : Type 0) : Type 0 where
  pub scheduler : Scheduler
  pub runs : ExecutionCounters
  pub world : W

abbrev pub settled_run :
    {W R : Type 0}
    → QueueJob
    → List R
    → Time
    → Worker W
    → Scheduler × Outcome JobAction
    → Worker W × Outcome (RunResponse R)
settled_run job responses finished w (s, refused refusal) =
    (record w { scheduler = s }, refused refusal)
settled_run job responses finished w (s, done action) = (
  record w { scheduler = s; runs = record_execution job.type action.status finished w.runs },
  done (record { status = action.status; job = some action.job; execution = responses }),
)

module _ {W R : Type 0} (perform : ServiceCall → String → W → W × Attempt R)
    (unmarshal : Bytes → Option SyncRequest) (text : RunError → String) (runners : Runners)
    (config : SchedulerConfig) where
  -- What `RunNext` does after the execution of its job
  unfoldable pub settle_run :
      QueueJob → Time → Draw → Worker W → Attempt (List R) → Worker W × Outcome (RunResponse R)
  unfolding record_execution
  settle_run job finished draw w (broken e) =
      settled_run job [] finished w (fail_job_call config job.id (text e) finished draw w.scheduler)
  settle_run job finished draw w (fine responses) =
      settled_run job responses finished w (complete_job_call job.id draw w.scheduler)

  -- `meanwhile` is what other requests and other workers make of the worker's state while the job is
  -- executed, when `RunNext` holds no lock.
  unfoldable pub run_leased :
      (Worker W → Worker W)
      → Time
      → Draw
      → Worker W
      → Result (Option QueueJob)
      → Worker W × Outcome (RunResponse R)
  unfolding settle_run execute_leased_job
  run_leased meanwhile finished draw w (err e) = (w, refused (store_refused e))
  run_leased meanwhile finished draw w (ok none) = (w, done idle)
  run_leased meanwhile finished draw w (ok (some job)) =
      let (world, execution) = execute_leased_job perform unmarshal runners job w.world in
      settle_run job finished draw (meanwhile (record w { world = world })) execution

  -- `RunNext`; `read_at` and `finished` are the clock's readings in `Jobs` and after the execution,
  -- `text` is the text of an error. The lease and the settlement each happen under the lock.
  unfoldable pub run_next :
      (Worker W → Worker W)
      → Time
      → Time
      → Time
      → Draw
      → Worker W
      → Worker W × Outcome (RunResponse R)
  unfolding lease_next_executable_job run_leased
  run_next meanwhile now read_at finished draw w =
      let (q, leased) = lease_next_executable_job config now read_at w.scheduler.queue in
      run_leased meanwhile finished draw (record w { scheduler = record w.scheduler { queue = q } })
        leased
