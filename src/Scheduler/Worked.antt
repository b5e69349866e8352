-- ===== src/Scheduler/Worked.antt =====
-- The requests and the worker's runs of one scheduler, in any order
-- (gitrank/services/scheduler-worker/internal/service: service.go, backfill.go, runner.go).
use gitrank.Common.{
  ◌≡◌, ◌⊎◌, refl, inl, inr, String, Option, none, some, List, [], ◌∷◌, All, Bool-cases,
}
use gitrank.Common.Grown.{All-map}
use gitrank.Common.Clock.{Time}
use gitrank.Contracts.Sync.{SyncRequest}
use gitrank.Store.Jobs.{
  Bytes, QueueJob, Result, ok, err, concurrency_reached, job_not_ready, job_not_found,
}
use gitrank.Store.SyncJobs.{Payload}
use gitrank.Store.Queue.State.{JobQueue, new_job_queue, reap}
use gitrank.Store.Queue.Leases.{lease_job}
use gitrank.Store.Queue.Steps.{step, leases_job, reads}
use gitrank.Store.Queue.Dedupe.{KeysUnique, run-KeysUnique}
use gitrank.Store.Queue.Lifecycle.{HasBudget}
use gitrank.Store.Queue.Guarantees.{run-HasBudget}
use gitrank.Scheduler.State.{SchedulerConfig, Scheduler, Outcome, done, refused, Draw, new_service}
use gitrank.Scheduler.Actions.{JobAction}
use gitrank.Scheduler.Decode.{RunError, Attempt, fine, broken, is_executable_job}
use gitrank.Scheduler.Execute.{Runners, ServiceCall, execute_leased_job}
use gitrank.Scheduler.Runs.{
  after_lease, lease_first, lease_next_executable_job, settled_run, settle_run, run_leased,
  run_next, Worker, new_execution_counters,
}
use gitrank.Scheduler.Requests.{Request, serve}
use gitrank.Scheduler.Reaches.{Reaches, Reaches-refl, Reaches-step, Reaches-trans, IsCareful}
use gitrank.Scheduler.JobCalls.{complete_job_call-Reaches, fail_job_call-Reaches}
use gitrank.Scheduler.Refines.{serve-Reaches}

after_lease-queue :
    (leased : JobQueue × Result QueueJob) (later : JobQueue × Result (Option QueueJob))
    → ((after_lease leased later).0 ≡ leased.0) ⊎ ((after_lease leased later).0 ≡ later.0)
after_lease-queue (q, ok taken) later = inl refl
after_lease-queue (q, err concurrency_reached) later = inl refl
after_lease-queue (q, err job_not_ready) later = inr refl
after_lease-queue (q, err job_not_found) later = inr refl
after_lease-queue (q, err e) later = inl refl

lease_first-none :
    (config : SchedulerConfig) (now : Time) (q : JobQueue) → (lease_first config now [] q).0 ≡ q
unfolding lease_first
lease_first-none config now q = refl

settled_run-queue :
    {W R : Type 0} (job : QueueJob) (responses : List R) (finished : Time) (w : Worker W)
    (r : Scheduler × Outcome JobAction)
    → (settled_run job responses finished w r).0.scheduler.queue ≡ r.0.queue
settled_run-queue job responses finished w (s, refused refusal) = refl
settled_run-queue job responses finished w (s, done action) = refl

module _ (remarshal : Bytes → Option Bytes) (config : SchedulerConfig) where
  lease_first-Reaches :
      (now : Time) (jobs : List QueueJob) (q : JobQueue)
      → Reaches remarshal q (lease_first config now jobs q).0
  unfolding step lease_first
  lease_first-Reaches now [] q = Reaches-refl remarshal q
  lease_first-Reaches now (job ∷ jobs) q =
      let leased = lease_job job.id now config.worker_concurrency config.lease_ttl q in
      let reached =
        Reaches-step remarshal q (leases_job job.id now config.worker_concurrency config.lease_ttl)
          (tt, tt) in
      let on = lease_first config now jobs leased.0 in
      elim (Bool-cases (is_executable_job job now)) [
        | inr skipped ↦ rw (skipped, lease_first) (lease_first-Reaches now jobs q)
        | inl runs ↦ elim (after_lease-queue leased on) [
          | inl ended ↦ rw (runs, lease_first, ended) reached
          | inr later ↦
              rw (runs, lease_first, later)
                (Reaches-trans remarshal q leased.0 on.0 reached
                  (lease_first-Reaches now jobs leased.0))
        ]
      ]

  lease_next_executable_job-Reaches :
      (now read_at : Time) (q : JobQueue)
      → Reaches remarshal q (lease_next_executable_job config now read_at q).0
  unfolding lease_next_executable_job step
  lease_next_executable_job-Reaches now read_at q =
      let read = reap read_at q in
      Reaches-trans remarshal q read _ (Reaches-step remarshal q (reads read_at) (tt, tt))
        (lease_first-Reaches now read.jobs read)

  module _ {W R : Type 0} (perform : ServiceCall → String → W → W × Attempt R)
      (unmarshal : Bytes → Option SyncRequest) (text : RunError → String) (runners : Runners) where
    settle_run-Reaches :
        (job : QueueJob) (finished : Time) (draw : Draw) (w : Worker W) (a : Attempt (List R))
        → Reaches remarshal w.scheduler.queue
            (settle_run perform unmarshal text runners config job finished draw w
              a).0.scheduler.queue
    unfolding settle_run
    settle_run-Reaches job finished draw w (broken e) =
        rw (settled_run-queue {R = R} job [] finished w _)
          (fail_job_call-Reaches remarshal config job.id (text e) finished draw w.scheduler)
    settle_run-Reaches job finished draw w (fine responses) =
        rw (settled_run-queue job responses finished w _)
          (complete_job_call-Reaches remarshal job.id draw w.scheduler)

    run_leased-Reaches :
        (meanwhile : Worker W → Worker W)
        → ((v : Worker W) → Reaches remarshal v.scheduler.queue (meanwhile v).scheduler.queue)
        → (finished : Time) (draw : Draw) (w : Worker W) (leased : Result (Option QueueJob))
        → Reaches remarshal w.scheduler.queue
            (run_leased perform unmarshal text runners config meanwhile finished draw w
              leased).0.scheduler.queue
    unfolding run_leased
    run_leased-Reaches meanwhile others finished draw w (err e) =
        Reaches-refl remarshal w.scheduler.queue
    run_leased-Reaches meanwhile others finished draw w (ok none) =
        Reaches-refl remarshal w.scheduler.queue
    run_leased-Reaches meanwhile others finished draw w (ok (some job)) =
        let ran = execute_leased_job perform unmarshal runners job w.world in
        let v = record w { world = ran.0 } in
        Reaches-trans remarshal w.scheduler.queue (meanwhile v).scheduler.queue _ (others v)
          (settle_run-Reaches job finished draw (meanwhile v) ran.1)

    run_next-Reaches :
        (meanwhile : Worker W → Worker W)
        → ((v : Worker W) → Reaches remarshal v.scheduler.queue (meanwhile v).scheduler.queue)
        → (now read_at finished : Time) (draw : Draw) (w : Worker W)
        → Reaches remarshal w.scheduler.queue
            (run_next perform unmarshal text runners config meanwhile now read_at finished draw
              w).0.scheduler.queue
    unfolding run_next
    run_next-Reaches meanwhile others now read_at finished draw w =
        let taken = lease_next_executable_job config now read_at w.scheduler.queue in
        Reaches-trans remarshal w.scheduler.queue taken.0 _
          (lease_next_executable_job-Reaches now read_at w.scheduler.queue)
          (run_leased-Reaches meanwhile others finished draw
            (record w { scheduler = record w.scheduler { queue = taken.0 } }) taken.1)

-- `newService`, with the counters of its worker
abbrev pub new_worker : {W : Type 0} → SchedulerConfig → W → Worker W
new_worker config world = record {
  scheduler = new_service config;
  runs = new_execution_counters;
  world = world;
}

-- What happens to a worker's service: a request; a run of the next job, with the requests that are
-- served while the job is executed; or, of a run that overlaps others, its beginning, which leases a
-- job, and its end, which settles one by what its execution gave and leaves the services in a state.
pub data Event (W R : Type 0) : Type 0 where
  serves : Request → Event W R
  runs : (now read_at finished : Time) → Draw → List Request → Event W R
  begins : (now read_at : Time) → Event W R
  ends : QueueJob → (finished : Time) → Draw → Attempt (List R) → W → Event W R

module _ {W R : Type 0} (perform : ServiceCall → String → W → W × Attempt R)
    (unmarshal : Bytes → Option SyncRequest) (text : RunError → String) (runners : Runners)
    (parse : String → Option (Time → Time)) (marshal : Payload → Option Bytes)
    (remarshal : Bytes → Option Bytes) (config : SchedulerConfig) where
  -- The requests that are served while a job is executed, one after another.
  unfoldable pub serve_all : List Request → Worker W → Worker W
  serve_all [] w = w
  serve_all (r ∷ rs) w =
      serve_all rs (record w { scheduler = serve parse marshal remarshal config w.scheduler r })

  unfoldable pub work : Worker W → Event W R → Worker W
  unfolding run_next serve_all lease_next_executable_job settle_run
  work w (serves r) = record w { scheduler = serve parse marshal remarshal config w.scheduler r }
  work w (runs now read_at finished draw rs) =
      (run_next perform unmarshal text runners config (serve_all rs) now read_at finished draw w).0
  work w (begins now read_at) =
      let q = (lease_next_executable_job config now read_at w.scheduler.queue).0 in
      record w { scheduler = record w.scheduler { queue = q } }
  work w (ends job finished draw execution world) =
      (settle_run perform unmarshal text runners config job finished draw
        (record w { world = world }) execution).0

  unfoldable pub work_all : Worker W → List (Event W R) → Worker W
  unfolding work
  work_all w [] = w
  work_all w (e ∷ es) = work_all (work w e) es

  pub serve_all-Reaches :
      (rs : List Request) (w : Worker W)
      → Reaches remarshal w.scheduler.queue (serve_all rs w).scheduler.queue
  unfolding serve_all
  serve_all-Reaches [] w = Reaches-refl remarshal w.scheduler.queue
  serve_all-Reaches (r ∷ rs) w =
      let s = serve parse marshal remarshal config w.scheduler r in
      Reaches-trans remarshal w.scheduler.queue s.queue _
        (serve-Reaches parse marshal remarshal config w.scheduler r)
        (serve_all-Reaches rs (record w { scheduler = s }))

  work-Reaches :
      (w : Worker W) (e : Event W R)
      → Reaches remarshal w.scheduler.queue (work w e).scheduler.queue
  unfolding work
  work-Reaches w (serves r) = serve-Reaches parse marshal remarshal config w.scheduler r
  work-Reaches w (runs now read_at finished draw rs) =
      run_next-Reaches remarshal config perform unmarshal text runners (serve_all rs)
        (serve_all-Reaches rs) now read_at finished draw w
  work-Reaches w (begins now read_at) =
      lease_next_executable_job-Reaches remarshal config now read_at w.scheduler.queue
  work-Reaches w (ends job finished draw execution world) =
      settle_run-Reaches remarshal config perform unmarshal text runners job finished draw
        (record w { world = world }) execution

  -- Whatever requests the scheduler serves and whatever jobs its workers run, in any order, also
  -- one during another, and whether they succeed or fail, its queue is the one that some calls of
  -- the queue's own methods make of the earlier queue: calls that never add a job without the check
  -- of its key, and add no job without an attempt left.
  pub work_all-Reaches :
      (w : Worker W) (es : List (Event W R))
      → Reaches remarshal w.scheduler.queue (work_all w es).scheduler.queue
  unfolding work_all
  work_all-Reaches w [] = Reaches-refl remarshal w.scheduler.queue
  work_all-Reaches w (e ∷ es) =
      let next = work w e in
      Reaches-trans remarshal w.scheduler.queue next.scheduler.queue
        (work_all next es).scheduler.queue (work-Reaches w e) (work_all-Reaches next es)

  -- After any requests to a new scheduler and any runs of its workers, also overlapping, no two
  -- active jobs of its queue share a dedupe key that is not "", and every job that is not in a
  -- terminal state has an attempt left.
  pub worked-IsSound :
      (world : W) (es : List (Event W R))
      → KeysUnique (work_all (new_worker config world) es).scheduler.queue.jobs
        × All HasBudget (work_all (new_worker config world) es).scheduler.queue.jobs
  unfolding new_service
  worked-IsSound world es =
      let reached = work_all-Reaches (new_worker config world) es in
      (
        rw reached.same (
            run-KeysUnique remarshal new_job_queue reached.calls
              (All-map IsCareful _ (λ c k. k.0) reached.calls reached.careful) tt tt),
        rw reached.same (
            run-HasBudget remarshal new_job_queue reached.calls
              (All-map IsCareful _ (λ c k. k.1) reached.calls reached.careful) tt),
      )
