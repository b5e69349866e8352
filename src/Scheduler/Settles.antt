-- ===== src/Scheduler/Settles.antt =====
-- How a run of the worker ends (`RunNext`,
-- gitrank/services/scheduler-worker/internal/service/runner.go).
use gitrank.Common.{
  ℕ, ◌≡◌, ◌≤◌, ◌⊎◌, refl, ap, ◌∙◌, true, inl, inr, Bool-cases, String, Option, none, some, List, [],
  ◌∷◌, arith,
}
use gitrank.Common.Grown.{All-map}
use gitrank.Common.Clock.{Time}
use gitrank.Contracts.Sync.{SyncRequest}
use gitrank.Store.Jobs.{
  Bytes, QueueJob, concurrency_reached, job_not_ready, job_not_found, already_terminal, StoreError,
  Result, ok, err, is_terminal,
}
use gitrank.Store.Queue.State.{JobQueue, reap, find_job}
use gitrank.Store.Queue.Leases.{lease_job, active_leases}
use gitrank.Store.Queue.Leasing.{active_leases-reap, lease_job-refused}
use gitrank.Store.Queue.Lookups.{IsTaken, Takes, lease_job-Takes, find_job-Grown}
use gitrank.Store.Queue.Settled.{IsSettled}
use gitrank.Store.Queue.Lifecycle.{Moves, HasBudget}
use gitrank.Store.Queue.Evolution.{run-Follows}
use gitrank.Store.Queue.Guarantees.{new-HasBudget}
use gitrank.Scheduler.State.{
  SchedulerConfig, Scheduler, Refusal, store_refused, Outcome, done, refused, Draw,
}
use gitrank.Scheduler.Actions.{JobAction}
use gitrank.Scheduler.Decode.{RunError, Attempt, fine, broken, is_executable_job}
use gitrank.Scheduler.Execute.{Runners, ServiceCall, execute_leased_job}
use gitrank.Scheduler.Runs.{
  after_lease, lease_first, lease_next_executable_job, settled_run, settle_run, run_leased,
  run_next, Worker, RunResponse, idle,
}
use gitrank.Scheduler.Reaches.{Reaches, IsCareful}
use gitrank.Scheduler.JobSettles.{Concludes, complete_job_call-Concludes, fail_job_call-Concludes}

-- What a search for a job to lease leaves of a queue with `busy` leases: no lease more, or the job
-- that it took.
abbrev TakesAny : ℕ → JobQueue × Result (Option QueueJob) → Type 0
TakesAny busy (q, ok none) = active_leases q.jobs ≤ busy
TakesAny busy (q, ok (some job)) = IsTaken job q
TakesAny busy (q, err e) = ⊥

after_lease-TakesAny :
    (busy : ℕ) (leased : JobQueue × Result QueueJob) (later : JobQueue × Result (Option QueueJob))
    → Takes leased
    → ((e : StoreError) → leased.1 ≡ err e → active_leases leased.0.jobs ≤ busy)
    → (active_leases leased.0.jobs ≤ busy → TakesAny busy later)
    → TakesAny busy (after_lease leased later)
after_lease-TakesAny busy (q, ok taken) later t f l = t
after_lease-TakesAny busy (q, err concurrency_reached) later t f l = f concurrency_reached refl
after_lease-TakesAny busy (q, err job_not_ready) later t f l = l (f job_not_ready refl)
after_lease-TakesAny busy (q, err job_not_found) later t f l = l (f job_not_found refl)
after_lease-TakesAny busy (q, err e) later t f l = elim t [ ]

-- How a run ends, by what its search for a job came to: an idle run has leased nothing; the job of
-- another run is in the queue under its id and leased no more, and either the answer is on that job,
-- or the run is refused, since that job is terminal.
abbrev pub Rests :
    {W R : Type 0}
    → JobQueue
    → Result (Option QueueJob)
    → Worker W × Outcome (RunResponse R)
    → Type 0
Rests q (err e) (w, outcome) = ⊥
Rests q (ok none) (w, outcome) =
    (outcome ≡ done idle) × (active_leases w.scheduler.queue.jobs ≤ active_leases q.jobs)
Rests {R = R} q (ok (some job)) (w, outcome) =
    (last : QueueJob) × IsSettled job.id last w.scheduler.queue
    × (((response : RunResponse R) × (outcome ≡ done response) × (response.job ≡ some last))
        ⊎ ((outcome ≡ refused (store_refused already_terminal)) × (is_terminal last.status ≡ true)))

same_done : {A : Type 0} {a b : A} → done a ≡ done b → a ≡ b
same_done {a = a} h = ap (λ o. elim o [ done x ↦ x | refused refusal ↦ a ]) h

same_refusal :
    {A B : Type 0} {x y : Refusal}
    → ◌≡◌ {A = Outcome A} (refused x) (refused y)
    → ◌≡◌ {A = Outcome B} (refused x) (refused y)
same_refusal h = cc

settled_run-Rests :
    {W R : Type 0} (q : JobQueue) (job : QueueJob) (responses : List R) (finished : Time)
    (w : Worker W) (r : Scheduler × Outcome JobAction)
    → Concludes job.id r
    → Rests q (ok (some job)) (settled_run job responses finished w r)
settled_run-Rests q job responses finished w (s, refused refusal) k = elim k.ended [
  | inl (action, e, same) ↦ ground arith
  | inr (e, over) ↦ (k.last, k.settled_job, inr (same_refusal e, over))
]
settled_run-Rests q job responses finished w (s, done action) k = elim k.ended [
  | inl (acted, e, same) ↦
      (k.last, k.settled_job, inl (_, refl, ap (λ a. some a.job) (same_done e) ∙ ap some same))
  | inr (e, over) ↦ ground arith
]

-- A job that was taken is still there after other calls on the queue.
taken-stays :
    (remarshal : Bytes → Option Bytes) (job : QueueJob) (q later : JobQueue)
    → IsTaken job q
    → Reaches remarshal q later
    → (next : QueueJob) × (i : ℕ) × (find_job job.id later.jobs ≡ some (i, next))
taken-stays remarshal job q later t reached =
    let calls =
      run-Follows HasBudget (λ x y m. m.budgeted) new-HasBudget remarshal q reached.calls
        (All-map IsCareful _ (λ c k. k.1) reached.calls reached.careful) in
    let (next, found, moved) =
      find_job-Grown Moves HasBudget (λ x y m. m.same_id) job.id q.jobs _ t.index job t.found
        calls in
    (next, t.index, rw reached.same found)

module _ {W R : Type 0} (perform : ServiceCall → String → W → W × Attempt R)
    (unmarshal : Bytes → Option SyncRequest) (text : RunError → String) (runners : Runners)
    (config : SchedulerConfig) where
  settle_run-Rests :
      (q : JobQueue) (job next : QueueJob) (i : ℕ) (finished : Time) (draw : Draw) (w : Worker W)
      (a : Attempt (List R))
      → find_job job.id w.scheduler.queue.jobs ≡ some (i, next)
      → Rests q
          (ok (some job))
          (settle_run perform unmarshal text runners config job finished draw w a)
  unfolding settle_run
  settle_run-Rests q job next i finished draw w (broken e) found =
      settled_run-Rests q job [] finished w _
        (fail_job_call-Concludes config job.id i next (text e) finished draw w.scheduler found)
  settle_run-Rests q job next i finished draw w (fine responses) found =
      settled_run-Rests q job responses finished w _
        (complete_job_call-Concludes job.id i next draw w.scheduler found)

  lease_first-TakesAny :
      (busy : ℕ) (now : Time) (jobs : List QueueJob) (q : JobQueue)
      → active_leases q.jobs ≤ busy
      → TakesAny busy (lease_first config now jobs q)
  unfolding lease_first
  lease_first-TakesAny busy now [] q h = h
  lease_first-TakesAny busy now (job ∷ jobs) q h =
      let leased = lease_job job.id now config.worker_concurrency config.lease_ttl q in
      let refusal = lease_job-refused job.id now config.worker_concurrency config.lease_ttl q in
      elim (Bool-cases (is_executable_job job now)) [
        | inr skipped ↦ rw (skipped, lease_first) (lease_first-TakesAny busy now jobs q h)
        | inl runs ↦
            rw (runs, lease_first)
              (after_lease-TakesAny busy leased _
                (lease_job-Takes job.id now config.worker_concurrency config.lease_ttl q)
                (λ e k. omega (arith, refusal e k))
                (λ k. lease_first-TakesAny busy now jobs leased.0 k))
      ]

  module _ (remarshal : Bytes → Option Bytes) (meanwhile : Worker W → Worker W)
      (others : (v : Worker W)
        → Reaches remarshal v.scheduler.queue (meanwhile v).scheduler.queue) where
    run_leased-Rests :
        (q : JobQueue) (finished : Time) (draw : Draw) (w : Worker W)
        (leased : Result (Option QueueJob))
        → TakesAny (active_leases q.jobs) (w.scheduler.queue, leased)
        → Rests q leased
            (run_leased perform unmarshal text runners config meanwhile finished draw w leased)
    unfolding run_leased
    run_leased-Rests q finished draw w (err e) t = elim t [ ]
    run_leased-Rests q finished draw w (ok none) t = (refl, t)
    run_leased-Rests q finished draw w (ok (some job)) t =
        let ran = execute_leased_job perform unmarshal runners job w.world in
        let v = meanwhile (record w { world = ran.0 }) in
        let (next, i, found) =
          taken-stays remarshal job w.scheduler.queue v.scheduler.queue t
            (others (record w { world = ran.0 })) in
        settle_run-Rests q job next i finished draw v ran.1 found

    -- Whatever the services answer, and whatever careful calls others make on the queue while the job
    -- is executed, a run of the worker ends in one of three ways. It found no job that it could
    -- lease: it answers "idle", and no more jobs are leased than before. Or the job that it leased is
    -- in the queue under its id and is leased no more, and it answers with that job; or it is
    -- refused, which happens only where that job has come to be terminal.
    pub run_next-Rests :
        (now read_at finished : Time) (draw : Draw) (w : Worker W)
        → Rests w.scheduler.queue
            (lease_next_executable_job config now read_at w.scheduler.queue).1
            (run_next perform unmarshal text runners config meanwhile now read_at finished draw w)
    unfolding run_next lease_next_executable_job
    run_next-Rests now read_at finished draw w =
        let q = reap read_at w.scheduler.queue in
        let taken = lease_first config now q.jobs q in
        run_leased-Rests w.scheduler.queue finished draw
          (record w { scheduler = record w.scheduler { queue = taken.0 } }) taken.1
          (lease_first-TakesAny (active_leases w.scheduler.queue.jobs) now q.jobs q
            (active_leases-reap read_at w.scheduler.queue))
