-- ===== src/Scheduler/Calls.antt =====
-- The calls on the queue that `enqueueSyncRequest` and the one-job methods of the scheduler make
-- (gitrank/services/scheduler-worker/internal/service/service.go).
use gitrank.Common.{
  ◌≡◌, ◌⊎◌, refl, subst, inl, inr, Bool, String, Option, none, some, List, [], ◌∷◌, All, arith,
}
use gitrank.Common.Clock.{Time}
use gitrank.Contracts.Sync.{SyncRequest}
use gitrank.Store.Jobs.{Bytes, QueueJob, Result, ok, err}
use gitrank.Store.SyncJobs.{Payload, Built, built, failed}
use gitrank.Store.Built.{build_sync_jobs-IsDraft}
use gitrank.Store.Queue.State.{JobQueue}
use gitrank.Store.Queue.Admission.{enqueue_unique}
use gitrank.Store.Queue.Steps.{step, enqueues_unique, reads}
use gitrank.Store.Queue.History.{IsNew}
use gitrank.Scheduler.State.{SchedulerConfig, Scheduler, Refusal, Draw}
use gitrank.Scheduler.Enqueue.{
  allow_scoped_rates, enqueue_jobs, capture, answer, admit, enqueue_built, enqueue_sync_request,
  primary_queue_name,
}
use gitrank.Scheduler.Rates.{allow_scoped_rates-Keeps}
use gitrank.Scheduler.Reaches.{Reaches, Reaches-refl, Reaches-step, Reaches-trans, IsCareful}

IsNew-IsCareful : (job : QueueJob) → IsNew job → IsCareful (enqueues_unique job)
IsNew-IsCareful job new = (ground arith, λ active. ground arith)

-- The loop ends after the first job or goes on with the others.
enqueue_jobs-queue :
    (job : QueueJob) (jobs : List QueueJob) (q : JobQueue)
    → ((enqueue_jobs (job ∷ jobs) q).0 ≡ (enqueue_unique job q).0)
      ⊎ ((enqueue_jobs (job ∷ jobs) q).0 ≡ (enqueue_jobs jobs (enqueue_unique job q).0).0)
unfolding enqueue_jobs
enqueue_jobs-queue job jobs q = ground arith

enqueue_jobs-none : (q : JobQueue) → (enqueue_jobs [] q).0 ≡ q
unfolding enqueue_jobs
enqueue_jobs-none q = refl

module _ (remarshal : Bytes → Option Bytes) where
  enqueue_jobs-Reaches :
      (jobs : List QueueJob) (q : JobQueue)
      → All IsNew jobs
      → Reaches remarshal q (enqueue_jobs jobs q).0
  unfolding step
  enqueue_jobs-Reaches [] q new = rw (enqueue_jobs-none q) (Reaches-refl remarshal q)
  enqueue_jobs-Reaches (job ∷ jobs) q new =
      let first = (enqueue_unique job q).0 in
      let reached = Reaches-step remarshal q (enqueues_unique job) (IsNew-IsCareful job new.0) in
      elim (enqueue_jobs-queue job jobs q) [
        | inl ended ↦ rw ended reached
        | inr went_on ↦ rw went_on (
            Reaches-trans remarshal q first (enqueue_jobs jobs first).0 reached
              (enqueue_jobs-Reaches jobs first new.1))
      ]

  pub capture-Reaches :
      (now : Time) (s : Scheduler) → Reaches remarshal s.queue (capture now s).queue
  unfolding step
  capture-Reaches now s = Reaches-step remarshal s.queue (reads now) (tt, tt)

module _ (marshal : Payload → Option Bytes) (remarshal : Bytes → Option Bytes)
    (config : SchedulerConfig) where
  answer-queue :
      (correlation : String) (now : Time) (s : Scheduler)
      (r : JobQueue × Result (List String × Bool))
      → (answer correlation now s r).0.queue ≡ r.0
  unfolding answer
  answer-queue correlation now s (q, err e) = refl
  answer-queue correlation now s (q, ok (ids, all)) = refl

  admit-Reaches :
      (jobs : List QueueJob) (correlation : String) (now : Time) (r : Scheduler × Option Refusal)
      → All IsNew jobs
      → Reaches remarshal r.0.queue (admit jobs correlation now r).0.queue
  unfolding admit
  admit-Reaches jobs correlation now (s, some refusal) new = Reaches-refl remarshal s.queue
  admit-Reaches jobs correlation now (s, none) new =
      rw (answer-queue correlation now s (enqueue_jobs jobs s.queue))
        (enqueue_jobs-Reaches remarshal jobs s.queue new)

  enqueue_built-Reaches :
      (req : SyncRequest) (correlation : String) (now : Time) (s : Scheduler) (b : Built)
      → ((jobs : List QueueJob) → b ≡ built jobs → All IsNew jobs)
      → Reaches remarshal s.queue (enqueue_built marshal config req correlation now s b).0.queue
  unfolding enqueue_built
  enqueue_built-Reaches req correlation now s (failed e) new = Reaches-refl remarshal s.queue
  enqueue_built-Reaches req correlation now s (built jobs) new =
      subst
        (λ q.
          Reaches remarshal q (admit jobs correlation now (allow_scoped_rates req now s)).0.queue)
        (allow_scoped_rates-Keeps req now s).0
        (admit-Reaches jobs correlation now (allow_scoped_rates req now s) (new jobs refl))

  pub enqueue_sync_request-Reaches :
      (req : SyncRequest) (correlation : String) (now : Time) (draw : Draw) (s : Scheduler)
      → Reaches remarshal s.queue
          (enqueue_sync_request marshal config req correlation now draw s).0.queue
  unfolding enqueue_sync_request
  enqueue_sync_request-Reaches req correlation now draw s =
      let captured = capture draw.captured s in
      Reaches-trans remarshal s.queue captured.queue _ (capture-Reaches remarshal draw.captured s) (
        enqueue_built-Reaches req correlation now captured _ (λ jobs made.
          let (mode, job, alone, known) =
            build_sync_jobs-IsDraft marshal draw.clock draw.new_id req primary_queue_name
              correlation config.max_attempts jobs made in
          rw alone (known.fresh, tt)))
