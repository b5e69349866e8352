-- ===== src/Scheduler/JobCalls.antt =====
-- The calls on the queue that the one-job methods of the scheduler make
-- (gitrank/services/scheduler-worker/internal/service/service.go).
use gitrank.Common.{◌≡◌, refl, inl, inr, Bool, Bool-cases, String, Option, none, some}
use gitrank.Common.Int.{ℤ}
use gitrank.Common.Clock.{Time}
use gitrank.Store.Jobs.{Bytes, QueueJob, Result, ok, err}
use gitrank.Store.Queue.State.{JobQueue, snapshot}
use gitrank.Store.Queue.Transitions.{Failure}
use gitrank.Store.Queue.Leases.{lease_ready}
use gitrank.Store.Queue.Steps.{
  Call, step, leases_ready, completes, pauses, cancels, resumes, fails, fails_for_good, replays,
  reads,
}
use gitrank.Scheduler.State.{SchedulerConfig, Scheduler, Draw}
use gitrank.Scheduler.Enqueue.{capture}
use gitrank.Scheduler.Actions.{
  JobAction, settled, settled_failure, settled_replay, lease_jobs, complete_job_call,
  pause_job_call, resume_job_call, cancel_job_call, fail_job_call, or_default,
  should_dead_letter_immediately, replay_call,
}
use gitrank.Scheduler.Reaches.{Reaches, Reaches-step, Reaches-trans, IsCareful}
use gitrank.Scheduler.Calls.{capture-Reaches}

settled-queue :
    (respond : QueueJob → JobAction) (s : Scheduler) (r : JobQueue × Result QueueJob)
    → (settled respond s r).0.queue ≡ r.0
settled-queue respond s (q, ok job) = refl
settled-queue respond s (q, err e) = refl

settled_failure-queue :
    (s : Scheduler) (r : JobQueue × Result Failure) → (settled_failure s r).0.queue ≡ r.0
settled_failure-queue s (q, ok (job, none)) = refl
settled_failure-queue s (q, ok (job, some letter)) = refl
settled_failure-queue s (q, err e) = refl

settled_replay-queue :
    (s : Scheduler) (r : JobQueue × Result (QueueJob × Bool)) → (settled_replay s r).0.queue ≡ r.0
settled_replay-queue s (q, ok (job, duplicate)) = refl
settled_replay-queue s (q, err e) = refl

module _ (remarshal : Bytes → Option Bytes) where
  -- A capture and then one call.
  pub captured-Reaches :
      (now : Time) (s : Scheduler) (c : Call)
      → IsCareful c
      → Reaches remarshal s.queue (step remarshal (capture now s).queue c)
  captured-Reaches now s c careful =
      Reaches-trans remarshal s.queue (capture now s).queue _ (capture-Reaches remarshal now s)
        (Reaches-step remarshal (capture now s).queue c careful)

  pub lease_jobs-Reaches :
      (config : SchedulerConfig) (limit : ℤ) (now : Time) (draw : Draw) (s : Scheduler)
      → Reaches remarshal s.queue (lease_jobs config limit now draw s).0.queue
  unfolding lease_jobs snapshot step
  lease_jobs-Reaches config limit now draw s =
      let leased = lease_ready now limit config.worker_concurrency config.lease_ttl s.queue in
      Reaches-trans remarshal s.queue leased.0 _
        (Reaches-step remarshal s.queue
          (leases_ready now limit config.worker_concurrency config.lease_ttl) (tt, tt))
        (Reaches-step remarshal leased.0 (reads draw.captured) (tt, tt))

  pub complete_job_call-Reaches :
      (id : String) (draw : Draw) (s : Scheduler)
      → Reaches remarshal s.queue (complete_job_call id draw s).0.queue
  unfolding complete_job_call step
  complete_job_call-Reaches id draw s =
      rw (settled-queue _ (capture draw.captured s) _)
        (captured-Reaches draw.captured s (completes id) (tt, tt))

  pub pause_job_call-Reaches :
      (id : String) (draw : Draw) (s : Scheduler)
      → Reaches remarshal s.queue (pause_job_call id draw s).0.queue
  unfolding pause_job_call step
  pause_job_call-Reaches id draw s =
      rw (settled-queue _ (capture draw.captured s) _)
        (captured-Reaches draw.captured s (pauses id) (tt, tt))

  pub cancel_job_call-Reaches :
      (id : String) (draw : Draw) (s : Scheduler)
      → Reaches remarshal s.queue (cancel_job_call id draw s).0.queue
  unfolding cancel_job_call step
  cancel_job_call-Reaches id draw s =
      rw (settled-queue _ (capture draw.captured s) _)
        (captured-Reaches draw.captured s (cancels id) (tt, tt))

  pub resume_job_call-Reaches :
      (id : String) (now : Time) (draw : Draw) (s : Scheduler)
      → Reaches remarshal s.queue (resume_job_call id now draw s).0.queue
  unfolding resume_job_call step
  resume_job_call-Reaches id now draw s =
      rw (settled-queue _ (capture draw.captured s) _)
        (captured-Reaches draw.captured s (resumes id now) (tt, tt))

  pub fail_job_call-Reaches :
      (config : SchedulerConfig) (id error_message : String) (now : Time) (draw : Draw)
      (s : Scheduler)
      → Reaches remarshal s.queue (fail_job_call config id error_message now draw s).0.queue
  unfolding fail_job_call step
  fail_job_call-Reaches config id error_message now draw s =
      let message = or_default error_message in
      elim (Bool-cases (should_dead_letter_immediately message)) [
        | inl fatal ↦
            rw (fatal, settled_failure-queue (capture draw.captured s) _)
              (captured-Reaches draw.captured s (fails_for_good id (some message) now draw.new_id)
                (tt, tt))
        | inr passing ↦
            rw (passing, settled_failure-queue (capture draw.captured s) _)
              (captured-Reaches draw.captured s
                (fails id (some message) now config.retry_backoff draw.new_id) (tt, tt))
      ]

  pub replay_call-Reaches :
      (record_id correlation : String) (now : Time) (draw : Draw) (s : Scheduler)
      → Reaches remarshal s.queue (replay_call remarshal record_id correlation now draw s).0.queue
  unfolding replay_call step
  replay_call-Reaches record_id correlation now draw s =
      rw (settled_replay-queue (capture draw.captured s) _) (
        captured-Reaches draw.captured s (replays record_id correlation now draw.clock draw.new_id)
          (tt, tt))
