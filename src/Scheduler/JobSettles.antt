-- ===== src/Scheduler/JobSettles.antt =====
-- `Complete` and `Fail` on the job that a worker has leased
-- (gitrank/services/scheduler-worker/internal/service/service.go).
use gitrank.Common.{
  ℕ, ◌≡◌, ◌⊎◌, true, refl, ap, sym, ◌∙◌, subst, inl, inr, Bool-cases, String, none, some, arith,
}
use gitrank.Common.Clock.{Time}
use gitrank.Store.Jobs.{QueueJob, already_terminal, Result, ok, err, is_terminal}
use gitrank.Store.Queue.State.{JobQueue, reap, reap_job, find_job}
use gitrank.Store.Queue.Transitions.{Failure, complete}
use gitrank.Store.Queue.Lookups.{find_job-reap}
use gitrank.Store.Queue.Settled.{
  IsSettled, fail-refuses, terminal-IsSettled, complete-IsSettled, fail-IsSettled,
  fail_non_retryable-IsSettled,
}
use gitrank.Scheduler.State.{
  SchedulerConfig, Scheduler, store_refused, Outcome, done, refused, Draw,
}
use gitrank.Scheduler.Enqueue.{capture}
use gitrank.Scheduler.Actions.{
  JobAction, settled, settled_failure, complete_job_call, fail_job_call, or_default,
  should_dead_letter_immediately,
}

-- The job that an action has settled
pub record Settles (id : String) (r : Scheduler × Outcome JobAction) : Type 0 where
  pub action : JobAction
  pub ended : r.1 ≡ done action
  pub settled_job : IsSettled id action.job r.0.queue

same_ok : {A : Type 0} {a b : A} → ok a ≡ ok b → a ≡ b
same_ok {a = a} h = ap (λ r. elim r [ ok x ↦ x | err e ↦ a ]) h

settled-Settles :
    (id : String) (respond : QueueJob → JobAction) (s : Scheduler) (r : JobQueue × Result QueueJob)
    (next : QueueJob)
    → r.1 ≡ ok next
    → (respond next).job ≡ next
    → IsSettled id next r.0
    → Settles id (settled respond s r)
settled-Settles id respond s (q, ok job) next h same k = record {
  action = respond job;
  ended = refl;
  settled_job =
      subst (λ j. IsSettled id j q) (sym (ap (λ j. (respond j).job) (same_ok h) ∙ same)) k;
}
settled-Settles id respond s (q, err e) next h same k = ground arith

settled_failure-Settles :
    (id : String) (s : Scheduler) (r : JobQueue × Result Failure) (failure : Failure)
    → r.1 ≡ ok failure
    → IsSettled id failure.0 r.0
    → Settles id (settled_failure s r)
settled_failure-Settles id s (q, ok (job, none)) failure h k = record {
  action = _;
  ended = refl;
  settled_job = subst (λ j. IsSettled id j q) (sym (ap (λ f. f.0) (same_ok h))) k;
}
settled_failure-Settles id s (q, ok (job, some letter)) failure h k = record {
  action = _;
  ended = refl;
  settled_job = subst (λ j. IsSettled id j q) (sym (ap (λ f. f.0) (same_ok h))) k;
}
settled_failure-Settles id s (q, err e) failure h k = ground arith

-- How `Complete` or `Fail` ends on a job that the queue has: the job is in the queue, leased no more,
-- and either the action is on it, or the action is refused, since the job is terminal.
pub record Concludes (id : String) (r : Scheduler × Outcome JobAction) : Type 0 where
  pub last : QueueJob
  pub settled_job : IsSettled id last r.0.queue
  pub ended :
      ((action : JobAction) × (r.1 ≡ done action) × (action.job ≡ last))
      ⊎ ((r.1 ≡ refused (store_refused already_terminal)) × (is_terminal last.status ≡ true))

Settles-Concludes :
    (id : String) (r : Scheduler × Outcome JobAction) → Settles id r → Concludes id r
Settles-Concludes id r k = record {
  last = k.action.job;
  settled_job = k.settled_job;
  ended = inl (k.action, k.ended, refl);
}

captured-found :
    (now : Time) (id : String) (i : ℕ) (job : QueueJob) (s : Scheduler)
    → find_job id s.queue.jobs ≡ some (i, job)
    → find_job id (capture now s).queue.jobs ≡ some (i, reap_job now job)
unfolding reap
captured-found now id i job s found = find_job-reap id now s.queue.jobs i job found

pub complete_job_call-Concludes :
    (id : String) (i : ℕ) (job : QueueJob) (draw : Draw) (s : Scheduler)
    → find_job id s.queue.jobs ≡ some (i, job)
    → Concludes id (complete_job_call id draw s)
unfolding complete_job_call
complete_job_call-Concludes id i job draw s found =
    let captured = capture draw.captured s in
    let (next, ended, kept) =
      complete-IsSettled id i (reap_job draw.captured job) captured.queue
        (captured-found draw.captured id i job s found) in
    Settles-Concludes id _
      (settled-Settles id _ captured (complete id captured.queue) next ended refl kept)

refused-Concludes :
    (id : String) (i : ℕ) (job : QueueJob) (s : Scheduler) (r : JobQueue × Result Failure)
    → r ≡ (s.queue, err already_terminal)
    → find_job id s.queue.jobs ≡ some (i, job)
    → is_terminal job.status ≡ true
    → Concludes id (settled_failure s r)
refused-Concludes id i job s r e found over = rw e (record {
  last = job;
  settled_job = terminal-IsSettled id i job s.queue found over;
  ended = inr (refl, over);
})

pub fail_job_call-Concludes :
    (config : SchedulerConfig) (id : String) (i : ℕ) (job : QueueJob) (error_message : String)
    (now : Time) (draw : Draw) (s : Scheduler)
    → find_job id s.queue.jobs ≡ some (i, job)
    → Concludes id (fail_job_call config id error_message now draw s)
unfolding fail_job_call
fail_job_call-Concludes config id i job error_message now draw s before_it =
    let captured = capture draw.captured s in
    let text = or_default error_message in
    let base = config.retry_backoff in
    let reaped = reap_job draw.captured job in
    let found = captured-found draw.captured id i job s before_it in
    elim (Bool-cases (is_terminal reaped.status)) [
      | inl over ↦
          let (failing, burying) =
            fail-refuses id i reaped (some text) now base draw.new_id captured.queue found over in
          elim (Bool-cases (should_dead_letter_immediately text)) [
            | inl fatal ↦ rw fatal (refused-Concludes id i reaped captured _ burying found over)
            | inr passing ↦ rw passing (refused-Concludes id i reaped captured _ failing found over)
          ]
      | inr running ↦ elim (Bool-cases (should_dead_letter_immediately text)) [
        | inl fatal ↦
            let (failure, ended, kept) =
              fail_non_retryable-IsSettled id i reaped (some text) now draw.new_id captured.queue
                found running in
            rw fatal
              (Settles-Concludes id _ (settled_failure-Settles id captured _ failure ended kept))
        | inr passing ↦
            let (failure, ended, kept) =
              fail-IsSettled id i reaped (some text) now base draw.new_id captured.queue found
                running in
            rw passing
              (Settles-Concludes id _ (settled_failure-Settles id captured _ failure ended kept))
      ]
    ]
