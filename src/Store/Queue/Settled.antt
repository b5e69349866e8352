-- ===== src/Store/Queue/Settled.antt =====
-- `Complete`, `Fail` and `FailNonRetryable` (gitrank/packages/store/memory.go) on a job that the
-- queue holds.
use gitrank.Common.{
  ℕ, ◌≡◌, refl, ap, ◌∙◌, true, inl, inr, false, Bool-cases, String, Option, none, some, set, arith,
}
use gitrank.Common.Int.{pos, leb_ℤ}
use gitrank.Common.Clock.{Time, Duration, add}
use gitrank.Store.Jobs.{
  QueueJob, pending, succeeded, dead_letter, already_terminal, ok, err, is_terminal, holds_lease,
}
use gitrank.Store.Queue.State.{JobQueue, find_job, with_job}
use gitrank.Store.Queue.Transitions.{
  Failure, complete, complete_job, fail, fail_at, fail_non_retryable, fail_non_retryable_at, bury,
  attempted, spent, dead_letter_for, retry_delay,
}
use gitrank.Store.Queue.Lookups.{find_job-set}

-- The job as it is settled: in the queue, and leased no more.
pub record IsSettled (id : String) (job : QueueJob) (q : JobQueue) : Type 0 where
  pub index : ℕ
  pub kept : find_job id q.jobs ≡ some (index, job)
  pub given_back : holds_lease job.status ≡ false

IsSettled-set :
    (id : String) (i : ℕ) (job next : QueueJob) (q after : JobQueue)
    → find_job id q.jobs ≡ some (i, job)
    → next.id ≡ job.id
    → holds_lease next.status ≡ false
    → after.jobs ≡ set q.jobs i next
    → IsSettled id next after
IsSettled-set id i job next q after found same free written = record {
  index = i;
  kept = rw written (find_job-set id q.jobs i job next found same);
  given_back = free;
}

complete-at :
    (id : String) (i : ℕ) (job next : QueueJob) (q : JobQueue)
    → find_job id q.jobs ≡ some (i, job)
    → complete_job job ≡ ok next
    → complete id q ≡ (record q { jobs = set q.jobs i next }, ok next)
unfolding complete with_job
complete-at id i job next q found made = rw (found, with_job, made) refl

pub complete-IsSettled :
    (id : String) (i : ℕ) (job : QueueJob) (q : JobQueue)
    → find_job id q.jobs ≡ some (i, job)
    → (next : QueueJob) × ((complete id q).1 ≡ ok next) × IsSettled id next (complete id q).0
unfolding complete_job
complete-IsSettled id i job q found = elim (Bool-cases (is_terminal job.status)) [
  | inl over ↦
      let done_so = complete-at id i job job q found (rw over refl) in
      (
        job,
        ap (λ r. r.1) done_so,
        IsSettled-set id i job job q _ found refl (ground arith) (ap (λ r. r.0.jobs) done_so),
      )
  | inr running ↦
      let next = record job { status = succeeded; lease_expires_at = 0; last_error = "" } in
      let done_so = complete-at id i job next q found (rw running refl) in
      (
        next,
        ap (λ r. r.1) done_so,
        IsSettled-set id i job next q _ found refl refl (ap (λ r. r.0.jobs) done_so),
      )
]

fail-at :
    (id : String) (i : ℕ) (job : QueueJob) (error : Option String) (now : Time) (base : Duration)
    (new_id : String) (q : JobQueue)
    → find_job id q.jobs ≡ some (i, job)
    → fail id error now base new_id q ≡ fail_at i job error now base new_id q
unfolding fail
fail-at id i job error now base new_id q found = rw (found, fail) refl

fail_at-IsSettled :
    (id : String) (i : ℕ) (job : QueueJob) (error : Option String) (now : Time) (base : Duration)
    (new_id : String) (q : JobQueue)
    → find_job id q.jobs ≡ some (i, job)
    → is_terminal job.status ≡ false
    → (failure : Failure) × ((fail_at i job error now base new_id q).1 ≡ ok failure)
      × IsSettled id failure.0 (fail_at i job error now base new_id q).0
unfolding fail_at bury dead_letter_for
fail_at-IsSettled id i job error now base new_id q found running =
    let tried = attempted job error in
    elim (Bool-cases (leb_ℤ tried.max_attempts (pos tried.attempt_count))) [
      | inl last ↦
          let next = record tried { status = dead_letter } in
          let failure : Failure = (next, some (dead_letter_for next error now new_id)) in
          (
            failure,
            rw (running, last) refl,
            IsSettled-set id i job next q _ found refl refl (rw (running, last) refl),
          )
      | inr more ↦
          let next = record tried {
            status = pending;
            not_before = add now (retry_delay base tried.attempt_count);
          } in
          let failure : Failure = (next, none) in
          (
            failure,
            rw (running, more) refl,
            IsSettled-set id i job next q _ found refl refl (rw (running, more) refl),
          )
    ]

pub fail-IsSettled :
    (id : String) (i : ℕ) (job : QueueJob) (error : Option String) (now : Time) (base : Duration)
    (new_id : String) (q : JobQueue)
    → find_job id q.jobs ≡ some (i, job)
    → is_terminal job.status ≡ false
    → (failure : Failure) × ((fail id error now base new_id q).1 ≡ ok failure)
      × IsSettled id failure.0 (fail id error now base new_id q).0
fail-IsSettled id i job error now base new_id q found running =
    rw (fail-at id i job error now base new_id q found)
      (fail_at-IsSettled id i job error now base new_id q found running)

fail_non_retryable-at :
    (id : String) (i : ℕ) (job : QueueJob) (error : Option String) (now : Time) (new_id : String)
    (q : JobQueue)
    → find_job id q.jobs ≡ some (i, job)
    → fail_non_retryable id error now new_id q ≡ fail_non_retryable_at i job error now new_id q
unfolding fail_non_retryable
fail_non_retryable-at id i job error now new_id q found = rw (found, fail_non_retryable) refl

fail_non_retryable_at-IsSettled :
    (id : String) (i : ℕ) (job : QueueJob) (error : Option String) (now : Time) (new_id : String)
    (q : JobQueue)
    → find_job id q.jobs ≡ some (i, job)
    → is_terminal job.status ≡ false
    → (failure : Failure) × ((fail_non_retryable_at i job error now new_id q).1 ≡ ok failure)
      × IsSettled id failure.0 (fail_non_retryable_at i job error now new_id q).0
unfolding fail_non_retryable_at bury dead_letter_for
fail_non_retryable_at-IsSettled id i job error now new_id q found running =
    let next = record (spent (attempted job error)) { not_before = now; status = dead_letter } in
    let failure : Failure = (next, some (dead_letter_for next error now new_id)) in
    (
      failure,
      rw running refl,
      IsSettled-set id i job next q _ found (ground arith) refl (rw running refl),
    )

pub fail_non_retryable-IsSettled :
    (id : String) (i : ℕ) (job : QueueJob) (error : Option String) (now : Time) (new_id : String)
    (q : JobQueue)
    → find_job id q.jobs ≡ some (i, job)
    → is_terminal job.status ≡ false
    → (failure : Failure) × ((fail_non_retryable id error now new_id q).1 ≡ ok failure)
      × IsSettled id failure.0 (fail_non_retryable id error now new_id q).0
fail_non_retryable-IsSettled id i job error now new_id q found running =
    rw (fail_non_retryable-at id i job error now new_id q found)
      (fail_non_retryable_at-IsSettled id i job error now new_id q found running)

-- A job that is terminal cannot fail any more.
pub fail-refuses :
    (id : String) (i : ℕ) (job : QueueJob) (error : Option String) (now : Time) (base : Duration)
    (new_id : String) (q : JobQueue)
    → find_job id q.jobs ≡ some (i, job)
    → is_terminal job.status ≡ true
    → (fail id error now base new_id q ≡ (q, err already_terminal))
      × (fail_non_retryable id error now new_id q ≡ (q, err already_terminal))
unfolding fail_at fail_non_retryable_at
fail-refuses id i job error now base new_id q found over = (
  fail-at id i job error now base new_id q found ∙ rw over refl,
  fail_non_retryable-at id i job error now new_id q found ∙ rw over refl,
)

-- A job that is terminal is leased no more.
pub terminal-IsSettled :
    (id : String) (i : ℕ) (job : QueueJob) (q : JobQueue)
    → find_job id q.jobs ≡ some (i, job)
    → is_terminal job.status ≡ true
    → IsSettled id job q
terminal-IsSettled id i job q found over = record {
  index = i;
  kept = found;
  given_back = ground arith;
}
