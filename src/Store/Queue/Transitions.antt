-- ===== src/Store/Queue/Transitions.antt =====
-- gitrank/packages/store/memory.go: the methods of `InMemoryJobQueue` that move one job on, or, for
-- `CancelByCorrelation`, those of one correlation.
use text.Mathlib.Text.{◌==◌ as str_eq}
use gitrank.Common.{
  ℕ, suc, ◌-◌, ◌^◌, not, ◌&&◌, String, Option, none, some, List, [], ◌∷◌, ◌++◌, set, if◌then◌else◌,
  trim_space,
}
use gitrank.Common.Int.{pos, pos_part, leb_ℤ, ltb_ℤ, ◌*ℤ◌, nonpos, int64}
use gitrank.Common.Clock.{Time, Duration, add, second, zero_time}
use gitrank.Store.Jobs.{
  QueueJob, DeadLetterRecord, pending, succeeded, dead_letter, paused, canceled, job_not_found,
  already_terminal, not_paused, Result, ok, err, is_terminal, is_paused,
}
use gitrank.Store.Queue.State.{JobQueue, find_job, with_job}

unfoldable pub complete_job : QueueJob → Result QueueJob
complete_job job =
    if is_terminal job.status
    then ok job
    else ok (record job { status = succeeded; lease_expires_at = zero_time; last_error = "" })

-- `Complete`
unfoldable pub complete : String → JobQueue → JobQueue × Result QueueJob
unfolding with_job complete_job
complete id q = with_job q id complete_job

unfoldable pub pause_job : QueueJob → Result QueueJob
pause_job job =
    if is_terminal job.status
    then err already_terminal
    else ok (record job { status = paused; lease_expires_at = zero_time })

-- `Pause`
unfoldable pub pause : String → JobQueue → JobQueue × Result QueueJob
unfolding with_job pause_job
pause id q = with_job q id pause_job

unfoldable pub resume_job : Time → QueueJob → Result QueueJob
resume_job now job =
    if not (is_paused job.status)
    then err not_paused
    else ok (record job { status = pending; not_before = now; lease_expires_at = zero_time })

-- `Resume`
unfoldable pub resume : String → Time → JobQueue → JobQueue × Result QueueJob
unfolding with_job resume_job
resume id now q = with_job q id (resume_job now)

abbrev pub canceled_job : QueueJob → QueueJob
canceled_job job = record job { status = canceled; lease_expires_at = zero_time }

unfoldable pub cancel_job : QueueJob → Result QueueJob
cancel_job job = if is_terminal job.status then err already_terminal else ok (canceled_job job)

-- `Cancel`
unfoldable pub cancel : String → JobQueue → JobQueue × Result QueueJob
unfolding with_job cancel_job
cancel id q = with_job q id cancel_job

-- The loop of `CancelByCorrelation`: the jobs afterwards, and those that it canceled.
unfoldable pub cancel_matching : String → List QueueJob → List QueueJob × List QueueJob
cancel_matching correlation [] = ([], [])
cancel_matching correlation (job ∷ jobs) =
    let (after, gone) = cancel_matching correlation jobs in
    if str_eq job.correlation_id correlation && not (is_terminal job.status)
    then (canceled_job job ∷ after, canceled_job job ∷ gone)
    else (job ∷ after, gone)

-- `CancelByCorrelation`
unfoldable pub cancel_by_correlation : String → JobQueue → JobQueue × List QueueJob
unfolding cancel_matching
cancel_by_correlation correlation q =
    let wanted = trim_space correlation in
    if str_eq wanted ""
    then (q, [])
    else let (after, gone) = cancel_matching wanted q.jobs in (record q { jobs = after }, gone)

-- `err.Error()`, or "" for a nil error.
abbrev pub message : Option String → String
message none = ""
message (some text) = text

-- `deadLetterRecordForJob`
unfoldable pub dead_letter_for : QueueJob → Option String → Time → String → DeadLetterRecord
dead_letter_for job error now new_id = record {
  id = new_id;
  job_id = job.id;
  queue_name = job.queue_name;
  job_type = job.type;
  delivery_id = job.delivery_id;
  correlation_id = job.correlation_id;
  installation_id = job.installation_id;
  repository = job.repository;
  subject = job.subject;
  dedupe_key = job.dedupe_key;
  attempts = job.attempt_count;
  max_attempts = job.max_attempts;
  error_message = message error;
  payload = job.payload;
  created_at = now;
  replayed_at = none;
}

-- `RecordDeadLetter`
unfoldable pub record_dead_letter : QueueJob → Option String → Time → String → JobQueue → JobQueue
unfolding dead_letter_for
record_dead_letter job error now new_id q = record q {
  dead_letters = q.dead_letters ++ dead_letter_for job error now new_id ∷ [];
  failure_count = suc q.failure_count;
}

-- time.Duration(1 << (attempt - 1)) is 0 from attempt 65 on, and its product with the base wraps.
unfoldable pub retry_delay : Duration → ℕ → Duration
unfolding int64
retry_delay base attempt =
    let step = if nonpos base then second else base in
    int64 (step *ℤ int64 (pos (2 ^ (attempt - 1))))

abbrev pub attempted : QueueJob → Option String → QueueJob
attempted job error = record job {
  attempt_count = suc job.attempt_count;
  last_error = message error;
  lease_expires_at = zero_time;
}

-- What the two failing methods return beside the error: the job and perhaps its dead letter.
abbrev pub Failure : Type 0
Failure = QueueJob × Option DeadLetterRecord

-- The job becomes a dead letter, and the queue's counters follow.
unfoldable pub bury :
    JobQueue → ℕ → QueueJob → Option String → Time → String → JobQueue × Result Failure
unfolding dead_letter_for
bury q index job error now new_id =
    let letter = dead_letter_for job error now new_id in
    (
      record q {
        jobs = set q.jobs index job;
        dead_letters = q.dead_letters ++ letter ∷ [];
        failure_count = suc q.failure_count;
      },
      ok (job, some letter),
    )

unfoldable pub fail_at :
    ℕ → QueueJob → Option String → Time → Duration → String → JobQueue → JobQueue × Result Failure
unfolding bury retry_delay
fail_at index job error now base new_id q =
    let tried = attempted job error in
    let again = record tried {
      status = pending;
      not_before = add now (retry_delay base tried.attempt_count);
    } in
    if is_terminal job.status
    then (q, err already_terminal)
    else if leb_ℤ tried.max_attempts (pos tried.attempt_count)
    then bury q index (record tried { status = dead_letter }) error now new_id
    else (
      record q { jobs = set q.jobs index again; retry_count = suc q.retry_count },
      ok (again, none),
    )

-- `Fail`
unfoldable pub fail :
    String → Option String → Time → Duration → String → JobQueue → JobQueue × Result Failure
unfolding fail_at find_job
fail id error now base new_id q = elim (find_job id q.jobs) [
  | none ↦ (q, err job_not_found)
  | some (index, job) ↦ fail_at index job error now base new_id q
]

abbrev pub spent : QueueJob → QueueJob
spent job =
    if ltb_ℤ (pos job.attempt_count) job.max_attempts
    then record job { attempt_count = pos_part job.max_attempts }
    else job

unfoldable pub fail_non_retryable_at :
    ℕ → QueueJob → Option String → Time → String → JobQueue → JobQueue × Result Failure
unfolding bury
fail_non_retryable_at index job error now new_id q =
    let tried = spent (attempted job error) in
    if is_terminal job.status
    then (q, err already_terminal)
    else bury q index (record tried { not_before = now; status = dead_letter }) error now new_id

-- `FailNonRetryable`
unfoldable pub fail_non_retryable :
    String → Option String → Time → String → JobQueue → JobQueue × Result Failure
unfolding fail_non_retryable_at find_job
fail_non_retryable id error now new_id q = elim (find_job id q.jobs) [
  | none ↦ (q, err job_not_found)
  | some (index, job) ↦ fail_non_retryable_at index job error now new_id q
]
