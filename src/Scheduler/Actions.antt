-- ===== src/Scheduler/Actions.antt =====
-- The calls on single jobs: `Lease`, `Complete`, `Fail`, `Pause`, `Resume`, `Cancel` and
-- `ReplayDeadLetter` (gitrank/services/scheduler-worker/internal/service/service.go). A view copies
-- the fields of a job, so the job itself stands for it.
use text.Mathlib.Text.{◌==◌ as str_eq}
use gitrank.Common.{Bool, true, false, String, Option, none, some, List, trim_space, if◌then◌else◌}
use gitrank.Common.Int.{ℤ}
use gitrank.Common.Clock.{Time}
use gitrank.Common.Words.{to_lower, contains}
use gitrank.Store.Jobs.{Bytes, QueueJob, JobStatus, canceled, dead_letter, Result, ok, err}
use gitrank.Store.Queue.State.{JobQueue, JobQueueSnapshot, snapshot}
use gitrank.Store.Queue.Transitions.{
  Failure, complete, pause, resume, cancel, fail, fail_non_retryable,
}
use gitrank.Store.Queue.Leases.{lease_ready}
use gitrank.Store.Queue.Admission.{replay_dead_letter}
use gitrank.Scheduler.State.{
  SchedulerConfig, Scheduler, store_refused, Outcome, done, refused, Draw,
}
use gitrank.Scheduler.Enqueue.{capture}

-- `SchedulerJobActionResponse`
pub record JobAction : Type 0 where
  pub status : String
  pub job : QueueJob
  pub dead_letter_id : String
  pub deduplicated : Bool

abbrev pub acted : String → QueueJob → JobAction
acted status job = record { status = status; job = job; dead_letter_id = ""; deduplicated = false }

-- `Lease`, and the snapshot that its response is made of.
unfoldable pub lease_jobs :
    SchedulerConfig → ℤ → Time → Draw → Scheduler → Scheduler × List QueueJob × JobQueueSnapshot
unfolding lease_ready snapshot
lease_jobs config limit now draw s =
    let leased = lease_ready now limit config.worker_concurrency config.lease_ttl s.queue in
    let seen = snapshot draw.captured leased.0 in (record s { queue = seen.0 }, leased.1, seen.1)

-- `completionResponseStatus`
unfoldable pub completion_response_status : JobStatus → String
completion_response_status canceled = "canceled"
completion_response_status dead_letter = "dead_lettered"
completion_response_status _ = "completed"

-- The queue afterwards and the response, as the one-job calls make them of a job.
abbrev pub settled :
    (QueueJob → JobAction) → Scheduler → JobQueue × Result QueueJob → Scheduler × Outcome JobAction
settled respond s (q, ok job) = (record s { queue = q }, done (respond job))
settled respond s (q, err e) = (record s { queue = q }, refused (store_refused e))

-- `Complete`
unfoldable pub complete_job_call : String → Draw → Scheduler → Scheduler × Outcome JobAction
unfolding complete completion_response_status
complete_job_call id draw s =
    settled (λ job. acted (completion_response_status job.status) job) (capture draw.captured s)
      (complete id (capture draw.captured s).queue)

-- `Pause`
unfoldable pub pause_job_call : String → Draw → Scheduler → Scheduler × Outcome JobAction
unfolding pause
pause_job_call id draw s =
    settled (acted "paused") (capture draw.captured s) (pause id (capture draw.captured s).queue)

-- `Resume`
unfoldable pub resume_job_call : String → Time → Draw → Scheduler → Scheduler × Outcome JobAction
unfolding resume
resume_job_call id now draw s =
    settled (acted "resumed") (capture draw.captured s)
      (resume id now (capture draw.captured s).queue)

-- `Cancel`
unfoldable pub cancel_job_call : String → Draw → Scheduler → Scheduler × Outcome JobAction
unfolding cancel
cancel_job_call id draw s =
    settled (acted "canceled") (capture draw.captured s) (cancel id (capture draw.captured s).queue)

-- `shouldDeadLetterImmediately`
unfoldable pub should_dead_letter_immediately : String → Bool
should_dead_letter_immediately error_message =
    let normalized = to_lower (trim_space error_message) in
    if str_eq normalized ""
    then false
    else if contains normalized "sync_config_unavailable"
    then true
    else if contains normalized "github_app_installation_required"
    then true
    else if contains normalized "github_app_installation_unavailable"
    then true
    else contains normalized "github_app_runtime_required"

abbrev pub failed_response : Failure → JobAction
failed_response (job, none) = acted "failed" job
failed_response (job, some letter) = record {
  status = "dead_lettered";
  job = job;
  dead_letter_id = letter.id;
  deduplicated = false;
}

abbrev pub settled_failure : Scheduler → JobQueue × Result Failure → Scheduler × Outcome JobAction
settled_failure s (q, ok failure) = (record s { queue = q }, done (failed_response failure))
settled_failure s (q, err e) = (record s { queue = q }, refused (store_refused e))

abbrev pub or_default : String → String
or_default error_message = if str_eq error_message "" then "job failed" else error_message

-- `Fail`
unfoldable pub fail_job_call :
    SchedulerConfig → String → String → Time → Draw → Scheduler → Scheduler × Outcome JobAction
unfolding fail fail_non_retryable
fail_job_call config id error_message now draw s =
    let message = or_default error_message in
    let s' = capture draw.captured s in
    settled_failure s' (
      if should_dead_letter_immediately message
      then fail_non_retryable id (some message) now draw.new_id s'.queue
      else fail id (some message) now config.retry_backoff draw.new_id s'.queue)

abbrev pub settled_replay :
    Scheduler → JobQueue × Result (QueueJob × Bool) → Scheduler × Outcome JobAction
settled_replay s (q, ok (job, duplicate)) = (
  record s { queue = q },
  done (record {
    status = if duplicate then "deduplicated" else "replayed";
    job = job;
    dead_letter_id = "";
    deduplicated = duplicate;
  }),
)
settled_replay s (q, err e) = (record s { queue = q }, refused (store_refused e))

-- `ReplayDeadLetter`
unfoldable pub replay_call :
    (Bytes → Option Bytes)
    → String
    → String
    → Time
    → Draw
    → Scheduler
    → Scheduler × Outcome JobAction
unfolding replay_dead_letter
replay_call marshal record_id correlation now draw s =
    let s' = capture draw.captured s in
    settled_replay s'
      (replay_dead_letter marshal record_id correlation now draw.clock draw.new_id s'.queue)
