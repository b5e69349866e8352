-- ===== src/Store/Queue/Lifecycle.antt =====
-- How one job of an `InMemoryJobQueue` moves on (gitrank/packages/store/memory.go).
use gitrank.Common.{◌≤◌, Bool, true, false, ◌≡◌, ◌∙◌, String, Option, arith}
use gitrank.Common.Int.{pos, ◌<ℤ◌, ◌≤ℤ◌}
use gitrank.Common.Clock.{Time, Duration}
use gitrank.Store.Jobs.{
  QueueJob, JobStatus, pending, failed, dead_letter, ok, is_active, is_terminal,
}
use gitrank.Store.Queue.State.{reap_job}
use gitrank.Store.Queue.Transitions.{
  complete_job, pause_job, resume_job, cancel_job, canceled_job, attempted, spent,
}
use gitrank.Store.Queue.Leases.{is_ready, lease, lease_one}

abbrev pub is_failed : JobStatus → Bool
is_failed failed = true
is_failed _ = false

-- A job that can still fail has an attempt left.
abbrev pub HasBudget : QueueJob → Type 0
HasBudget job = is_terminal job.status ≡ false → pos job.attempt_count <ℤ job.max_attempts

-- No more attempts were made than the limit.
abbrev pub IsWithinLimit : QueueJob → Type 0
IsWithinLimit job = pos job.attempt_count ≤ℤ job.max_attempts

-- A job keeps what it is, counts its attempts up, and a terminal job changes no more. `JobFailed`,
-- which no method assigns, is neither active nor terminal; of the other jobs none gets active again.
pub record Moves (job next : QueueJob) : Type 0 where
  pub same_id : next.id ≡ job.id
  pub same_type : next.type ≡ job.type
  pub same_key : next.dedupe_key ≡ job.dedupe_key
  pub same_limit : next.max_attempts ≡ job.max_attempts
  pub same_payload : next.payload ≡ job.payload
  pub counts_up : job.attempt_count ≤ next.attempt_count
  pub settled : is_terminal job.status ≡ true → next ≡ job
  pub budgeted : HasBudget job → HasBudget next
  pub limited : HasBudget job → IsWithinLimit job → IsWithinLimit next
  pub not_failed : is_failed job.status ≡ false → is_failed next.status ≡ false
  pub not_revived :
      is_failed job.status ≡ false → is_active next.status ≡ true → is_active job.status ≡ true

pub Moves-refl : (job : QueueJob) → Moves job job
Moves-refl job = ground arith

pub Moves-trans : (a b c : QueueJob) → Moves a b → Moves b c → Moves a c
Moves-trans a b c m n = record {
  same_id = n.same_id ∙ m.same_id;
  same_type = n.same_type ∙ m.same_type;
  same_key = n.same_key ∙ m.same_key;
  same_limit = n.same_limit ∙ m.same_limit;
  same_payload = n.same_payload ∙ m.same_payload;
  counts_up = omega arith;
  settled = λ t. let e = m.settled t in n.settled (rw e t) ∙ e;
  budgeted = λ h. n.budgeted (m.budgeted h);
  limited = λ h k. n.limited (m.budgeted h) (m.limited h k);
  not_failed = λ h. n.not_failed (m.not_failed h);
  not_revived = λ h k. m.not_revived h (n.not_revived (m.not_failed h) k);
}

pub reap_job-Moves : (now : Time) (job : QueueJob) → Moves job (reap_job now job)
unfolding reap_job
reap_job-Moves now job = ground arith

pub lease-Moves :
    (now : Time) (ttl : Duration) (job : QueueJob)
    → is_ready now job ≡ true
    → Moves job (lease now ttl job)
unfolding lease
lease-Moves now ttl job h = ground arith

pub lease_one-Moves :
    (now : Time) (ttl : Duration) (job next : QueueJob)
    → lease_one now ttl job ≡ ok next
    → Moves job next
unfolding lease_one
lease_one-Moves now ttl job next h = ground arith

pub complete_job-Moves : (job next : QueueJob) → complete_job job ≡ ok next → Moves job next
unfolding complete_job
complete_job-Moves job next h = ground arith

pub pause_job-Moves : (job next : QueueJob) → pause_job job ≡ ok next → Moves job next
unfolding pause_job
pause_job-Moves job next h = ground arith

pub resume_job-Moves :
    (now : Time) (job next : QueueJob) → resume_job now job ≡ ok next → Moves job next
unfolding resume_job
resume_job-Moves now job next h = ground arith

pub cancel_job-Moves : (job next : QueueJob) → cancel_job job ≡ ok next → Moves job next
unfolding cancel_job
cancel_job-Moves job next h = ground arith

pub canceled_job-Moves :
    (job : QueueJob) → is_terminal job.status ≡ false → Moves job (canceled_job job)
canceled_job-Moves job h = ground arith

module _ (job : QueueJob) (error : Option String) (going : is_terminal job.status ≡ false) where
  -- `Fail` with an attempt left.
  pub retried-Moves :
      (at : Time)
      → pos (attempted job error).attempt_count <ℤ job.max_attempts
      → Moves job (record (attempted job error) { status = pending; not_before = at })
  retried-Moves at h = ground arith

  -- `Fail` on the last attempt.
  pub buried-Moves : Moves job (record (attempted job error) { status = dead_letter })
  buried-Moves = ground arith

  -- `FailNonRetryable`
  pub spent-Moves :
      (now : Time)
      → Moves job (record (spent (attempted job error)) { not_before = now; status = dead_letter })
  spent-Moves now = ground arith
