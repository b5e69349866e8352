-- ===== src/Store/Queue/State.antt =====
-- gitrank/packages/store/memory.go: the state of `InMemoryJobQueue` and what reads it. Each method
-- runs under the queue's mutex, so it is one step on the state. `time.Now()`, new ids and
-- `json.Marshal` are arguments.
use mathlib.Core.Option
use text.Mathlib.Text.{◌==◌ as str_eq}
use gitrank.Common.{
  ℕ, suc, Bool, ◌&&◌, not, String, Option, none, some, List, [], ◌∷◌, length, count_by, set, map,
  if◌then◌else◌,
}
use gitrank.Common.Clock.{Time, after, is_zero, zero_time}
use gitrank.Store.Jobs.{
  QueueJob, DeadLetterRecord, JobStatus, pending, job_not_found, Result, ok, err, is_active,
  is_leased, holds_lease, status_eq,
}

pub record JobQueue : Type 0 where
  pub jobs : List QueueJob
  pub dead_letters : List DeadLetterRecord
  pub retry_count : ℕ
  pub failure_count : ℕ
  pub replay_count : ℕ

-- `NewInMemoryJobQueue`
abbrev pub new_job_queue : JobQueue
new_job_queue = record {
  jobs = [];
  dead_letters = [];
  retry_count = 0;
  failure_count = 0;
  replay_count = 0;
}

-- `jobIndexLocked`, with the job at that index; `none` is the index -1.
unfoldable pub find_job : String → List QueueJob → Option (ℕ × QueueJob)
find_job id [] = none
find_job id (job ∷ jobs) =
    let later = find_job id jobs in
    if str_eq job.id id then some (0, job) else Option.map (λ at. (suc at.0, at.1)) later

-- job.Status == JobLeased && !job.LeaseExpiresAt.IsZero() && !job.LeaseExpiresAt.After(now)
abbrev pub lease_expired : Time → QueueJob → Bool
lease_expired now job =
    is_leased job.status
    && not (is_zero job.lease_expires_at)
    && not (after job.lease_expires_at now)

unfoldable pub reap_job : Time → QueueJob → QueueJob
reap_job now job =
    if lease_expired now job
    then record job { status = pending; lease_expires_at = zero_time }
    else job

-- `reapExpiredLeasesLocked`
unfoldable pub reap : Time → JobQueue → JobQueue
unfolding reap_job
reap now q = record q { jobs = map (reap_job now) q.jobs }

-- The shape of `Complete`, `Pause`, `Resume`, `Cancel` and `LeaseJob`: look the job up, change it or
-- refuse, and write it back at its index.
abbrev pub settle : JobQueue → ℕ → Result QueueJob → JobQueue × Result QueueJob
settle q index (ok job) = (record q { jobs = set q.jobs index job }, ok job)
settle q index (err e) = (q, err e)

unfoldable pub with_job :
    JobQueue → String → (QueueJob → Result QueueJob) → JobQueue × Result QueueJob
with_job q id change = elim (find_job id q.jobs) [
  | none ↦ (q, err job_not_found)
  | some (index, job) ↦ settle q index (change job)
]

-- `Jobs` and `Job` reap first, `DeadLetter` does not.
unfoldable pub jobs : Time → JobQueue → JobQueue × List QueueJob
unfolding reap
jobs now q = let q' = reap now q in (q', q'.jobs)

unfoldable pub job : Time → String → JobQueue → JobQueue × Option QueueJob
unfolding reap find_job
job now id q = let q' = reap now q in (q', Option.map (λ at. at.1) (find_job id q'.jobs))

unfoldable pub find_record : String → List DeadLetterRecord → Option (ℕ × DeadLetterRecord)
find_record id [] = none
find_record id (letter ∷ letters) =
    let later = find_record id letters in
    if str_eq letter.id id then some (0, letter) else Option.map (λ at. (suc at.0, at.1)) later

-- `DeadLetter`
unfoldable pub dead_letter_record : String → JobQueue → Option DeadLetterRecord
unfolding find_record
dead_letter_record id q = Option.map (λ at. at.1) (find_record id q.dead_letters)

pub record JobQueueSnapshot : Type 0 where
  pub queued : ℕ
  pub dead_letter_total : ℕ
  pub active_leases : ℕ
  pub retried : ℕ
  pub failures : ℕ
  pub replays : ℕ
  pub by_status : JobStatus → ℕ

-- `Snapshot`, with its map of counts as a function of the status.
unfoldable pub snapshot : Time → JobQueue → JobQueue × JobQueueSnapshot
unfolding reap
snapshot now q =
    let q' = reap now q in
    (
      q',
      record {
        queued = count_by (λ j. is_active j.status) q'.jobs;
        dead_letter_total = length q.dead_letters;
        active_leases = count_by (λ j. holds_lease j.status) q'.jobs;
        retried = q.retry_count;
        failures = q.failure_count;
        replays = q.replay_count;
        by_status = λ s. count_by (λ j. status_eq j.status s) q'.jobs;
      },
    )
