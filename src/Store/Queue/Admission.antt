-- ===== src/Store/Queue/Admission.antt =====
-- gitrank/packages/store/memory.go: how jobs enter the queue (`Enqueue`, `EnqueueUnique`,
-- `ReplayDeadLetter`), and how its state is exported and restored.
use text.Mathlib.Text.{◌==◌ as str_eq}
use gitrank.Common.{
  ℕ, suc, Bool, ◌&&◌, not, true, false, String, Option, none, some, List, [], ◌∷◌, ◌++◌, set,
  if◌then◌else◌,
}
use gitrank.Common.Clock.{Time, zero_time}
use gitrank.Store.Jobs.{
  Bytes, QueueJob, QueueJobInput, DeadLetterRecord, job_id_required, record_not_found, Result, ok,
  err, is_active, new_queue_job,
}
use gitrank.Store.Queue.State.{JobQueue, reap, find_record}

-- `Enqueue`
unfoldable pub enqueue : QueueJob → JobQueue → JobQueue × Result (Unit {0})
enqueue job q =
    if str_eq job.id ""
    then (q, err job_id_required)
    else (record q { jobs = q.jobs ++ job ∷ [] }, ok tt)

-- job.DedupeKey != "" && existing.DedupeKey == job.DedupeKey && isActiveJobStatus(existing.Status)
abbrev pub duplicates : QueueJob → QueueJob → Bool
duplicates job existing =
    not (str_eq job.dedupe_key "")
    && str_eq existing.dedupe_key job.dedupe_key
    && is_active existing.status

-- The first active job with the key of `job`.
unfoldable pub find_duplicate : QueueJob → List QueueJob → Option QueueJob
find_duplicate job [] = none
find_duplicate job (existing ∷ jobs) =
    let later = find_duplicate job jobs in if duplicates job existing then some existing else later

-- `EnqueueUnique`; the Boolean says that the job returned was in the queue already.
unfoldable pub enqueue_unique : QueueJob → JobQueue → JobQueue × Result (QueueJob × Bool)
unfolding find_duplicate
enqueue_unique job q =
    if str_eq job.id "" then (q, err job_id_required) else elim (find_duplicate job q.jobs) [
      | some existing ↦ (q, ok (existing, true))
      | none ↦ (record q { jobs = q.jobs ++ job ∷ [] }, ok (job, false))
    ]

abbrev pub replay_input : DeadLetterRecord → String → QueueJobInput Bytes
replay_input letter correlation = record {
  queue_name = letter.queue_name;
  type = letter.job_type;
  correlation_id = correlation;
  delivery_id = letter.delivery_id;
  installation_id = letter.installation_id;
  repository = letter.repository;
  subject = letter.subject;
  dedupe_key = letter.dedupe_key;
  max_attempts = letter.max_attempts;
  scheduled_at = zero_time;
  not_before = zero_time;
  payload = letter.payload;
}

abbrev pub correlated : QueueJob → DeadLetterRecord → QueueJob
correlated job letter =
    if str_eq job.correlation_id ""
    then record job { correlation_id = letter.correlation_id }
    else job

abbrev pub mark_replayed : JobQueue → ℕ → DeadLetterRecord → Time → JobQueue
mark_replayed q index letter now = record q {
  dead_letters = set q.dead_letters index (record letter { replayed_at = some now });
}

unfoldable pub admit_replay : QueueJob → JobQueue → JobQueue × Result (QueueJob × Bool)
unfolding find_duplicate
admit_replay job q = elim (find_duplicate job q.jobs) [
  | some existing ↦ (q, ok (existing, true))
  | none ↦
      (record q { jobs = q.jobs ++ job ∷ []; replay_count = suc q.replay_count }, ok (job, false))
]

-- The rest of `ReplayDeadLetter` once the record is found. It is marked first, whatever follows.
unfoldable pub replay_at :
    (Bytes → Option Bytes)
    → ℕ
    → DeadLetterRecord
    → String
    → Time
    → Time
    → String
    → JobQueue
    → JobQueue × Result (QueueJob × Bool)
unfolding new_queue_job admit_replay
replay_at marshal index letter correlation now clock new_id q =
    let q' = mark_replayed q index letter now in
    elim (new_queue_job marshal (replay_input letter correlation) clock new_id) [
      | err e ↦ (q', err e)
      | ok job ↦ admit_replay (correlated job letter) q'
    ]

-- `ReplayDeadLetter`; `clock` is the reading of `time.Now()` in `NewQueueJob`.
unfoldable pub replay_dead_letter :
    (Bytes → Option Bytes)
    → String
    → String
    → Time
    → Time
    → String
    → JobQueue
    → JobQueue × Result (QueueJob × Bool)
unfolding find_record replay_at
replay_dead_letter marshal record_id correlation now clock new_id q =
    elim (find_record record_id q.dead_letters) [
      | none ↦ (q, err record_not_found)
      | some (index, letter) ↦ replay_at marshal index letter correlation now clock new_id q
    ]

-- `JobQueueState`
pub record JobQueueState : Type 0 where
  pub jobs : List QueueJob
  pub dead_letters : List DeadLetterRecord
  pub retry_count : ℕ
  pub failure_count : ℕ
  pub replay_count : ℕ

-- `ExportState`; `cloneJobs` and `cloneDeadLetters` copy values, and so are the identity here.
unfoldable pub export_state : Time → JobQueue → JobQueue × JobQueueState
unfolding reap
export_state now q =
    let q' = reap now q in
    (
      q',
      record {
        jobs = q'.jobs;
        dead_letters = q'.dead_letters;
        retry_count = q'.retry_count;
        failure_count = q'.failure_count;
        replay_count = q'.replay_count;
      },
    )

-- `RestoreState`
unfoldable pub restore_state : JobQueueState → JobQueue → JobQueue
restore_state state q = record {
  jobs = state.jobs;
  dead_letters = state.dead_letters;
  retry_count = state.retry_count;
  failure_count = state.failure_count;
  replay_count = state.replay_count;
}
