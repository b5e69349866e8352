-- ===== src/Store/Queue/Steps.antt =====
-- The methods of `InMemoryJobQueue` (gitrank/packages/store/memory.go) as one step function over
-- the calls that its clients make, in any order: all but `RestoreState`, which puts another state in
-- the place of the whole queue, so that a history of calls begins after it.
use gitrank.Common.{String, Option, List, [], ◌∷◌}
use gitrank.Common.Int.{ℤ}
use gitrank.Common.Clock.{Time, Duration}
use gitrank.Store.Jobs.{Bytes, QueueJob}
use gitrank.Store.Queue.State.{JobQueue, reap}
use gitrank.Store.Queue.Transitions.{
  complete, pause, resume, cancel, cancel_by_correlation, record_dead_letter, fail,
  fail_non_retryable,
}
use gitrank.Store.Queue.Leases.{lease_ready, lease_job}
use gitrank.Store.Queue.Admission.{enqueue, enqueue_unique, replay_dead_letter}

-- The calls of all methods but `RestoreState`; `reads` is any method that only reaps: `Jobs`,
-- `Job`, `Snapshot` and `ExportState`.
pub data Call : Type 0 where
  enqueues enqueues_unique : QueueJob → Call
  leases_ready : Time → ℤ → ℤ → Duration → Call
  leases_job : String → Time → ℤ → Duration → Call
  completes pauses cancels cancels_correlation : String → Call
  resumes : String → Time → Call
  records_dead_letter : QueueJob → Option String → Time → String → Call
  fails : String → Option String → Time → Duration → String → Call
  fails_for_good : String → Option String → Time → String → Call
  replays : String → String → Time → Time → String → Call
  reads : Time → Call

module _ (marshal : Bytes → Option Bytes) where
  unfoldable pub step : JobQueue → Call → JobQueue
  step q (enqueues job) = (enqueue job q).0
  step q (enqueues_unique job) = (enqueue_unique job q).0
  step q (leases_ready now limit max_concurrency ttl) =
      (lease_ready now limit max_concurrency ttl q).0
  step q (leases_job id now max_concurrency ttl) = (lease_job id now max_concurrency ttl q).0
  step q (completes id) = (complete id q).0
  step q (pauses id) = (pause id q).0
  step q (cancels id) = (cancel id q).0
  step q (cancels_correlation correlation) = (cancel_by_correlation correlation q).0
  step q (resumes id now) = (resume id now q).0
  step q (records_dead_letter job error now new_id) = record_dead_letter job error now new_id q
  step q (fails id error now base new_id) = (fail id error now base new_id q).0
  step q (fails_for_good id error now new_id) = (fail_non_retryable id error now new_id q).0
  step q (replays record_id correlation now clock new_id) =
      (replay_dead_letter marshal record_id correlation now clock new_id q).0
  step q (reads now) = reap now q

  unfoldable pub run : JobQueue → List Call → JobQueue
  run q [] = q
  run q (c ∷ cs) = run (step q c) cs
