-- ===== src/Store/Queue/Counts.antt =====
-- The counters of an `InMemoryJobQueue` (gitrank/packages/store/memory.go) and what its clients see
-- of its state: `Snapshot`, `ExportState` and `RestoreState`.
use gitrank.Common.{
  ℕ, suc, ◌≡◌, refl, inl, inr, String, Option, List, [], ◌∷◌, length, length-snoc, length-set,
  arith, Option-cases, Bool-cases,
}
use gitrank.Common.Int.{leb_ℤ, pos}
use gitrank.Common.Clock.{Time, Duration}
use gitrank.Store.Jobs.{
  Bytes, QueueJob, DeadLetterRecord, Result, ok, err, is_terminal, new_queue_job, dead_letter,
}
use gitrank.Store.Queue.State.{JobQueue, reap, find_job, find_record, with_job}
use gitrank.Store.Queue.Transitions.{
  complete, pause, resume, cancel, cancel_by_correlation, record_dead_letter, fail, fail_at,
  fail_non_retryable, fail_non_retryable_at, bury, dead_letter_for, attempted, spent,
}
use gitrank.Store.Queue.Leases.{lease_ready, lease_job, lease_one}
use gitrank.Store.Queue.Admission.{
  enqueue, enqueue_unique, find_duplicate, replay_dead_letter, replay_at, admit_replay, correlated,
  mark_replayed, replay_input,
}
use gitrank.Store.Queue.Steps.{
  Call, enqueues, enqueues_unique, leases_ready, leases_job, completes, pauses, cancels,
  cancels_correlation, resumes, records_dead_letter, fails, fails_for_good, replays, reads, step,
  run,
}

abbrev pub IsCounted : JobQueue → Type 0
IsCounted q = q.failure_count ≡ length q.dead_letters

with_job-IsCounted :
    (q : JobQueue) (id : String) (change : QueueJob → Result QueueJob)
    → IsCounted q
    → IsCounted (with_job q id change).0
unfolding with_job
with_job-IsCounted q id change h = ground arith

bury-IsCounted :
    (q : JobQueue) (index : ℕ) (job : QueueJob) (error : Option String) (now : Time)
    (new_id : String)
    → IsCounted q
    → IsCounted (bury q index job error now new_id).0
unfolding bury
bury-IsCounted q index job error now new_id h =
    omega (arith, length-snoc q.dead_letters (dead_letter_for job error now new_id))

fail-IsCounted :
    (id : String) (error : Option String) (now : Time) (base : Duration) (new_id : String)
    (q : JobQueue)
    → IsCounted q
    → IsCounted (fail id error now base new_id q).0
unfolding fail
fail-IsCounted id error now base new_id q h = elim (Option-cases (find_job id q.jobs)) [
  | inl gone ↦ rw (gone, fail) h
  | inr ((index, job), found) ↦ rw (found, fail) (outcome index job)
]
  where
    outcome : (index : ℕ) (job : QueueJob) → IsCounted (fail_at index job error now base new_id q).0
    outcome index job = elim (Bool-cases (is_terminal job.status)) [
      | inl over ↦ rw over h
      | inr going ↦ elim (Bool-cases (leb_ℤ job.max_attempts (pos (suc job.attempt_count)))) [
        | inl last ↦
            rw (going, last)
              (bury-IsCounted q index (record (attempted job error) { status = dead_letter }) error
                now new_id h)
        | inr more ↦ rw (going, more) h
      ]
    ]

fail_non_retryable-IsCounted :
    (id : String) (error : Option String) (now : Time) (new_id : String) (q : JobQueue)
    → IsCounted q
    → IsCounted (fail_non_retryable id error now new_id q).0
unfolding fail_non_retryable
fail_non_retryable-IsCounted id error now new_id q h = elim (Option-cases (find_job id q.jobs)) [
  | inl gone ↦ rw (gone, fail_non_retryable) h
  | inr ((index, job), found) ↦ rw (found, fail_non_retryable) (outcome index job)
]
  where
    outcome :
        (index : ℕ) (job : QueueJob)
        → IsCounted (fail_non_retryable_at index job error now new_id q).0
    outcome index job = elim (Bool-cases (is_terminal job.status)) [
      | inl over ↦ rw over h
      | inr going ↦ rw going (
          bury-IsCounted q index
            (record (spent (attempted job error)) { not_before = now; status = dead_letter }) error
            now new_id h)
    ]

module _ (marshal : Bytes → Option Bytes) where
  replay_at-IsCounted :
      (index : ℕ) (letter : DeadLetterRecord) (correlation : String) (now clock : Time)
      (new_id : String) (q : JobQueue)
      → IsCounted q
      → IsCounted (replay_at marshal index letter correlation now clock new_id q).0
  unfolding replay_at admit_replay
  replay_at-IsCounted index letter correlation now clock new_id q h =
      made (new_queue_job marshal (replay_input letter correlation) clock new_id) refl
    where
      written : length (mark_replayed q index letter now).dead_letters ≡ length q.dead_letters
      written = length-set q.dead_letters index _

      made :
          (r : Result QueueJob)
          → new_queue_job marshal (replay_input letter correlation) clock new_id ≡ r
          → IsCounted (replay_at marshal index letter correlation now clock new_id q).0
      made (ok job) e = elim (Option-cases (find_duplicate (correlated job letter) q.jobs)) [
        | inl new ↦ rw (e, replay_at) (rw (new, admit_replay) (omega (arith, written)))
        | inr (old, hit) ↦ rw (e, replay_at) (rw (hit, admit_replay) (omega (arith, written)))
      ]
      made (err x) e = rw (e, replay_at) (omega (arith, written))

  replay-IsCounted :
      (record_id correlation : String) (now clock : Time) (new_id : String) (q : JobQueue)
      → IsCounted q
      → IsCounted (replay_dead_letter marshal record_id correlation now clock new_id q).0
  unfolding replay_dead_letter
  replay-IsCounted record_id correlation now clock new_id q h =
      elim (Option-cases (find_record record_id q.dead_letters)) [
        | inl gone ↦ rw (gone, replay_dead_letter) h
        | inr ((index, letter), found) ↦
            rw (found, replay_dead_letter)
              (replay_at-IsCounted index letter correlation now clock new_id q h)
      ]

  step-IsCounted : (q : JobQueue) (c : Call) → IsCounted q → IsCounted (step marshal q c)
  unfolding step complete pause resume cancel record_dead_letter
  step-IsCounted q (enqueues job) h = unfold enqueue in ground arith
  step-IsCounted q (enqueues_unique job) h = unfold enqueue_unique in ground arith
  step-IsCounted q (leases_ready now limit max_concurrency ttl) h =
      unfold lease_ready reap in ground arith
  step-IsCounted q (leases_job id now max_concurrency ttl) h =
      unfold lease_job reap in
      ground (arith, with_job-IsCounted (reap now q) id (lease_one now ttl))
  step-IsCounted q (completes id) h = with_job-IsCounted q id _ h
  step-IsCounted q (pauses id) h = with_job-IsCounted q id _ h
  step-IsCounted q (cancels id) h = with_job-IsCounted q id _ h
  step-IsCounted q (cancels_correlation correlation) h =
      unfold cancel_by_correlation in ground arith
  step-IsCounted q (resumes id now) h = with_job-IsCounted q id _ h
  step-IsCounted q (records_dead_letter job error now new_id) h =
      omega (arith, length-snoc q.dead_letters (dead_letter_for job error now new_id))
  step-IsCounted q (fails id error now base new_id) h = fail-IsCounted id error now base new_id q h
  step-IsCounted q (fails_for_good id error now new_id) h =
      fail_non_retryable-IsCounted id error now new_id q h
  step-IsCounted q (replays record_id correlation now clock new_id) h =
      replay-IsCounted record_id correlation now clock new_id q h
  step-IsCounted q (reads now) h = unfold reap in h

  pub run-IsCounted : (q : JobQueue) (cs : List Call) → IsCounted q → IsCounted (run marshal q cs)
  unfolding run
  run-IsCounted q [] h = h
  run-IsCounted q (c ∷ cs) h = run-IsCounted (step marshal q c) cs (step-IsCounted q c h)
