-- ===== src/Store/Queue/Recorded.antt =====
-- Every history of calls on an `InMemoryJobQueue` (gitrank/packages/store/memory.go): the failures
-- that it counts, its dead letters, and its dead jobs.
use gitrank.Common.{
  ℕ, suc, ◌≤◌, ◌≡◌, refl, inl, inr, not, ◌&&◌, String, Option, some, List, [], ◌∷◌, All, length,
  length-snoc, length-set, arith, Option-cases, Bool-cases, trim_space,
}
use gitrank.Common.Int.{ℤ, leb_ℤ, pos, nonpos}
use gitrank.Common.Clock.{Time, Duration, add}
use gitrank.Store.Jobs.{
  Bytes, QueueJob, DeadLetterRecord, Result, ok, err, is_terminal, new_queue_job, dead_letter,
  pending,
}
use gitrank.Store.Queue.State.{JobQueue, reap, find_job, find_record}
use gitrank.Store.Queue.Transitions.{
  complete, complete_job, pause, pause_job, resume, resume_job, cancel, cancel_job,
  cancel_by_correlation, record_dead_letter, fail, fail_at, fail_non_retryable,
  fail_non_retryable_at, retry_delay, dead_letter_for, attempted, spent,
}
use gitrank.Store.Queue.Leases.{
  lease_ready, lease_job, lease_one, lease, lease_limit, active_leases,
}
use gitrank.Store.Queue.Admission.{
  enqueue, enqueue_unique, find_duplicate, replay_dead_letter, replay_at, admit_replay, correlated,
  mark_replayed, replay_input,
}
use gitrank.Store.Queue.Steps.{
  Call, enqueues, enqueues_unique, leases_ready, leases_job, completes, pauses, cancels,
  cancels_correlation, resumes, records_dead_letter, fails, fails_for_good, replays, reads, step,
  run,
}
use gitrank.Store.Queue.History.{new_queue_job-IsNew}
use gitrank.Store.Queue.Evolution.{Admits}
use gitrank.Store.Queue.Counts.{run-IsCounted}
use gitrank.Store.Queue.Letters.{
  IsAlive, IsRecorded, dead_jobs, dead_jobs-set, dead_jobs-added, dead_jobs-reap,
  dead_jobs-lease_loop, dead_jobs-cancel_matching, with_job-IsRecorded, bury-IsRecorded,
}

fail-IsRecorded :
    (id : String) (error : Option String) (now : Time) (base : Duration) (new_id : String)
    (q : JobQueue)
    → IsRecorded q
    → IsRecorded (fail id error now base new_id q).0
unfolding fail
fail-IsRecorded id error now base new_id q h = elim (Option-cases (find_job id q.jobs)) [
  | inl gone ↦ rw (gone, fail) h
  | inr ((index, job), found) ↦ rw (found, fail) (outcome index job found)
]
  where
    outcome :
        (index : ℕ) (job : QueueJob)
        → find_job id q.jobs ≡ some (index, job)
        → IsRecorded (fail_at index job error now base new_id q).0
    outcome index job found = elim (Bool-cases (is_terminal job.status)) [
      | inl over ↦ rw over h
      | inr going ↦ elim (Bool-cases (leb_ℤ job.max_attempts (pos (suc job.attempt_count)))) [
        | inl last ↦
            rw (going, last)
              (bury-IsRecorded q index (record (attempted job error) { status = dead_letter }) error
                now new_id h)
        | inr more ↦
            let again = record (attempted job error) {
              status = pending;
              not_before = add now (retry_delay base (suc job.attempt_count));
            } in
            rw (going, more)
              (omega (arith, dead_jobs-set id q.jobs index job again found (λ e. ground arith)))
      ]
    ]

fail_non_retryable-IsRecorded :
    (id : String) (error : Option String) (now : Time) (new_id : String) (q : JobQueue)
    → IsRecorded q
    → IsRecorded (fail_non_retryable id error now new_id q).0
unfolding fail_non_retryable
fail_non_retryable-IsRecorded id error now new_id q h = elim (Option-cases (find_job id q.jobs)) [
  | inl gone ↦ rw (gone, fail_non_retryable) h
  | inr ((index, job), found) ↦ rw (found, fail_non_retryable) (outcome index job)
]
  where
    outcome :
        (index : ℕ) (job : QueueJob)
        → IsRecorded (fail_non_retryable_at index job error now new_id q).0
    outcome index job = elim (Bool-cases (is_terminal job.status)) [
      | inl over ↦ rw over h
      | inr going ↦ rw going (
          bury-IsRecorded q index
            (record (spent (attempted job error)) { not_before = now; status = dead_letter }) error
            now new_id h)
    ]

lease_ready-IsRecorded :
    (now : Time) (limit max_concurrency : ℤ) (ttl : Duration) (q : JobQueue)
    → IsRecorded q
    → IsRecorded (lease_ready now limit max_concurrency ttl q).0
unfolding lease_ready reap
lease_ready-IsRecorded now limit max_concurrency ttl q h =
    let reaped = reap now q in
    elim (Option-cases
      (lease_limit limit max_concurrency (active_leases reaped.jobs) (length reaped.jobs))) [
        | inl full ↦ rw (full, lease_ready) (omega (arith, dead_jobs-reap now q))
        | inr (room, e) ↦
            rw (e, lease_ready)
              (omega (arith, dead_jobs-reap now q, dead_jobs-lease_loop now ttl room reaped.jobs))
      ]

lease_job-IsRecorded :
    (id : String) (now : Time) (max_concurrency : ℤ) (ttl : Duration) (q : JobQueue)
    → IsRecorded q
    → IsRecorded (lease_job id now max_concurrency ttl q).0
unfolding lease_job reap
lease_job-IsRecorded id now max_concurrency ttl q h =
    let reaped : IsRecorded (reap now q) = omega (arith, dead_jobs-reap now q) in
    elim (Bool-cases (
      not (nonpos max_concurrency)
      && leb_ℤ max_concurrency (pos (active_leases (reap now q).jobs)))) [
        | inl full ↦ rw full reaped
        | inr room ↦ rw room (
            with_job-IsRecorded (reap now q) id (lease_one now ttl)
              (λ job next e d. unfold lease_one in unfold lease in ground arith) reaped)
      ]

module _ (marshal : Bytes → Option Bytes) where
  correlated-IsAlive :
      (letter : DeadLetterRecord) (correlation : String) (clock : Time) (new_id : String)
      (job : QueueJob)
      → new_queue_job marshal (replay_input letter correlation) clock new_id ≡ ok job
      → IsAlive (correlated job letter)
  correlated-IsAlive letter correlation clock new_id job e =
      let new = new_queue_job-IsNew marshal (replay_input letter correlation) clock new_id job e in
      ground (arith, new.queued)

  admit_replay-IsRecorded :
      (job : QueueJob) (q : JobQueue)
      → IsAlive job
      → IsRecorded q
      → IsRecorded (admit_replay job q).0
  unfolding admit_replay
  admit_replay-IsRecorded job q alive h = elim (Option-cases (find_duplicate job q.jobs)) [
    | inl new ↦ rw (new, admit_replay) (omega (arith, dead_jobs-added q.jobs job alive))
    | inr (old, hit) ↦ rw (hit, admit_replay) h
  ]

  replay_at-IsRecorded :
      (index : ℕ) (letter : DeadLetterRecord) (correlation : String) (now clock : Time)
      (new_id : String) (q : JobQueue)
      → IsRecorded q
      → IsRecorded (replay_at marshal index letter correlation now clock new_id q).0
  unfolding replay_at
  replay_at-IsRecorded index letter correlation now clock new_id q h =
      made (new_queue_job marshal (replay_input letter correlation) clock new_id) refl
    where
      written : IsRecorded (mark_replayed q index letter now)
      written = omega (arith, length-set q.dead_letters index _)

      made :
          (r : Result QueueJob)
          → new_queue_job marshal (replay_input letter correlation) clock new_id ≡ r
          → IsRecorded (replay_at marshal index letter correlation now clock new_id q).0
      made (ok job) e =
          let alive = correlated-IsAlive letter correlation clock new_id job e in
          rw (e, replay_at) (admit_replay-IsRecorded (correlated job letter) _ alive written)
      made (err x) e = rw (e, replay_at) written

  replay-IsRecorded :
      (record_id correlation : String) (now clock : Time) (new_id : String) (q : JobQueue)
      → IsRecorded q
      → IsRecorded (replay_dead_letter marshal record_id correlation now clock new_id q).0
  unfolding replay_dead_letter
  replay-IsRecorded record_id correlation now clock new_id q h =
      elim (Option-cases (find_record record_id q.dead_letters)) [
        | inl gone ↦ rw (gone, replay_dead_letter) h
        | inr ((index, letter), found) ↦
            rw (found, replay_dead_letter)
              (replay_at-IsRecorded index letter correlation now clock new_id q h)
      ]

  step-IsRecorded :
      (q : JobQueue) (c : Call) → Admits IsAlive c → IsRecorded q → IsRecorded (step marshal q c)
  unfolding step complete pause resume cancel record_dead_letter reap
  step-IsRecorded q (enqueues job) n h =
      unfold enqueue in ground (arith, dead_jobs-added q.jobs job n)
  step-IsRecorded q (enqueues_unique job) n h =
      unfold enqueue_unique in ground (arith, dead_jobs-added q.jobs job n)
  step-IsRecorded q (leases_ready now limit max_concurrency ttl) n h =
      lease_ready-IsRecorded now limit max_concurrency ttl q h
  step-IsRecorded q (leases_job id now max_concurrency ttl) n h =
      lease_job-IsRecorded id now max_concurrency ttl q h
  step-IsRecorded q (completes id) n h =
      with_job-IsRecorded q id complete_job (λ job next e d. unfold complete_job in ground arith) h
  step-IsRecorded q (pauses id) n h =
      with_job-IsRecorded q id pause_job (λ job next e d. unfold pause_job in ground arith) h
  step-IsRecorded q (cancels id) n h =
      with_job-IsRecorded q id cancel_job (λ job next e d. unfold cancel_job in ground arith) h
  step-IsRecorded q (cancels_correlation correlation) n h =
      unfold cancel_by_correlation in
      ground (arith, dead_jobs-cancel_matching (trim_space correlation) q.jobs)
  step-IsRecorded q (resumes id now) n h =
      with_job-IsRecorded q id (resume_job now) (λ job next e d. unfold resume_job in ground arith)
        h
  step-IsRecorded q (records_dead_letter job error now new_id) n h =
      omega (arith, length-snoc q.dead_letters (dead_letter_for job error now new_id))
  step-IsRecorded q (fails id error now base new_id) n h =
      fail-IsRecorded id error now base new_id q h
  step-IsRecorded q (fails_for_good id error now new_id) n h =
      fail_non_retryable-IsRecorded id error now new_id q h
  step-IsRecorded q (replays record_id correlation now clock new_id) n h =
      replay-IsRecorded record_id correlation now clock new_id q h
  step-IsRecorded q (reads now) n h = omega (arith, dead_jobs-reap now q)

  each-IsRecorded :
      (q : JobQueue) (cs : List Call)
      → All (Admits IsAlive) cs
      → IsRecorded q
      → IsRecorded (run marshal q cs)
  unfolding run
  each-IsRecorded q [] ns h = h
  each-IsRecorded q (c ∷ cs) ns h =
      each-IsRecorded (step marshal q c) cs ns.1 (step-IsRecorded q c ns.0 h)

  -- Take a queue that counts as many failures as it has dead letters, and in which no more jobs are
  -- dead than there are dead letters. After any history of the calls of Steps that enqueue no dead
  -- job both still hold.
  pub run-IsRecorded :
      (q : JobQueue) (cs : List Call)
      → All (Admits IsAlive) cs
      → q.failure_count ≡ length q.dead_letters
      → dead_jobs q.jobs ≤ length q.dead_letters
      → ((run marshal q cs).failure_count ≡ length (run marshal q cs).dead_letters)
        × (dead_jobs (run marshal q cs).jobs ≤ length (run marshal q cs).dead_letters)
  run-IsRecorded q cs ns counted recorded =
      (run-IsCounted marshal q cs counted, each-IsRecorded q cs ns recorded)
