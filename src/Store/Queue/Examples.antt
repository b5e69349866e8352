-- ===== src/Store/Queue/Examples.antt =====
-- Small runs of the job queue (gitrank/packages/store/memory.go).
use Prim.Native.Nat.{max}
use gitrank.Common.{
  ◌+◌, ◌≤◌, ◌≡◌, refl, Option, none, some, String, List, [], ◌∷◌, map, keep, take, length, All,
  get_elem?, set, arith, trim_space,
}
use gitrank.Common.Int.{pos}
use gitrank.Common.Clock.{Time}
use gitrank.Store.Jobs.{Bytes, QueueJob, pending, ok}
use gitrank.Store.Queue.State.{JobQueue, new_job_queue, reap, reap_job, find_job}
use gitrank.Store.Queue.Transitions.{attempted, fail, retry_delay}
use gitrank.Store.Queue.Leases.{lease_ready, lease, is_ready, active_leases}
use gitrank.Store.Queue.Admission.{export_state, restore_state, enqueue_unique, replay_dead_letter}
use gitrank.Store.Queue.Steps.{Call, enqueues_unique, leases_ready, fails, replays, step, run}
use gitrank.Store.Queue.Lifecycle.{Moves}
use gitrank.Store.Queue.Dedupe.{KeysUnique, run-KeysUnique}
use gitrank.Store.Queue.Leasing.{Within, allowed, lease_ready_lem, lease_ready-bounded}
use gitrank.Store.Queue.Guarantees.{IsTriable, run-Moves, run-IsTriable}
use gitrank.Store.Queue.Failures.{
  retry_delay-overflow, fail_backoff, fail_last, fails_in_row, dead_lettered,
}
use gitrank.Store.Queue.Letters.{dead_jobs}
use gitrank.Store.Queue.Recorded.{run-IsRecorded}
use gitrank.Store.Queue.Views.{restore-export}

abbrev sync_job : String → String → QueueJob
sync_job id key = record {
  id = id;
  queue_name = "sync";
  type = "sync.user_history";
  status = pending;
  correlation_id = "c";
  delivery_id = "";
  installation_id = pos 7;
  repository = "";
  subject = "octo";
  dedupe_key = key;
  attempt_count = 0;
  max_attempts = pos 2;
  scheduled_at = 100;
  not_before = 100;
  lease_expires_at = 0;
  last_error = "";
  payload = [];
}

abbrev verbatim : Bytes → Option Bytes
verbatim payload = some payload

abbrev two_jobs : JobQueue
two_jobs = record new_job_queue { jobs = sync_job "a" "user:octo" ∷ sync_job "b" "user:ada" ∷ [] }

abbrev calls : List Call
calls =
    enqueues_unique (sync_job "c" "user:octo")
    ∷ leases_ready 200 (pos 0) (pos 1) (pos 50)
    ∷ fails "a" (some "down") 210 (pos 5) "d1"
    ∷ fails "a" none 230 (pos 5) "d2"
    ∷ replays "d2" "" 300 301 "e"
    ∷ []

-- The second job with the key of the first is not added, the first fails twice, and its dead letter
-- comes back as a new job.
calls_jobs : map (λ (j : QueueJob). j.id) (run verbatim two_jobs calls).jobs ≡ "a" ∷ "b" ∷ "e" ∷ []
unfolding run step enqueue_unique lease_ready fail replay_dead_letter reap_job trim_space
calls_jobs = refl

run-KeysUnique_example : KeysUnique (run verbatim two_jobs calls).jobs
run-KeysUnique_example =
    run-KeysUnique verbatim two_jobs calls (refl, (tt, (tt, (tt, (tt, tt))))) (refl, (refl, tt))
      ((refl, tt), (tt, tt))

run-Moves_example :
    (next : QueueJob) × (get_elem? (run verbatim two_jobs calls).jobs 1 ≡ some next)
    × Moves (sync_job "b" "user:ada") next
run-Moves_example = run-Moves verbatim two_jobs calls 1 (sync_job "b" "user:ada") refl

sync_job-IsTriable : (id key : String) → IsTriable (sync_job id key)
sync_job-IsTriable id key = (ground arith, ground arith)

run-IsTriable_example : All IsTriable (run verbatim two_jobs calls).jobs
run-IsTriable_example =
    run-IsTriable verbatim two_jobs calls
      (sync_job-IsTriable "c" "user:octo", (tt, (tt, (tt, (tt, tt)))))
      (sync_job-IsTriable "a" "user:octo", (sync_job-IsTriable "b" "user:ada", tt))

run-IsRecorded_example :
    ((run verbatim two_jobs calls).failure_count
      ≡ length (run verbatim two_jobs calls).dead_letters)
    × (dead_jobs (run verbatim two_jobs calls).jobs
        ≤ length (run verbatim two_jobs calls).dead_letters)
run-IsRecorded_example =
    run-IsRecorded verbatim two_jobs calls (refl, (tt, (tt, (tt, (tt, tt))))) refl (omega arith)

lease_ready_lem_example :
    (lease_ready 200 (pos 0) (pos 1) (pos 50) two_jobs).1
    ≡ map (lease 200 (pos 50)) (
        take
          (allowed 200 (pos 0) (pos 1) (pos 50) two_jobs)
          (keep (is_ready 200) (reap 200 two_jobs).jobs))
lease_ready_lem_example = lease_ready_lem 200 (pos 0) (pos 1) (pos 50) two_jobs

-- A worker pool of one gets the first job alone.
lease_ready_first :
    map (λ (j : QueueJob). j.id) (lease_ready 200 (pos 0) (pos 1) (pos 50) two_jobs).1 ≡ "a" ∷ []
unfolding lease_ready reap_job
lease_ready_first = refl

lease_ready-bounded_example :
    Within
      (lease_ready 200 (pos 0) (pos 1) (pos 50) two_jobs).0.jobs
      (lease_ready 200 (pos 0) (pos 1) (pos 50) two_jobs).1
    × (active_leases (lease_ready 200 (pos 0) (pos 1) (pos 50) two_jobs).0.jobs
        ≡ active_leases (reap 200 two_jobs).jobs
          + length (lease_ready 200 (pos 0) (pos 1) (pos 50) two_jobs).1)
    × (active_leases (lease_ready 200 (pos 0) (pos 1) (pos 50) two_jobs).0.jobs
        ≤ max (active_leases (reap 200 two_jobs).jobs) 1)
lease_ready-bounded_example = lease_ready-bounded 200 (pos 0) (pos 1) (pos 50) two_jobs refl

found_b : find_job "b" two_jobs.jobs ≡ some (1, sync_job "b" "user:ada")
unfolding find_job
found_b = refl

fail_backoff_example :
    let again = record (attempted (sync_job "b" "user:ada") (some "down")) {
      status = pending;
      not_before = 205;
    } in
    fail "b" (some "down") 200 (pos 5) "d" two_jobs
    ≡ (record two_jobs { jobs = set two_jobs.jobs 1 again; retry_count = 1 }, ok (again, none))
fail_backoff_example =
    fail_backoff "b" 1 (sync_job "b" "user:ada") (some "down") 200 "d" two_jobs found_b refl 5
      (omega arith) (omega arith) (omega arith)

abbrev tired : QueueJob
tired = record (sync_job "b" "user:ada") { attempt_count = 1 }

abbrev tired_queue : JobQueue
tired_queue = record new_job_queue { jobs = tired ∷ [] }

-- It fails twice.
fail_last_example :
    (due : Time) × (fail "b" none 300 (pos 5) "d" (
        fails_in_row "b"
          (record { error = some "down"; now = 200; base = pos 5; new_id = "e" } ∷ [])
          two_jobs)
      ≡ dead_lettered
          (sync_job "b" "user:ada")
          2
          due
          1
          none
          300
          "d"
          (record two_jobs { retry_count = 1 }))
fail_last_example =
    fail_last "b" 1 (sync_job "b" "user:ada")
      (record { error = some "down"; now = 200; base = pos 5; new_id = "e" } ∷ []) none 300 (pos 5)
      "d" 2 two_jobs found_b refl refl refl

retry_delay-overflow_example : retry_delay (pos 5) 66 ≡ pos 0
retry_delay-overflow_example = retry_delay-overflow (pos 5) 1

restore-export_example :
    (restore_state (export_state 200 two_jobs).1 tired_queue ≡ (export_state 200 two_jobs).0)
    × ((export_state 200 (restore_state (export_state 200 two_jobs).1 tired_queue)).1
        ≡ (export_state 200 two_jobs).1)
restore-export_example = restore-export 200 two_jobs tired_queue
