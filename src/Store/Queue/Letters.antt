-- ===== src/Store/Queue/Letters.antt =====
-- The dead jobs of an `InMemoryJobQueue` (gitrank/packages/store/memory.go) and the records of them.
use text.Mathlib.Text.{◌==◌ as str_eq}
use gitrank.Common.{
  ℕ, zero, suc, ◌≤◌, ◌≡◌, refl, inl, inr, Bool, true, false, String, Option, some, List, [], ◌∷◌,
  ◌++◌, map, set, length, length-snoc, count_by, arith, Option-cases, Bool-cases,
}
use gitrank.Common.Clock.{Time, Duration}
use gitrank.Store.Jobs.{QueueJob, JobStatus, Result, ok, err, dead_letter}
use gitrank.Store.Queue.State.{JobQueue, reap, reap_job, find_job, with_job, settle}
use gitrank.Store.Queue.Transitions.{cancel_matching, bury, dead_letter_for}
use gitrank.Store.Queue.Leases.{lease_loop, lease}

abbrev is_dead : JobStatus → Bool
is_dead dead_letter = true
is_dead _ = false

abbrev pub IsAlive : QueueJob → Type 0
IsAlive job = is_dead job.status ≡ false

-- How many jobs became dead letters.
abbrev pub dead_jobs : List QueueJob → ℕ
dead_jobs jobs = count_by (λ j. is_dead j.status) jobs

-- There are at least as many records as dead jobs.
abbrev pub IsRecorded : JobQueue → Type 0
IsRecorded q = dead_jobs q.jobs ≤ length q.dead_letters

pub dead_jobs-set :
    (id : String) (jobs : List QueueJob) (index : ℕ) (job next : QueueJob)
    → find_job id jobs ≡ some (index, job)
    → (is_dead next.status ≡ true → is_dead job.status ≡ true)
    → dead_jobs (set jobs index next) ≤ dead_jobs jobs
unfolding find_job
dead_jobs-set id [] index job next h m = omega arith
dead_jobs-set id (x ∷ jobs) index job next h m = elim (Bool-cases (str_eq x.id id)) [
  | inl hit ↦ ground arith
  | inr miss ↦ elim (Option-cases (find_job id jobs)) [
    | inl gone ↦ ground arith
    | inr ((i, j), found) ↦ ground (arith, dead_jobs-set id jobs i j next found)
  ]
]

dead_jobs-set-le :
    (jobs : List QueueJob) (index : ℕ) (next : QueueJob)
    → dead_jobs (set jobs index next) ≤ suc (dead_jobs jobs)
dead_jobs-set-le [] index next = omega arith
dead_jobs-set-le (x ∷ jobs) zero next = ground arith
dead_jobs-set-le (x ∷ jobs) (suc index) next = ground (arith, dead_jobs-set-le jobs index next)

pub dead_jobs-added :
    (jobs : List QueueJob) (job : QueueJob)
    → IsAlive job
    → dead_jobs (jobs ++ job ∷ []) ≤ dead_jobs jobs
dead_jobs-added [] job h = ground arith
dead_jobs-added (x ∷ jobs) job h = ground (arith, dead_jobs-added jobs job h)

dead_jobs-map :
    (now : Time) (jobs : List QueueJob) → dead_jobs (map (reap_job now) jobs) ≤ dead_jobs jobs
unfolding reap_job
dead_jobs-map now [] = omega arith
dead_jobs-map now (job ∷ jobs) = ground (arith, dead_jobs-map now jobs)

pub dead_jobs-reap : (now : Time) (q : JobQueue) → dead_jobs (reap now q).jobs ≤ dead_jobs q.jobs
unfolding reap
dead_jobs-reap now q = dead_jobs-map now q.jobs

pub dead_jobs-lease_loop :
    (now : Time) (ttl : Duration) (limit : ℕ) (jobs : List QueueJob)
    → dead_jobs (lease_loop now ttl limit jobs).0 ≤ dead_jobs jobs
unfolding lease_loop lease
dead_jobs-lease_loop now ttl zero jobs = omega arith
dead_jobs-lease_loop now ttl (suc limit) [] = omega arith
dead_jobs-lease_loop now ttl (suc limit) (job ∷ jobs) =
    ground (
      arith,
      dead_jobs-lease_loop now ttl limit jobs,
      dead_jobs-lease_loop now ttl (suc limit) jobs,
    )

pub dead_jobs-cancel_matching :
    (correlation : String) (jobs : List QueueJob)
    → dead_jobs (cancel_matching correlation jobs).0 ≤ dead_jobs jobs
unfolding cancel_matching
dead_jobs-cancel_matching correlation [] = omega arith
dead_jobs-cancel_matching correlation (job ∷ jobs) =
    ground (arith, dead_jobs-cancel_matching correlation jobs)

dead_jobs-with_job :
    (q : JobQueue) (id : String) (change : QueueJob → Result QueueJob)
    → ((job next : QueueJob)
        → change job ≡ ok next
        → is_dead next.status ≡ true
        → is_dead job.status ≡ true)
    → dead_jobs (with_job q id change).0.jobs ≤ dead_jobs q.jobs
unfolding with_job
dead_jobs-with_job q id change keeps = elim (Option-cases (find_job id q.jobs)) [
  | inl gone ↦ rw (gone, with_job) (omega arith)
  | inr ((index, job), found) ↦ rw (found, with_job) (settled index job found (change job) refl)
]
  where
    settled :
        (index : ℕ) (job : QueueJob)
        → find_job id q.jobs ≡ some (index, job)
        → (r : Result QueueJob) → change job ≡ r
        → dead_jobs (settle q index r).0.jobs ≤ dead_jobs q.jobs
    settled index job found (ok next) e =
        dead_jobs-set id q.jobs index job next found (keeps job next e)
    settled index job found (err x) e = omega arith

with_job-letters :
    (q : JobQueue) (id : String) (change : QueueJob → Result QueueJob)
    → (with_job q id change).0.dead_letters ≡ q.dead_letters
unfolding with_job
with_job-letters q id change = ground arith

pub with_job-IsRecorded :
    (q : JobQueue) (id : String) (change : QueueJob → Result QueueJob)
    → ((job next : QueueJob)
        → change job ≡ ok next
        → is_dead next.status ≡ true
        → is_dead job.status ≡ true)
    → IsRecorded q
    → IsRecorded (with_job q id change).0
with_job-IsRecorded q id change keeps h =
    rw (with_job-letters q id change) (omega (arith, dead_jobs-with_job q id change keeps))

pub bury-IsRecorded :
    (q : JobQueue) (index : ℕ) (job : QueueJob) (error : Option String) (now : Time)
    (new_id : String)
    → IsRecorded q
    → IsRecorded (bury q index job error now new_id).0
unfolding bury
bury-IsRecorded q index job error now new_id h = omega (
  arith,
  dead_jobs-set-le q.jobs index job,
  length-snoc q.dead_letters (dead_letter_for job error now new_id),
)
