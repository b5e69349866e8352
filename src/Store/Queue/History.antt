-- ===== src/Store/Queue/History.antt =====
-- What the methods of `InMemoryJobQueue` (gitrank/packages/store/memory.go) do to its list of jobs.
use text.Mathlib.Text.{◌==◌ as str_eq}
use gitrank.Common.{
  ℕ, zero, suc, false, ◌≡◌, refl, inl, inr, String, Option, some, List, [], ◌∷◌, set, arith,
  Option-cases, Bool-cases,
}
use gitrank.Common.Int.{pos, leb_ℤ, nonpos}
use gitrank.Common.Clock.{Time, Duration}
use gitrank.Common.Grown.{Grown, Grown-refl, Grown-map}
use gitrank.Store.Jobs.{
  Bytes, QueueJob, QueueJobInput, pending, Result, ok, err, is_terminal, new_queue_job,
}
use gitrank.Store.Queue.State.{JobQueue, reap, reap_job, find_job, with_job, settle}
use gitrank.Store.Queue.Transitions.{cancel_matching, fail_at, fail_non_retryable_at}
use gitrank.Store.Queue.Leases.{lease_loop}
use gitrank.Store.Queue.Lifecycle.{
  Moves, Moves-refl, reap_job-Moves, lease-Moves, canceled_job-Moves, retried-Moves, buried-Moves,
  spent-Moves,
}

-- What `NewQueueJob` guarantees of the job it makes.
pub record IsNew (job : QueueJob) : Type 0 where
  pub queued : job.status ≡ pending
  pub untried : job.attempt_count ≡ 0
  pub triable : nonpos job.max_attempts ≡ false

pub new_queue_job-IsNew :
    {A : Type 0} (marshal : A → Option Bytes) (input : QueueJobInput A) (now : Time) (id : String)
    (job : QueueJob)
    → new_queue_job marshal input now id ≡ ok job
    → IsNew job
unfolding new_queue_job
new_queue_job-IsNew marshal input now id job h = ground arith

module _ (N : QueueJob → Type 0) where
  abbrev pub Follows : List QueueJob → List QueueJob → Type 0
  Follows = Grown Moves N

  pub Follows-refl : (jobs : List QueueJob) → Follows jobs jobs
  Follows-refl = Grown-refl Moves N Moves-refl

  pub Follows-reap : (now : Time) (q : JobQueue) → Follows q.jobs (reap now q).jobs
  unfolding reap
  Follows-reap now q = Grown-map Moves N (reap_job now) (reap_job-Moves now) q.jobs

  -- A write at the index that `jobIndexLocked` found.
  pub Follows-set :
      (id : String) (jobs : List QueueJob) (index : ℕ) (job next : QueueJob)
      → find_job id jobs ≡ some (index, job)
      → Moves job next
      → Follows jobs (set jobs index next)
  unfolding find_job
  Follows-set id [] index job next h m = tt
  Follows-set id (x ∷ jobs) index job next h m = elim (Bool-cases (str_eq x.id id)) [
    | inl hit ↦ ground (arith, m, Follows-refl jobs)
    | inr miss ↦ elim (Option-cases (find_job id jobs)) [
      | inl gone ↦ ground arith
      | inr ((i, j), found) ↦ ground (arith, Moves-refl x, Follows-set id jobs i j next found)
    ]
  ]

  -- A method of the shape of `Complete`: what it stores is a move of the job that it found.
  pub Follows-with_job :
      (q : JobQueue) (id : String) (change : QueueJob → Result QueueJob)
      → ((job next : QueueJob) → change job ≡ ok next → Moves job next)
      → Follows q.jobs (with_job q id change).0.jobs
  unfolding with_job
  Follows-with_job q id change moves = elim (Option-cases (find_job id q.jobs)) [
    | inl gone ↦ rw (gone, with_job) (Follows-refl q.jobs)
    | inr ((index, job), found) ↦ rw (found, with_job) (settled index job found (change job) refl)
  ]
    where
      settled :
          (index : ℕ) (job : QueueJob)
          → find_job id q.jobs ≡ some (index, job)
          → (r : Result QueueJob) → change job ≡ r
          → Follows q.jobs (settle q index r).0.jobs
      settled index job found (ok next) e =
          Follows-set id q.jobs index job next found (moves job next e)
      settled index job found (err x) e = Follows-refl q.jobs

  pub Follows-cancel_matching :
      (correlation : String) (jobs : List QueueJob)
      → Follows jobs (cancel_matching correlation jobs).0
  unfolding cancel_matching
  Follows-cancel_matching correlation [] = tt
  Follows-cancel_matching correlation (job ∷ jobs) =
      ground
        (arith, Follows-cancel_matching correlation jobs, Moves-refl job, canceled_job-Moves job)

  pub Follows-lease_loop :
      (now : Time) (ttl : Duration) (limit : ℕ) (jobs : List QueueJob)
      → Follows jobs (lease_loop now ttl limit jobs).0
  unfolding lease_loop
  Follows-lease_loop now ttl zero jobs = Follows-refl jobs
  Follows-lease_loop now ttl (suc limit) [] = tt
  Follows-lease_loop now ttl (suc limit) (job ∷ jobs) = ground (
    arith,
    Follows-lease_loop now ttl limit jobs,
    Follows-lease_loop now ttl (suc limit) jobs,
    Moves-refl job,
    lease-Moves now ttl job,
  )

  pub Follows-fail_at :
      (id : String) (index : ℕ) (job : QueueJob) (error : Option String) (now : Time)
      (base : Duration) (new_id : String) (q : JobQueue)
      → find_job id q.jobs ≡ some (index, job)
      → Follows q.jobs (fail_at index job error now base new_id q).0.jobs
  unfolding fail_at
  Follows-fail_at id index job error now base new_id q found =
      elim (Bool-cases (is_terminal job.status)) [
        | inl over ↦ rw over (Follows-refl q.jobs)
        | inr going ↦ elim (Bool-cases (leb_ℤ job.max_attempts (pos (suc job.attempt_count)))) [
          | inl last ↦
              rw (going, last)
                (Follows-set id q.jobs index job _ found (buried-Moves job error going))
          | inr more ↦
              rw (going, more)
                (Follows-set id q.jobs index job _ found
                  (retried-Moves job error going _ (ground arith)))
        ]
      ]

  pub Follows-fail_non_retryable_at :
      (id : String) (index : ℕ) (job : QueueJob) (error : Option String) (now : Time)
      (new_id : String) (q : JobQueue)
      → find_job id q.jobs ≡ some (index, job)
      → Follows q.jobs (fail_non_retryable_at index job error now new_id q).0.jobs
  unfolding fail_non_retryable_at
  Follows-fail_non_retryable_at id index job error now new_id q found =
      elim (Bool-cases (is_terminal job.status)) [
        | inl over ↦ rw over (Follows-refl q.jobs)
        | inr going ↦
            rw going (Follows-set id q.jobs index job _ found (spent-Moves job error going now))
      ]
