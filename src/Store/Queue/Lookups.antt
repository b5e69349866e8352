-- ===== src/Store/Queue/Lookups.antt =====
-- The jobs that `LeaseJob`, `Complete`, `Fail` and `FailNonRetryable`
-- (gitrank/packages/store/memory.go) find by their ids, one call after another.
use text.Mathlib.Text.{◌==◌ as str_eq}
use gitrank.Common.{
  ℕ, suc, ◌≡◌, refl, sym, ◌∙◌, ap, inl, inr, true, false, Bool-cases, Option-cases, String, none,
  some, List, [], ◌∷◌, map, set, not, ◌&&◌, arith, subst, eq_iff,
}
use gitrank.Common.Int.{ℤ, pos, leb_ℤ, nonpos}
use gitrank.Common.Clock.{Time, Duration}
use gitrank.Common.Grown.{Grown}
use gitrank.Store.Jobs.{
  QueueJob, concurrency_reached, job_not_ready, job_not_found, Result, ok, err, is_terminal,
}
use gitrank.Store.Queue.State.{JobQueue, reap, reap_job, find_job, with_job}
use gitrank.Store.Queue.Leases.{lease_job, lease_one, lease, is_ready, active_leases}

same_some : {A : Type 0} {a b : A} → some a ≡ some b → a ≡ b
same_some {a = a} h = ap (λ o. elim o [ none ↦ a | some x ↦ x ]) h

find_job-hit :
    (id : String) (first : QueueJob) (jobs : List QueueJob)
    → str_eq first.id id ≡ true
    → find_job id (first ∷ jobs) ≡ some (0, first)
unfolding find_job
find_job-hit id first jobs hit = rw (hit, find_job) refl

find_job-miss :
    (id : String) (first : QueueJob) (jobs : List QueueJob) (j : ℕ) (found : QueueJob)
    → str_eq first.id id ≡ false
    → find_job id jobs ≡ some (j, found)
    → find_job id (first ∷ jobs) ≡ some (suc j, found)
unfolding find_job
find_job-miss id first jobs j found miss e = rw (miss, e, find_job) refl

find_job-gone :
    (id : String) (first : QueueJob) (jobs : List QueueJob)
    → str_eq first.id id ≡ false
    → find_job id jobs ≡ none
    → find_job id (first ∷ jobs) ≡ none
unfolding find_job
find_job-gone id first jobs miss e = rw (miss, e, find_job) refl

-- A lookup finds the first job or finds behind it.
data Found (id : String) (first : QueueJob) (jobs : List QueueJob) (i : ℕ) (job : QueueJob)
    : Type 0 where
  here :
      str_eq first.id id ≡ true
      → ◌≡◌ {A = ℕ × QueueJob} (i, job) (0, first)
      → Found id first jobs i job
  behind :
      str_eq first.id id ≡ false
      → (j : ℕ) (found : QueueJob) → find_job id jobs ≡ some (j, found)
      → ◌≡◌ {A = ℕ × QueueJob} (i, job) (suc j, found)
      → Found id first jobs i job

find_job-Found :
    (id : String) (first : QueueJob) (jobs : List QueueJob) (i : ℕ) (job : QueueJob)
    → find_job id (first ∷ jobs) ≡ some (i, job)
    → Found id first jobs i job
find_job-Found id first jobs i job h = elim (Bool-cases (str_eq first.id id)) [
  | inl hit ↦ here hit (same_some (sym h ∙ find_job-hit id first jobs hit))
  | inr miss ↦ elim (Option-cases (find_job id jobs)) [
    | inl gone ↦ let nothing = sym h ∙ find_job-gone id first jobs miss gone in ground arith
    | inr ((j, found), e) ↦
        behind miss j found e (same_some (sym h ∙ find_job-miss id first jobs j found miss e))
  ]
]

pub find_job-id :
    (id : String) (jobs : List QueueJob) (i : ℕ) (job : QueueJob)
    → find_job id jobs ≡ some (i, job)
    → str_eq job.id id ≡ true
unfolding find_job
find_job-id id [] i job h = ground arith
find_job-id id (first ∷ jobs) i job h = elim (find_job-Found id first jobs i job h) [
  | here hit at ↦ subst (λ a. str_eq a.1.id id ≡ true) (sym at) hit
  | behind miss j found e at ↦
      subst (λ a. str_eq a.1.id id ≡ true) (sym at) (find_job-id id jobs j found e)
]

find_job-empty :
    {A : Type 0} (id : String) (i : ℕ) (job : QueueJob) → find_job id [] ≡ some (i, job) → A
unfolding find_job
find_job-empty id i job h = ground arith

pub find_job-set :
    (id : String) (jobs : List QueueJob) (i : ℕ) (job next : QueueJob)
    → find_job id jobs ≡ some (i, job)
    → next.id ≡ job.id
    → find_job id (set jobs i next) ≡ some (i, next)
find_job-set id [] i job next h same = find_job-empty id i job h
find_job-set id (first ∷ jobs) i job next h same = elim (find_job-Found id first jobs i job h) [
  | here hit at ↦
      subst (λ a. find_job id (set (first ∷ jobs) a.0 next) ≡ some (a.0, next)) (sym at)
        (find_job-hit id next jobs (ap (λ x. str_eq x id) (same ∙ ap (λ a. a.1.id) at) ∙ hit))
  | behind miss j found e at ↦
      subst (λ a. find_job id (set (first ∷ jobs) a.0 next) ≡ some (a.0, next)) (sym at)
        (find_job-miss id first (set jobs j next) j next miss
          (find_job-set id jobs j found next e (same ∙ ap (λ a. a.1.id) at)))
]

reap_job-id : (now : Time) (job : QueueJob) → (reap_job now job).id ≡ job.id
unfolding reap_job
reap_job-id now job = ground arith

pub find_job-reap :
    (id : String) (now : Time) (jobs : List QueueJob) (i : ℕ) (job : QueueJob)
    → find_job id jobs ≡ some (i, job)
    → find_job id (map (reap_job now) jobs) ≡ some (i, reap_job now job)
find_job-reap id now [] i job h = find_job-empty id i job h
find_job-reap id now (first ∷ jobs) i job h =
    let reaped = map (reap_job now) jobs in
    let same = ap (λ x. str_eq x id) (reap_job-id now first) in
    elim (find_job-Found id first jobs i job h) [
      | here hit at ↦
          subst (λ a. find_job id (reap_job now first ∷ reaped) ≡ some (a.0, reap_job now a.1))
            (sym at) (find_job-hit id (reap_job now first) reaped (same ∙ hit))
      | behind miss j found e at ↦
          subst (λ a. find_job id (reap_job now first ∷ reaped) ≡ some (a.0, reap_job now a.1))
            (sym at)
            (find_job-miss id (reap_job now first) reaped j (reap_job now found) (same ∙ miss)
              (find_job-reap id now jobs j found e))
    ]

-- A lookup finds the job again where the list has moved on.
pub find_job-Grown :
    (R : QueueJob → QueueJob → Type 0) (N : QueueJob → Type 0)
    → ((x y : QueueJob) → R x y → y.id ≡ x.id)
    → (id : String) (xs ys : List QueueJob) (i : ℕ) (job : QueueJob)
    → find_job id xs ≡ some (i, job)
    → Grown R N xs ys
    → (next : QueueJob) × (find_job id ys ≡ some (i, next)) × R job next
find_job-Grown R N same id [] ys i job h g = find_job-empty id i job h
find_job-Grown R N same id (x ∷ xs) [] i job h g = elim g [ ]
find_job-Grown R N same id (x ∷ xs) (y ∷ ys) i job h g = elim (find_job-Found id x xs i job h) [
  | here hit at ↦
      subst (λ a. (next : QueueJob) × (find_job id (y ∷ ys) ≡ some (a.0, next)) × R a.1 next)
        (sym at) (y, find_job-hit id y ys (ap (λ k. str_eq k id) (same x y g.0) ∙ hit), g.0)
  | behind miss j found e at ↦
      let (next, later, moved) = find_job-Grown R N same id xs ys j found e g.1 in
      subst (λ a. (n : QueueJob) × (find_job id (y ∷ ys) ≡ some (a.0, n)) × R a.1 n) (sym at)
        (
          next,
          find_job-miss id y ys j next (ap (λ k. str_eq k id) (same x y g.0) ∙ miss) later,
          moved,
        )
]

-- The queue holds the job, which is not in a terminal state.
pub record IsTaken (job : QueueJob) (q : JobQueue) : Type 0 where
  pub index : ℕ
  pub found : find_job job.id q.jobs ≡ some (index, job)
  pub unsettled : is_terminal job.status ≡ false

abbrev pub Takes : JobQueue × Result QueueJob → Type 0
Takes (q, ok job) = IsTaken job q
Takes (q, err concurrency_reached) = Unit
Takes (q, err job_not_ready) = Unit
Takes (q, err job_not_found) = Unit
Takes (q, err e) = ⊥

lease-same :
    (now : Time) (ttl : Duration) (job : QueueJob)
    → ((lease now ttl job).id ≡ job.id) × (is_terminal (lease now ttl job).status ≡ false)
unfolding lease
lease-same now ttl job = (ground arith, ground arith)

-- A job that is written back over the one that was found, under the same id.
IsTaken-set :
    (id : String) (i : ℕ) (job next : QueueJob) (q : JobQueue)
    → find_job id q.jobs ≡ some (i, job)
    → next.id ≡ job.id
    → is_terminal next.status ≡ false
    → IsTaken next (record q { jobs = set q.jobs i next })
IsTaken-set id i job next q found same running = record {
  index = i;
  found =
      subst (λ k. find_job k (set q.jobs i next) ≡ some (i, next))
        (sym (same ∙ (eq_iff job.id id).0 (find_job-id id q.jobs i job found)))
        (find_job-set id q.jobs i job next found same);
  unsettled = running;
}

lease_at-Takes :
    (now : Time) (ttl : Duration) (id : String) (q : JobQueue)
    → Takes (with_job q id (lease_one now ttl))
unfolding with_job lease_one
lease_at-Takes now ttl id q = elim (Option-cases (find_job id q.jobs)) [
  | inl gone ↦ rw (gone, with_job) tt
  | inr ((i, job), found) ↦ elim (Bool-cases (is_ready now job)) [
    | inr busy ↦ rw (found, with_job, busy) tt
    | inl ready ↦
        let (same, running) = lease-same now ttl job in
        rw (found, with_job, ready) (IsTaken-set id i job (lease now ttl job) q found same running)
  ]
]

pub lease_job-Takes :
    (id : String) (now : Time) (max_concurrency : ℤ) (ttl : Duration) (q : JobQueue)
    → Takes (lease_job id now max_concurrency ttl q)
unfolding lease_job
lease_job-Takes id now max_concurrency ttl q =
    let reaped = reap now q in
    elim (Bool-cases
      (not (nonpos max_concurrency) && leb_ℤ max_concurrency (pos (active_leases reaped.jobs)))) [
        | inl full ↦ rw (full, lease_job) tt
        | inr room ↦ rw (room, lease_job) (lease_at-Takes now ttl id reaped)
      ]
