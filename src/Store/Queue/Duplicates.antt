-- ===== src/Store/Queue/Duplicates.antt =====
-- What `EnqueueUnique` (gitrank/packages/store/memory.go) finds when it is called again.
use mathlib.Core.Option
use text.Mathlib.Text.{◌==◌ as str_eq}
use gitrank.Common.{
  ◌≡◌, ◌⊎◌, refl, sym, ◌∙◌, ap, inl, inr, Bool, true, Bool-cases, Option-cases, none, some, List,
  [], ◌∷◌, ◌++◌, map, if◌then◌else◌, arith,
}
use gitrank.Common.Clock.{Time}
use gitrank.Store.Jobs.{QueueJob, ok, err, job_id_required}
use gitrank.Store.Queue.State.{JobQueue, reap_job, lease_expired}
use gitrank.Store.Queue.Admission.{duplicates, find_duplicate, enqueue_unique}

-- The search looks at the key of the job alone.
pub find_duplicate-key :
    (a b : QueueJob) (jobs : List QueueJob)
    → a.dedupe_key ≡ b.dedupe_key
    → find_duplicate a jobs ≡ find_duplicate b jobs
unfolding find_duplicate
find_duplicate-key a b [] same = refl
find_duplicate-key a b (job ∷ jobs) same = rw (same, find_duplicate-key a b jobs same) refl

-- Giving an expired lease back makes no job active or inactive.
duplicates-reap :
    (job existing : QueueJob) (now : Time)
    → duplicates job (reap_job now existing) ≡ duplicates job existing
unfolding reap_job
duplicates-reap job existing now = elim (Bool-cases (lease_expired now existing)) [
  | inl expired ↦ ground arith
  | inr held ↦ rw held refl
]

pub find_duplicate-reap :
    (job : QueueJob) (now : Time) (jobs : List QueueJob) (found : QueueJob)
    → find_duplicate job jobs ≡ some found
    → find_duplicate job (map (reap_job now) jobs) ≡ some (reap_job now found)
unfolding find_duplicate
find_duplicate-reap job now [] found h = ground arith
find_duplicate-reap job now (first ∷ jobs) found h =
    let alike = duplicates-reap job first now in
    elim (Bool-cases (duplicates job first)) [
      | inl hit ↦
          let same = ap (λ b. if b then some first else find_duplicate job jobs) (sym hit) ∙ h in
          rw (alike, hit) (ap (λ o. Option.map (reap_job now) o) same)
      | inr miss ↦ rw (alike, miss) (find_duplicate-reap job now jobs found (ground arith))
    ]

find_duplicate-added :
    (job : QueueJob) (jobs : List QueueJob)
    → duplicates job job ≡ true
    → find_duplicate job jobs ≡ none
    → find_duplicate job (jobs ++ job ∷ []) ≡ some job
unfolding find_duplicate
find_duplicate-added job [] self h = rw self refl
find_duplicate-added job (first ∷ jobs) self h = ground (arith, find_duplicate-added job jobs self)

pub enqueue_unique-found :
    (job entry : QueueJob) (duplicate : Bool) (q : JobQueue)
    → duplicates job job ≡ true
    → (enqueue_unique job q).1 ≡ ok (entry, duplicate)
    → find_duplicate job (enqueue_unique job q).0.jobs ≡ some entry
unfolding enqueue_unique
enqueue_unique-found job entry duplicate q self h = elim (Bool-cases (str_eq job.id "")) [
  | inl blank ↦ ground arith
  | inr given ↦ elim (Option-cases (find_duplicate job q.jobs)) [
    | inl none_yet ↦
        let added = find_duplicate-added job q.jobs self none_yet in ground (arith, added)
    | inr (existing, found) ↦ ground arith
  ]
]

pub enqueue_unique-again :
    (job entry : QueueJob) (q : JobQueue)
    → find_duplicate job q.jobs ≡ some entry
    → ((enqueue_unique job q).1 ≡ err job_id_required)
      ⊎ (enqueue_unique job q ≡ (q, ok (entry, true)))
unfolding enqueue_unique
enqueue_unique-again job entry q found = elim (Bool-cases (str_eq job.id "")) [
  | inl blank ↦ inl (rw blank refl)
  | inr given ↦ inr (rw (given, found) refl)
]
