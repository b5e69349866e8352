-- ===== src/Store/Queue/Leasing.antt =====
-- Which jobs `LeaseReady` and `LeaseJob` hand out (gitrank/packages/store/memory.go), and the limit
-- on what is out at once.
use Prim.Native.Nat.{min, max}
use gitrank.Common.{
  ℕ, zero, suc, ◌+◌, ◌-◌, ◌≤◌, ◌≡◌, refl, sym, ap, ◌∙◌, ◌⊎◌, inl, inr, false, String, Option, none,
  some, List, [], ◌∷◌, map, length, keep, take, take-min, length-take-le, length-map,
  length-keep-le, arith, Bool-cases, if◌then◌else◌,
}
use gitrank.Common.Int.{ℤ, pos_part, nonpos}
use gitrank.Common.Clock.{Time, Duration}
use gitrank.Store.Jobs.{StoreError, QueueJob, Result, err}
use gitrank.Store.Queue.State.{JobQueue, reap, reap_job, with_job}
use gitrank.Store.Queue.Leases.{
  active_leases, is_ready, lease, lease_limit, lease_loop, lease_ready, lease_one, lease_job,
}

-- How many jobs a call of `LeaseReady` may hand out: what it asks for, all if it names no limit, and
-- no more than the concurrency limit leaves, if there is one.
abbrev pub allowance : ℤ → ℤ → ℕ → ℕ → ℕ
allowance limit max_concurrency busy total =
    let wanted = if nonpos limit then total else pos_part limit in
    if nonpos max_concurrency then wanted else min wanted (pos_part max_concurrency - busy)

lease_loop-eq :
    (now : Time) (ttl : Duration) (limit : ℕ) (jobs : List QueueJob)
    → (lease_loop now ttl limit jobs).1
      ≡ map (lease now ttl) (take limit (keep (is_ready now) jobs))
unfolding lease_loop
lease_loop-eq now ttl zero jobs = refl
lease_loop-eq now ttl (suc limit) [] = refl
lease_loop-eq now ttl (suc limit) (job ∷ jobs) =
    ground (arith, lease_loop-eq now ttl limit jobs, lease_loop-eq now ttl (suc limit) jobs)

lease_loop-active :
    (now : Time) (ttl : Duration) (limit : ℕ) (jobs : List QueueJob)
    → active_leases (lease_loop now ttl limit jobs).0
      ≡ active_leases jobs + length (lease_loop now ttl limit jobs).1
unfolding lease_loop
lease_loop-active now ttl zero jobs = omega arith
lease_loop-active now ttl (suc limit) [] = omega arith
lease_loop-active now ttl (suc limit) (job ∷ jobs) =
    ground (arith, lease_loop-active now ttl limit jobs, lease_loop-active now ttl (suc limit) jobs)

-- The second list is made of jobs of the first, in the same order.
pub data Within : List QueueJob → List QueueJob → Type 0 where
  ends : {xs : List QueueJob} → Within xs []
  takes : {xs ys : List QueueJob} (x : QueueJob) → Within xs ys → Within (x ∷ xs) (x ∷ ys)
  passes : {xs ys : List QueueJob} (x : QueueJob) → Within xs ys → Within (x ∷ xs) ys

lease_loop-Within :
    (now : Time) (ttl : Duration) (limit : ℕ) (jobs : List QueueJob)
    → Within (lease_loop now ttl limit jobs).0 (lease_loop now ttl limit jobs).1
unfolding lease_loop
lease_loop-Within now ttl zero jobs = ends
lease_loop-Within now ttl (suc limit) [] = ends
lease_loop-Within now ttl (suc limit) (job ∷ jobs) = elim (Bool-cases (is_ready now job)) [
  | inl ready ↦ rw ready (takes (lease now ttl job) (lease_loop-Within now ttl limit jobs))
  | inr busy ↦ rw busy (passes job (lease_loop-Within now ttl (suc limit) jobs))
]

-- What `lease_limit` answers, in terms of the allowance.
abbrev Fits : ℕ → ℕ → Option ℕ → Type 0
Fits total allowed none = allowed ≡ 0
Fits total allowed (some room) = (allowed ≡ room) ⊎ (allowed ≡ min total room)

lease_limit-Fits :
    (limit max_concurrency : ℤ) (busy total : ℕ)
    → Fits total
        (allowance limit max_concurrency busy total)
        (lease_limit limit max_concurrency busy total)
unfolding lease_limit
lease_limit-Fits limit max_concurrency busy total = ground arith

take-Fits :
    (total allowed room : ℕ) (jobs : List QueueJob)
    → length jobs ≤ total
    → Fits total allowed (some room)
    → take room jobs ≡ take allowed jobs
take-Fits total allowed room jobs h (inl e) = rw e
take-Fits total allowed room jobs h (inr e) = rw e (sym (take-min total room jobs h))

module _ (now : Time) (limit max_concurrency : ℤ) (ttl : Duration) (q : JobQueue) where
  abbrev pub allowed : ℕ
  allowed =
      allowance limit max_concurrency (active_leases (reap now q).jobs) (length (reap now q).jobs)

  leases :
      (r : Option ℕ)
      → lease_limit limit max_concurrency
          (active_leases (reap now q).jobs)
          (length (reap now q).jobs)
        ≡ r
      → Fits (length (reap now q).jobs) allowed r
      → (lease_ready now limit max_concurrency ttl q).1
        ≡ map (lease now ttl) (take allowed (keep (is_ready now) (reap now q).jobs))
  unfolding lease_ready
  leases none e f = rw (e, lease_ready) (rw f)
  leases (some room) e f =
      rw (e, lease_ready)
        (lease_loop-eq now ttl room (reap now q).jobs
          ∙ ap (map (lease now ttl)) (
              take-Fits (length (reap now q).jobs) allowed room _
                (length-keep-le (is_ready now) (reap now q).jobs) f))

  -- `LeaseReady` hands out, in queue order, the first jobs that are pending and due once expired
  -- leases are given back: as many as the limits allow, each with the status and lease time set.
  pub lease_ready_lem :
      (lease_ready now limit max_concurrency ttl q).1
      ≡ map (lease now ttl) (take allowed (keep (is_ready now) (reap now q).jobs))
  lease_ready_lem = leases _ refl (lease_limit-Fits limit max_concurrency _ _)

  room_kept :
      (r : Option ℕ)
      → lease_limit limit max_concurrency
          (active_leases (reap now q).jobs)
          (length (reap now q).jobs)
        ≡ r
      → active_leases (lease_ready now limit max_concurrency ttl q).0.jobs
        ≡ active_leases (reap now q).jobs + length (lease_ready now limit max_concurrency ttl q).1
  unfolding lease_ready
  room_kept none e = rw (e, lease_ready) (omega arith)
  room_kept (some room) e = rw (e, lease_ready) (lease_loop-active now ttl room (reap now q).jobs)

  stored :
      (r : Option ℕ)
      → lease_limit limit max_concurrency
          (active_leases (reap now q).jobs)
          (length (reap now q).jobs)
        ≡ r
      → Within
          (lease_ready now limit max_concurrency ttl q).0.jobs
          (lease_ready now limit max_concurrency ttl q).1
  unfolding lease_ready
  stored none e = rw (e, lease_ready) ends
  stored (some room) e = rw (e, lease_ready) (lease_loop-Within now ttl room (reap now q).jobs)

  -- Under a positive concurrency limit, the jobs that `LeaseReady` returns stand in the queue
  -- afterwards just as they are returned, in the same order and each at a place of its own; the
  -- leases that are out are as many more than those that were out once expired ones were given
  -- back as it returns jobs; and they are no more than the limit, unless more were out before.
  pub lease_ready-bounded :
      nonpos max_concurrency ≡ false
      → Within
          (lease_ready now limit max_concurrency ttl q).0.jobs
          (lease_ready now limit max_concurrency ttl q).1
        × (active_leases (lease_ready now limit max_concurrency ttl q).0.jobs
            ≡ active_leases (reap now q).jobs
              + length (lease_ready now limit max_concurrency ttl q).1)
        × (active_leases (lease_ready now limit max_concurrency ttl q).0.jobs
            ≤ max (active_leases (reap now q).jobs) (pos_part max_concurrency))
  lease_ready-bounded h =
      let added = room_kept _ refl in
      (
        stored _ refl,
        added,
        grind (
          arith,
          added,
          ap length lease_ready_lem,
          length-map (lease now ttl) (take allowed (keep (is_ready now) (reap now q).jobs)),
          length-take-le allowed (keep (is_ready now) (reap now q).jobs),
        ),
      )

active_leases-map :
    (now : Time) (jobs : List QueueJob)
    → active_leases (map (reap_job now) jobs) ≤ active_leases jobs
unfolding reap_job
active_leases-map now [] = omega arith
active_leases-map now (job ∷ jobs) = ground (arith, active_leases-map now jobs)

pub active_leases-reap :
    (now : Time) (q : JobQueue) → active_leases (reap now q).jobs ≤ active_leases q.jobs
unfolding reap
active_leases-reap now q = active_leases-map now q.jobs

with_job-refused :
    (q : JobQueue) (id : String) (change : QueueJob → Result QueueJob) (e : StoreError)
    → (with_job q id change).1 ≡ err e
    → (with_job q id change).0 ≡ q
unfolding with_job
with_job-refused q id change e h = ground arith

-- A refusal of `LeaseJob` leases nothing.
pub lease_job-refused :
    (id : String) (now : Time) (max_concurrency : ℤ) (ttl : Duration) (q : JobQueue)
    (e : StoreError)
    → (lease_job id now max_concurrency ttl q).1 ≡ err e
    → active_leases (lease_job id now max_concurrency ttl q).0.jobs ≤ active_leases q.jobs
unfolding lease_job
lease_job-refused id now max_concurrency ttl q e h =
    grind (arith, active_leases-reap now q, with_job-refused (reap now q) id (lease_one now ttl) e)
