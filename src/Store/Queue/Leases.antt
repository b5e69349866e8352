-- ===== src/Store/Queue/Leases.antt =====
-- gitrank/packages/store/memory.go: `LeaseReady` and `LeaseJob`, which hand jobs to workers.
use gitrank.Common.{
  ℕ, zero, suc, Bool, not, ◌&&◌, ◌||◌, String, Option, none, some, List, [], ◌∷◌, length, count_by,
  if◌then◌else◌,
}
use gitrank.Common.Int.{ℤ, pos, pos_part, ◌-ℤ◌, ltb_ℤ, leb_ℤ, nonpos}
use gitrank.Common.Clock.{Time, Duration, add, after}
use gitrank.Store.Jobs.{
  QueueJob, leased, concurrency_reached, job_not_ready, Result, ok, err, is_pending, holds_lease,
}
use gitrank.Store.Queue.State.{JobQueue, reap, with_job}

-- The jobs that a worker holds.
abbrev pub active_leases : List QueueJob → ℕ
active_leases jobs = count_by (λ j. holds_lease j.status) jobs

-- `job.Status != JobPending || job.NotBefore.After(now)`, negated.
abbrev pub is_ready : Time → QueueJob → Bool
is_ready now job = is_pending job.status && not (after job.not_before now)

unfoldable pub lease : Time → Duration → QueueJob → QueueJob
lease now ttl job =
    if nonpos ttl
    then record job { status = leased }
    else record job { status = leased; lease_expires_at = add now ttl }

-- The room that `maxConcurrency` leaves, and `limit` fitted to it; `none` returns no job at once.
unfoldable pub lease_limit : ℤ → ℤ → ℕ → ℕ → Option ℕ
lease_limit limit max_concurrency busy total =
    let remaining = max_concurrency -ℤ pos busy in
    if nonpos max_concurrency
    then some (if nonpos limit then total else pos_part limit)
    else if nonpos remaining
    then none
    else some (if nonpos limit || ltb_ℤ remaining limit then pos_part remaining else pos_part limit)

-- The loop, which breaks once `limit` jobs are leased: the jobs afterwards, and those leased.
unfoldable pub lease_loop : Time → Duration → ℕ → List QueueJob → List QueueJob × List QueueJob
unfolding lease
lease_loop now ttl zero jobs = (jobs, [])
lease_loop now ttl (suc limit) [] = ([], [])
lease_loop now ttl (suc limit) (job ∷ jobs) =
    let taken = lease_loop now ttl limit jobs in
    let passed = lease_loop now ttl (suc limit) jobs in
    if is_ready now job
    then (lease now ttl job ∷ taken.0, lease now ttl job ∷ taken.1)
    else (job ∷ passed.0, passed.1)

-- `LeaseReady`
unfoldable pub lease_ready : Time → ℤ → ℤ → Duration → JobQueue → JobQueue × List QueueJob
unfolding reap lease_limit lease_loop
lease_ready now limit max_concurrency ttl q =
    let q' = reap now q in
    elim (lease_limit limit max_concurrency (active_leases q'.jobs) (length q'.jobs)) [
      | none ↦ (q', [])
      | some room ↦
          let (after, got) = lease_loop now ttl room q'.jobs in (record q' { jobs = after }, got)
    ]

unfoldable pub lease_one : Time → Duration → QueueJob → Result QueueJob
unfolding lease
lease_one now ttl job = if is_ready now job then ok (lease now ttl job) else err job_not_ready

-- `LeaseJob`
unfoldable pub lease_job : String → Time → ℤ → Duration → JobQueue → JobQueue × Result QueueJob
unfolding reap with_job lease_one
lease_job id now max_concurrency ttl q =
    let q' = reap now q in
    if not (nonpos max_concurrency) && leb_ℤ max_concurrency (pos (active_leases q'.jobs))
    then (q', err concurrency_reached)
    else with_job q' id (lease_one now ttl)
