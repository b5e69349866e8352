-- ===== src/Store/Queue/Views.antt =====
-- What the clients of an `InMemoryJobQueue` (gitrank/packages/store/memory.go) see of its state:
-- `Snapshot`, `ExportState` and `RestoreState`.
use gitrank.Common.{ℕ, suc, ◌+◌, ◌≡◌, refl, ap, List, [], ◌∷◌, map, length, count_by, arith}
use gitrank.Common.Clock.{Time}
use gitrank.Store.Jobs.{
  QueueJob, JobStatus, pending, leased, running, succeeded, failed, dead_letter, paused, canceled,
  is_active, holds_lease, status_eq,
}
use gitrank.Store.Queue.State.{JobQueue, reap, reap_job, snapshot}
use gitrank.Store.Queue.Admission.{export_state, restore_state}

abbrev count_status : JobStatus → List QueueJob → ℕ
count_status s jobs = count_by (λ j. status_eq j.status s) jobs

statuses-total :
    (jobs : List QueueJob)
    → (count_status pending jobs
          + count_status leased jobs
          + count_status running jobs
          + count_status paused jobs
        ≡ count_by (λ j. is_active j.status) jobs)
      × (count_status leased jobs + count_status running jobs
          ≡ count_by (λ j. holds_lease j.status) jobs)
      × (count_status pending jobs
            + count_status leased jobs
            + count_status running jobs
            + count_status paused jobs
            + count_status succeeded jobs
            + count_status failed jobs
            + count_status dead_letter jobs
            + count_status canceled jobs
          ≡ length jobs)
statuses-total [] = (refl, refl, refl)
statuses-total (job ∷ jobs) = ground (arith, statuses-total jobs)

-- The figures of a snapshot agree: `Queued` is the sum of the pending, leased, running and paused
-- jobs, `ActiveLeases` of the leased and running ones, and the counts of all statuses add up to the
-- number of jobs in the queue, which taking the snapshot does not change.
snapshot_totals :
    (now : Time) (q : JobQueue)
    → let s = (snapshot now q).1 in
      (s.by_status pending + s.by_status leased + s.by_status running + s.by_status paused
        ≡ s.queued)
      × (s.by_status leased + s.by_status running ≡ s.active_leases)
      × (s.by_status pending
            + s.by_status leased
            + s.by_status running
            + s.by_status paused
            + s.by_status succeeded
            + s.by_status failed
            + s.by_status dead_letter
            + s.by_status canceled
          ≡ length q.jobs)
unfolding snapshot
snapshot_totals now q =
    let t = statuses-total (reap now q).jobs in (t.0, t.1, omega (arith, t.2, length-reap))
  where
    length-map : (jobs : List QueueJob) → length (map (reap_job now) jobs) ≡ length jobs
    length-map [] = refl
    length-map (job ∷ jobs) = ap suc (length-map jobs)

    length-reap : length (reap now q).jobs ≡ length q.jobs
    length-reap = length-map q.jobs

reap_job_idem : (now : Time) (job : QueueJob) → reap_job now (reap_job now job) ≡ reap_job now job
unfolding reap_job
reap_job_idem now job = ground arith

reap_idem :
    (now : Time) (jobs : List QueueJob)
    → map (reap_job now) (map (reap_job now) jobs) ≡ map (reap_job now) jobs
reap_idem now [] = refl
reap_idem now (job ∷ jobs) = rw (reap_job_idem now job, reap_idem now jobs)

-- A queue restored from an export is, whatever it held before, the exporting queue with the leases
-- given back that have expired; a second export at the same time gives the same state.
pub restore-export :
    (now : Time) (q other : JobQueue)
    → (restore_state (export_state now q).1 other ≡ (export_state now q).0)
      × ((export_state now (restore_state (export_state now q).1 other)).1 ≡ (export_state now q).1)
unfolding export_state restore_state reap
restore-export now q other = (refl, rw (reap_idem now q.jobs))
