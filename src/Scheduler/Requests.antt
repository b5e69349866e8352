-- ===== src/Scheduler/Requests.antt =====
-- The methods of the scheduler's `Service` (gitrank/services/scheduler-worker/internal/service) as
-- one function over the requests that its clients make, in any order.
use gitrank.Common.{ℕ, String, Option}
use gitrank.Common.Int.{ℤ}
use gitrank.Common.Clock.{Time}
use gitrank.Contracts.Sync.{SyncRequest}
use gitrank.Store.Jobs.{Bytes}
use gitrank.Store.SyncJobs.{Payload}
use gitrank.Scheduler.State.{SchedulerConfig, Scheduler, Draw}
use gitrank.Scheduler.Enqueue.{enqueue_sync_request}
use gitrank.Scheduler.Plans.{
  PlanRequest, create_backfill_plan, pause_backfill_plan, resume_backfill_plan,
  delete_backfill_plan, cancel_backfill_plan_jobs,
}
use gitrank.Scheduler.Tick.{tick}
use gitrank.Scheduler.Actions.{
  lease_jobs, complete_job_call, pause_job_call, resume_job_call, cancel_job_call, fail_job_call,
  replay_call,
}

pub data Request : Type 0 where
  enqueues : SyncRequest → String → Time → Draw → Request
  leases : ℤ → Time → Draw → Request
  completes pauses cancels : String → Draw → Request
  resumes : String → Time → Draw → Request
  fails : String → String → Time → Draw → Request
  replays : String → String → Time → Draw → Request
  creates_plan : PlanRequest → Time → Draw → Request
  pauses_plan resumes_plan deletes_plan cancels_plan_jobs : String → Time → Draw → Request
  ticks : Time → (ℕ → Draw) → Request

module _ (parse : String → Option (Time → Time)) (marshal : Payload → Option Bytes)
    (remarshal : Bytes → Option Bytes) (config : SchedulerConfig) where
  -- The state that a request leaves behind, whether it succeeds or is refused.
  unfoldable pub serve : Scheduler → Request → Scheduler
  serve s (enqueues req correlation now draw) =
      (enqueue_sync_request marshal config req correlation now draw s).0
  serve s (leases limit now draw) = (lease_jobs config limit now draw s).0
  serve s (completes id draw) = (complete_job_call id draw s).0
  serve s (pauses id draw) = (pause_job_call id draw s).0
  serve s (cancels id draw) = (cancel_job_call id draw s).0
  serve s (resumes id now draw) = (resume_job_call id now draw s).0
  serve s (fails id error_message now draw) = (fail_job_call config id error_message now draw s).0
  serve s (replays record_id correlation now draw) =
      (replay_call remarshal record_id correlation now draw s).0
  serve s (creates_plan req now draw) = (create_backfill_plan parse marshal config req now draw s).0
  serve s (pauses_plan id now draw) = (pause_backfill_plan id now draw s).0
  serve s (resumes_plan id now draw) = (resume_backfill_plan id now draw s).0
  serve s (deletes_plan id now draw) = (delete_backfill_plan id now draw s).0
  serve s (cancels_plan_jobs id now draw) = (cancel_backfill_plan_jobs id now draw s).0
  serve s (ticks now draws) = (tick marshal config now draws s).0
