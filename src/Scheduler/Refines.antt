-- ===== src/Scheduler/Refines.antt =====
-- The scheduler's service (gitrank/services/scheduler-worker/internal/service) as a client of the
-- job queue (gitrank/packages/store/memory.go).
use gitrank.Common.{String, Option}
use gitrank.Common.Clock.{Time}
use gitrank.Store.Jobs.{Bytes}
use gitrank.Store.SyncJobs.{Payload}
use gitrank.Scheduler.State.{SchedulerConfig, Scheduler}
use gitrank.Scheduler.Requests.{
  Request, enqueues, leases, completes, pauses, cancels, resumes, fails, replays, creates_plan,
  pauses_plan, resumes_plan, deletes_plan, cancels_plan_jobs, ticks, serve,
}
use gitrank.Scheduler.Reaches.{Reaches}
use gitrank.Scheduler.Calls.{enqueue_sync_request-Reaches}
use gitrank.Scheduler.JobCalls.{
  lease_jobs-Reaches, complete_job_call-Reaches, pause_job_call-Reaches, resume_job_call-Reaches,
  cancel_job_call-Reaches, fail_job_call-Reaches, replay_call-Reaches,
}
use gitrank.Scheduler.PlanCalls.{
  create_backfill_plan-Reaches, pause_backfill_plan-Reaches, resume_backfill_plan-Reaches,
  delete_backfill_plan-Reaches, cancel_backfill_plan_jobs-Reaches, tick-Reaches,
}

module _ (parse : String → Option (Time → Time)) (marshal : Payload → Option Bytes)
    (remarshal : Bytes → Option Bytes) (config : SchedulerConfig) where
  pub serve-Reaches :
      (s : Scheduler) (r : Request)
      → Reaches remarshal s.queue (serve parse marshal remarshal config s r).queue
  unfolding serve
  serve-Reaches s (enqueues req correlation now draw) =
      enqueue_sync_request-Reaches marshal remarshal config req correlation now draw s
  serve-Reaches s (leases limit now draw) = lease_jobs-Reaches remarshal config limit now draw s
  serve-Reaches s (completes id draw) = complete_job_call-Reaches remarshal id draw s
  serve-Reaches s (pauses id draw) = pause_job_call-Reaches remarshal id draw s
  serve-Reaches s (cancels id draw) = cancel_job_call-Reaches remarshal id draw s
  serve-Reaches s (resumes id now draw) = resume_job_call-Reaches remarshal id now draw s
  serve-Reaches s (fails id error_message now draw) =
      fail_job_call-Reaches remarshal config id error_message now draw s
  serve-Reaches s (replays record_id correlation now draw) =
      replay_call-Reaches remarshal record_id correlation now draw s
  serve-Reaches s (creates_plan req now draw) =
      create_backfill_plan-Reaches remarshal parse marshal config req now draw s
  serve-Reaches s (pauses_plan id now draw) = pause_backfill_plan-Reaches remarshal id now draw s
  serve-Reaches s (resumes_plan id now draw) = resume_backfill_plan-Reaches remarshal id now draw s
  serve-Reaches s (deletes_plan id now draw) = delete_backfill_plan-Reaches remarshal id now draw s
  serve-Reaches s (cancels_plan_jobs id now draw) =
      cancel_backfill_plan_jobs-Reaches remarshal id now draw s
  serve-Reaches s (ticks now draws) = tick-Reaches marshal remarshal config now draws s
