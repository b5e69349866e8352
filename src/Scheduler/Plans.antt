-- ===== src/Scheduler/Plans.antt =====
-- The backfill plans: creation, listing, pausing, resuming, deleting and the cancellation of their
-- jobs (gitrank/services/scheduler-worker/internal/service/backfill.go). The service in memory; with
-- a state store each runs inside `withDurableMutation`. The cron library is an argument: `parse`
-- gives the `Next` of a schedule.
use text.Mathlib.Text.{◌==◌ as str_eq}
use gitrank.Common.{
  ℕ, Bool, true, false, not, ◌&&◌, String, Option, none, some, List, [], ◌∷◌, length, ltb, ◌==◌,
  trim_space, if◌then◌else◌,
}
use gitrank.Common.Int.{pos}
use gitrank.Common.Clock.{Time, is_zero, zero_time}
use gitrank.Contracts.Sync.{SyncRequest}
use gitrank.Store.Jobs.{Bytes}
use gitrank.Store.SyncJobs.{Payload, built, failed, build_sync_jobs}
use gitrank.Store.Queue.Transitions.{cancel_by_correlation}
use gitrank.Scheduler.State.{
  SchedulerConfig, Scheduler, BackfillPlan, Refusal, not_built, plan_not_found, no_targets,
  cron_malformed, no_correlation, Outcome, done, refused, Draw, find_plan, put_plan, delete_plan,
}
use gitrank.Scheduler.Enqueue.{primary_queue_name, capture}

-- `SchedulerBackfillPlanRequest`
pub record PlanRequest : Type 0 where
  pub name : String
  pub cron : String
  pub enabled : Option Bool
  pub targets : List SyncRequest

-- `SchedulerBackfillPlanActionResponse`; a view copies the fields of the plan.
pub record PlanAction : Type 0 where
  pub status : String
  pub plan : BackfillPlan
  pub correlation_id : String
  pub affected_jobs : ℕ
  pub last_updated_at : Time

-- `defaultSchedule`
unfoldable pub default_schedule : String → String → String
default_schedule plan_cron fallback =
    if str_eq (trim_space plan_cron) "" then trim_space fallback else trim_space plan_cron

abbrev enabled_or : Option Bool → Bool
enabled_or none = true
enabled_or (some enabled) = enabled

-- The check of the targets, by `validateSyncTarget`
unfoldable pub first_invalid : (Payload → Option Bytes) → Draw → List SyncRequest → Option Refusal
first_invalid marshal draw [] = none
first_invalid marshal draw (target ∷ targets) =
    elim (build_sync_jobs marshal draw.clock draw.new_id target primary_queue_name "validate"
      (pos 1)) [ failed e ↦ some (not_built e) | built jobs ↦ first_invalid marshal draw targets ]

abbrev pub has_no_targets : List SyncRequest → Bool
has_no_targets [] = true
has_no_targets (target ∷ targets) = false

module _ (parse : String → Option (Time → Time)) (marshal : Payload → Option Bytes) where
  -- `newBackfillPlan`
  unfoldable pub new_backfill_plan : PlanRequest → String → Time → Draw → Outcome BackfillPlan
  unfolding first_invalid
  new_backfill_plan req cron now draw =
      if has_no_targets req.targets then refused no_targets else elim (parse cron) [
        | none ↦ refused cron_malformed
        | some schedule ↦ elim (first_invalid marshal draw req.targets) [
          | some refusal ↦ refused refusal
          | none ↦ done (record {
            id = draw.new_id;
            name = trim_space req.name;
            cron = cron;
            schedule = schedule;
            enabled = enabled_or req.enabled;
            targets = req.targets;
            last_run_at = none;
            next_run_at = schedule now;
            queued_jobs_total = 0;
            deduplicated_total = 0;
            rate_limited_total = 0;
            created_at = now;
            updated_at = now;
            last_correlation_id = "";
          })
        ]
      ]

  abbrev add_plan : Scheduler → Outcome BackfillPlan → Scheduler × Outcome BackfillPlan
  add_plan s (refused refusal) = (s, refused refusal)
  add_plan s (done plan) = (record s { plans = put_plan plan s.plans }, done plan)

  -- `CreateBackfillPlan`
  unfoldable pub create_backfill_plan :
      SchedulerConfig → PlanRequest → Time → Draw → Scheduler → Scheduler × Outcome BackfillPlan
  unfolding new_backfill_plan default_schedule put_plan
  create_backfill_plan config req now draw s =
      elim (new_backfill_plan req (default_schedule req.cron config.sync_cron) now draw) [
        | refused refusal ↦ (s, refused refusal)
        | done plan ↦ add_plan (capture draw.captured s) (done plan)
      ]

-- `planByIDLocked`
unfoldable pub plan_by_id : String → Scheduler → Option BackfillPlan
unfolding find_plan
plan_by_id plan_id s =
    if str_eq (trim_space plan_id) "" then none else find_plan (trim_space plan_id) s.plans

abbrev pub acted : String → BackfillPlan → Time → Outcome PlanAction
acted status plan now = done (record {
  status = status;
  plan = plan;
  correlation_id = "";
  affected_jobs = 0;
  last_updated_at = now;
})

-- Look the plan up and change it, as `PauseBackfillPlan` and `ResumeBackfillPlan` do.
abbrev pub with_plan :
    String
    → String
    → Time
    → (BackfillPlan → BackfillPlan)
    → Scheduler
    → Scheduler × Outcome PlanAction
with_plan plan_id status now change s = elim (plan_by_id plan_id s) [
  | none ↦ (s, refused plan_not_found)
  | some plan ↦
      (record s { plans = put_plan (change plan) s.plans }, acted status (change plan) now)
]

abbrev pub paused_plan : Time → BackfillPlan → BackfillPlan
paused_plan now plan = record plan { enabled = false; next_run_at = zero_time; updated_at = now }

abbrev pub resumed_plan : Time → BackfillPlan → BackfillPlan
resumed_plan now plan = record plan {
  enabled = true;
  next_run_at = plan.schedule now;
  updated_at = now;
}

-- `PauseBackfillPlan`
unfoldable pub pause_backfill_plan :
    String → Time → Draw → Scheduler → Scheduler × Outcome PlanAction
unfolding plan_by_id put_plan
pause_backfill_plan plan_id now draw s =
    with_plan plan_id "paused" now (paused_plan now) (capture draw.captured s)

-- `ResumeBackfillPlan`
unfoldable pub resume_backfill_plan :
    String → Time → Draw → Scheduler → Scheduler × Outcome PlanAction
unfolding plan_by_id put_plan
resume_backfill_plan plan_id now draw s =
    with_plan plan_id "resumed" now (resumed_plan now) (capture draw.captured s)

-- `DeleteBackfillPlan`; the key that is deleted is the id as it was given.
unfoldable pub delete_backfill_plan :
    String → Time → Draw → Scheduler → Scheduler × Outcome PlanAction
unfolding plan_by_id delete_plan
delete_backfill_plan plan_id now draw s =
    let s' = capture draw.captured s in
    elim (plan_by_id plan_id s') [
      | none ↦ (s', refused plan_not_found)
      | some plan ↦ (record s' { plans = delete_plan plan_id s'.plans }, acted "deleted" plan now)
    ]

abbrev touched : Time → BackfillPlan → BackfillPlan
touched now plan = record plan { updated_at = now }

unfoldable pub cancel_plan_jobs : BackfillPlan → Time → Scheduler → Scheduler × Outcome PlanAction
unfolding cancel_by_correlation put_plan
cancel_plan_jobs plan now s =
    let correlation = trim_space plan.last_correlation_id in
    let canceled = cancel_by_correlation correlation s.queue in
    if str_eq correlation "" then (s, refused no_correlation) else (
      record s { queue = canceled.0; plans = put_plan (touched now plan) s.plans },
      done (record {
        status = if length canceled.1 == 0 then "no_active_jobs" else "canceled_jobs";
        plan = touched now plan;
        correlation_id = correlation;
        affected_jobs = length canceled.1;
        last_updated_at = now;
      }),
    )

-- `cancelBackfillPlanJobsLocal`. Its second lookup finds the plan again, since the service's calls
-- are taken one at a time.
unfoldable pub cancel_backfill_plan_jobs :
    String → Time → Draw → Scheduler → Scheduler × Outcome PlanAction
unfolding plan_by_id cancel_plan_jobs
cancel_backfill_plan_jobs plan_id now draw s =
    let s' = capture draw.captured s in
    elim (plan_by_id plan_id s') [
      | none ↦ (s', refused plan_not_found)
      | some plan ↦ cancel_plan_jobs plan now s'
    ]

-- `backfillPlanListLess`
unfoldable pub backfill_plan_list_less : BackfillPlan → BackfillPlan → Bool
backfill_plan_list_less left right =
    if left.enabled && not right.enabled
    then true
    else if not left.enabled && right.enabled
    then false
    else if not (is_zero left.next_run_at) && is_zero right.next_run_at
    then true
    else if is_zero left.next_run_at && not (is_zero right.next_run_at)
    then false
    else if left.next_run_at == right.next_run_at
    then ltb left.created_at right.created_at
    else ltb left.next_run_at right.next_run_at
