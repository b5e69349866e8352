-- ===== src/Scheduler/Tick.antt =====
-- `tickLocal` and `recordTick` (gitrank/services/scheduler-worker/internal/service/backfill.go). The
-- source sorts the due plans by `sort.Slice`, which leaves those alike in both times in any order;
-- here they keep the order of the list.
use Prim.Native.String.{◌++◌ as append}
use gitrank.Common.{
  ℕ, suc, ◌+◌, Bool, not, ◌&&◌, String, Option, some, List, [], ◌∷◌, length, ltb, ◌==◌,
  if◌then◌else◌,
}
use gitrank.Common.Clock.{Time, is_zero, after}
use gitrank.Contracts.Sync.{SyncRequest}
use gitrank.Store.Jobs.{Bytes}
use gitrank.Store.SyncJobs.{Payload}
use gitrank.Scheduler.State.{
  SchedulerConfig, Scheduler, BackfillPlan, rate_limited, Outcome, done, refused, Draw, put_plan,
}
use gitrank.Scheduler.Enqueue.{Enqueued, enqueue_sync_request, capture}

-- `SchedulerTickResponse`
pub record TickResponse : Type 0 where
  pub due_plans : ℕ
  pub executed_plans : ℕ
  pub queued_jobs : ℕ
  pub deduplicated_jobs : ℕ
  pub rate_limited_targets : ℕ
  pub last_tick_at : Time

abbrev pub tick_status : TickResponse → String
tick_status r = if ltb 0 r.due_plans then "ran_due_plans" else "idle"

-- plan.Enabled && !plan.NextRunAt.IsZero() && !plan.NextRunAt.After(now)
abbrev pub is_due : Time → BackfillPlan → Bool
is_due now plan = plan.enabled && not (is_zero plan.next_run_at) && not (after plan.next_run_at now)

unfoldable pub due_of : Time → List BackfillPlan → List BackfillPlan
due_of now [] = []
due_of now (plan ∷ plans) =
    let rest = due_of now plans in if is_due now plan then plan ∷ rest else rest

-- The order in which due plans run
abbrev pub runs_before : BackfillPlan → BackfillPlan → Bool
runs_before a b =
    if a.next_run_at == b.next_run_at
    then ltb a.created_at b.created_at
    else ltb a.next_run_at b.next_run_at

unfoldable pub insert_plan : BackfillPlan → List BackfillPlan → List BackfillPlan
insert_plan plan [] = plan ∷ []
insert_plan plan (next ∷ plans) =
    let later = insert_plan plan plans in
    if runs_before next plan then next ∷ later else plan ∷ next ∷ plans

unfoldable pub in_order : List BackfillPlan → List BackfillPlan
unfolding insert_plan
in_order [] = []
in_order (plan ∷ plans) = insert_plan plan (in_order plans)

-- The counters of one plan
pub record PlanTally : Type 0 where
  pub queued : ℕ
  pub deduplicated : ℕ
  pub limited : ℕ

abbrev pub no_tally : PlanTally
no_tally = record { queued = 0; deduplicated = 0; limited = 0 }

abbrev pub tallied : Enqueued → PlanTally → PlanTally
tallied e t =
    if e.deduplicated
    then record t { deduplicated = t.deduplicated + length e.job_ids }
    else record t { queued = t.queued + length e.job_ids }

-- What the loop makes of one target: it goes on with a tally, or ends the tick with an error.
abbrev pub target_tally : Outcome Enqueued → PlanTally → Outcome PlanTally
target_tally (done e) t = done (tallied e t)
target_tally (refused (rate_limited scope key retry_after)) t =
    done (record t { limited = suc t.limited })
target_tally (refused refusal) t = refused refusal

abbrev pub run_plan : BackfillPlan → String → Time → PlanTally → BackfillPlan
run_plan plan correlation now t = record plan {
  last_run_at = some now;
  next_run_at = plan.schedule now;
  updated_at = now;
  last_correlation_id = correlation;
  queued_jobs_total = plan.queued_jobs_total + t.queued;
  deduplicated_total = plan.deduplicated_total + t.deduplicated;
  rate_limited_total = plan.rate_limited_total + t.limited;
}

abbrev pub correlation_of : BackfillPlan → Draw → String
correlation_of plan draw = append "backfill:" (append plan.id (append ":" draw.new_id))

abbrev pub counted : PlanTally → TickResponse → TickResponse
counted t r = record r {
  executed_plans = suc r.executed_plans;
  queued_jobs = r.queued_jobs + t.queued;
  deduplicated_jobs = r.deduplicated_jobs + t.deduplicated;
  rate_limited_targets = r.rate_limited_targets + t.limited;
}

-- `recordTick`
unfoldable pub record_tick : TickResponse → Scheduler → Scheduler
record_tick r s = record s {
  ticks = record s.ticks {
    runs = suc s.ticks.runs;
    due_plans = s.ticks.due_plans + r.due_plans;
    executed_plans = s.ticks.executed_plans + r.executed_plans;
    queued_jobs = s.ticks.queued_jobs + r.queued_jobs;
    deduplicated_jobs = s.ticks.deduplicated_jobs + r.deduplicated_jobs;
    rate_limited_targets = s.ticks.rate_limited_targets + r.rate_limited_targets;
    last_tick_at = r.last_tick_at;
  };
}

abbrev pub recorded : Scheduler × Outcome TickResponse → Scheduler × Outcome TickResponse
recorded (s, refused refusal) = (s, refused refusal)
recorded (s, done r) = (record_tick r s, done r)

abbrev pub first_response : List BackfillPlan → Time → TickResponse
first_response due now = record {
  due_plans = length due;
  executed_plans = 0;
  queued_jobs = 0;
  deduplicated_jobs = 0;
  rate_limited_targets = 0;
  last_tick_at = now;
}

module _ (marshal : Payload → Option Bytes) (config : SchedulerConfig) where
  -- The loop over the targets of a plan; the n-th draw is the next one.
  unfoldable pub run_targets :
      List SyncRequest
      → String
      → Time
      → (ℕ → Draw)
      → ℕ
      → PlanTally
      → Scheduler
      → Scheduler × Outcome PlanTally
  run_targets [] correlation now draws n t s = (s, done t)
  run_targets (target ∷ targets) correlation now draws n t s =
      let tried = enqueue_sync_request marshal config target correlation now (draws n) s in
      elim (target_tally tried.1 t) [
        | refused refusal ↦ (tried.0, refused refusal)
        | done t' ↦ run_targets targets correlation now draws (suc n) t' tried.0
      ]

  -- The loop over the due plans
  unfoldable pub run_plans :
      List BackfillPlan
      → Time
      → (ℕ → Draw)
      → ℕ
      → TickResponse
      → Scheduler
      → Scheduler × Outcome TickResponse
  unfolding run_targets put_plan
  run_plans [] now draws n r s = (s, done r)
  run_plans (plan ∷ plans) now draws n r s =
      let correlation = correlation_of plan (draws n) in
      let ran = run_targets plan.targets correlation now draws (suc n) no_tally s in
      elim ran.1 [
        | refused refusal ↦ (ran.0, refused refusal)
        | done t ↦
            run_plans plans now draws (suc n + length plan.targets) (counted t r)
              (record ran.0 { plans = put_plan (run_plan plan correlation now t) ran.0.plans })
      ]

  -- `tickLocal`
  unfoldable pub tick : Time → (ℕ → Draw) → Scheduler → Scheduler × Outcome TickResponse
  unfolding due_of in_order run_plans record_tick
  tick now draws s =
      let s' = capture (draws 0).captured s in
      let due = in_order (due_of now s'.plans) in
      recorded (run_plans due now draws 1 (first_response due now) s')
