-- ===== src/Scheduler/PlanCalls.antt =====
-- The calls on the queue that the plans and the ticks of the scheduler make
-- (gitrank/services/scheduler-worker/internal/service/backfill.go).
use text.Mathlib.Text.{◌==◌ as str_eq}
use gitrank.Common.{
  ℕ, suc, ◌+◌, ◌≡◌, refl, inl, inr, Bool-cases, Option-cases, String, Option, List, [], ◌∷◌, length,
  trim_space,
}
use gitrank.Common.Clock.{Time}
use gitrank.Contracts.Sync.{SyncRequest}
use gitrank.Store.Jobs.{Bytes}
use gitrank.Store.SyncJobs.{Payload}
use gitrank.Store.Queue.Steps.{step, cancels_correlation}
use gitrank.Scheduler.State.{
  SchedulerConfig, Scheduler, BackfillPlan, Outcome, done, refused, Outcome-cases, Draw, put_plan,
}
use gitrank.Scheduler.Enqueue.{capture, enqueue_sync_request}
use gitrank.Scheduler.Plans.{
  PlanRequest, with_plan, plan_by_id, new_backfill_plan, default_schedule, create_backfill_plan,
  pause_backfill_plan, resume_backfill_plan, delete_backfill_plan, cancel_plan_jobs,
  cancel_backfill_plan_jobs,
}
use gitrank.Scheduler.Tick.{
  TickResponse, PlanTally, no_tally, target_tally, run_targets, run_plan, run_plans, counted,
  correlation_of, record_tick, recorded, first_response, due_of, in_order, tick,
}
use gitrank.Scheduler.Reaches.{Reaches, Reaches-refl, Reaches-step, Reaches-trans}
use gitrank.Scheduler.Calls.{capture-Reaches, enqueue_sync_request-Reaches}

module _ (remarshal : Bytes → Option Bytes) where
  pub create_backfill_plan-Reaches :
      (parse : String → Option (Time → Time)) (marshal : Payload → Option Bytes)
      (config : SchedulerConfig) (req : PlanRequest) (now : Time) (draw : Draw) (s : Scheduler)
      → Reaches remarshal s.queue (create_backfill_plan parse marshal config req now draw s).0.queue
  unfolding create_backfill_plan
  create_backfill_plan-Reaches parse marshal config req now draw s =
      elim (Outcome-cases (
        new_backfill_plan parse marshal req (default_schedule req.cron config.sync_cron) now
          draw)) [
            | inl (refusal, e) ↦ rw (e, create_backfill_plan) (Reaches-refl remarshal s.queue)
            | inr (plan, e) ↦
                rw (e, create_backfill_plan) (capture-Reaches remarshal draw.captured s)
          ]

  with_plan-queue :
      (plan_id status : String) (now : Time) (change : BackfillPlan → BackfillPlan) (s : Scheduler)
      → (with_plan plan_id status now change s).0.queue ≡ s.queue
  with_plan-queue plan_id status now change s = elim (Option-cases (plan_by_id plan_id s)) [
    | inl gone ↦ rw (gone, with_plan) refl
    | inr (plan, found) ↦ rw (found, with_plan) refl
  ]

  pub pause_backfill_plan-Reaches :
      (plan_id : String) (now : Time) (draw : Draw) (s : Scheduler)
      → Reaches remarshal s.queue (pause_backfill_plan plan_id now draw s).0.queue
  unfolding pause_backfill_plan
  pause_backfill_plan-Reaches plan_id now draw s =
      rw (with_plan-queue plan_id "paused" now _ (capture draw.captured s))
        (capture-Reaches remarshal draw.captured s)

  pub resume_backfill_plan-Reaches :
      (plan_id : String) (now : Time) (draw : Draw) (s : Scheduler)
      → Reaches remarshal s.queue (resume_backfill_plan plan_id now draw s).0.queue
  unfolding resume_backfill_plan
  resume_backfill_plan-Reaches plan_id now draw s =
      rw (with_plan-queue plan_id "resumed" now _ (capture draw.captured s))
        (capture-Reaches remarshal draw.captured s)

  pub delete_backfill_plan-Reaches :
      (plan_id : String) (now : Time) (draw : Draw) (s : Scheduler)
      → Reaches remarshal s.queue (delete_backfill_plan plan_id now draw s).0.queue
  unfolding delete_backfill_plan
  delete_backfill_plan-Reaches plan_id now draw s =
      elim (Option-cases (plan_by_id plan_id (capture draw.captured s))) [
        | inl gone ↦ rw (gone, delete_backfill_plan) (capture-Reaches remarshal draw.captured s)
        | inr (plan, found) ↦
            rw (found, delete_backfill_plan) (capture-Reaches remarshal draw.captured s)
      ]

  cancel_plan_jobs-Reaches :
      (plan : BackfillPlan) (now : Time) (s : Scheduler)
      → Reaches remarshal s.queue (cancel_plan_jobs plan now s).0.queue
  unfolding cancel_plan_jobs step
  cancel_plan_jobs-Reaches plan now s =
      elim (Bool-cases (str_eq (trim_space plan.last_correlation_id) "")) [
        | inl blank ↦ rw blank (Reaches-refl remarshal s.queue)
        | inr given ↦ rw given (
            Reaches-step remarshal s.queue
              (cancels_correlation (trim_space plan.last_correlation_id)) (tt, tt))
      ]

  pub cancel_backfill_plan_jobs-Reaches :
      (plan_id : String) (now : Time) (draw : Draw) (s : Scheduler)
      → Reaches remarshal s.queue (cancel_backfill_plan_jobs plan_id now draw s).0.queue
  unfolding cancel_backfill_plan_jobs
  cancel_backfill_plan_jobs-Reaches plan_id now draw s =
      let captured = capture draw.captured s in
      let reached = capture-Reaches remarshal draw.captured s in
      elim (Option-cases (plan_by_id plan_id captured)) [
        | inl gone ↦ rw (gone, cancel_backfill_plan_jobs) reached
        | inr (plan, found) ↦
            rw (found, cancel_backfill_plan_jobs)
              (Reaches-trans remarshal s.queue captured.queue
                (cancel_plan_jobs plan now captured).0.queue reached
                (cancel_plan_jobs-Reaches plan now captured))
      ]

module _ (marshal : Payload → Option Bytes) (remarshal : Bytes → Option Bytes)
    (config : SchedulerConfig) where
  run_targets-Reaches :
      (targets : List SyncRequest) (correlation : String) (now : Time) (draws : ℕ → Draw) (n : ℕ)
      (t : PlanTally) (s : Scheduler)
      → Reaches remarshal s.queue
          (run_targets marshal config targets correlation now draws n t s).0.queue
  unfolding run_targets
  run_targets-Reaches [] correlation now draws n t s = Reaches-refl remarshal s.queue
  run_targets-Reaches (target ∷ targets) correlation now draws n t s =
      let tried = enqueue_sync_request marshal config target correlation now (draws n) s in
      let reached =
        enqueue_sync_request-Reaches marshal remarshal config target correlation now (draws n) s in
      elim (Outcome-cases (target_tally tried.1 t)) [
        | inl (refusal, e) ↦ rw (e, run_targets) reached
        | inr (t', e) ↦
            rw (e, run_targets)
              (Reaches-trans remarshal s.queue tried.0.queue _ reached
                (run_targets-Reaches targets correlation now draws (suc n) t' tried.0))
      ]

  run_plans-Reaches :
      (plans : List BackfillPlan) (now : Time) (draws : ℕ → Draw) (n : ℕ) (r : TickResponse)
      (s : Scheduler)
      → Reaches remarshal s.queue (run_plans marshal config plans now draws n r s).0.queue
  unfolding run_plans
  run_plans-Reaches [] now draws n r s = Reaches-refl remarshal s.queue
  run_plans-Reaches (plan ∷ plans) now draws n r s =
      let correlation = correlation_of plan (draws n) in
      let ran = run_targets marshal config plan.targets correlation now draws (suc n) no_tally s in
      let reached = run_targets-Reaches plan.targets correlation now draws (suc n) no_tally s in
      elim (Outcome-cases ran.1) [
        | inl (refusal, e) ↦ rw (e, run_plans) reached
        | inr (t, e) ↦
            rw (e, run_plans)
              (Reaches-trans remarshal s.queue ran.0.queue _ reached (
                run_plans-Reaches plans now draws (suc n + length plan.targets) (counted t r)
                  (record ran.0 {
                    plans = put_plan (run_plan plan correlation now t) ran.0.plans;
                  })))
      ]

  recorded-queue : (r : Scheduler × Outcome TickResponse) → (recorded r).0.queue ≡ r.0.queue
  unfolding record_tick
  recorded-queue (s, refused refusal) = refl
  recorded-queue (s, done response) = refl

  pub tick-Reaches :
      (now : Time) (draws : ℕ → Draw) (s : Scheduler)
      → Reaches remarshal s.queue (tick marshal config now draws s).0.queue
  unfolding tick
  tick-Reaches now draws s =
      let captured = capture (draws 0).captured s in
      let due = in_order (due_of now captured.plans) in
      rw (recorded-queue _) (
        Reaches-trans remarshal s.queue captured.queue _
          (capture-Reaches remarshal (draws 0).captured s)
          (run_plans-Reaches due now draws 1 (first_response due now) captured))
