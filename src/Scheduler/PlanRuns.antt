-- ===== src/Scheduler/PlanRuns.antt =====
-- One turn of the loop over the due plans of `tickLocal`
-- (gitrank/services/scheduler-worker/internal/service/backfill.go).
use gitrank.Common.{
  ℕ, suc, ◌+◌, ◌≡◌, refl, ◌∙◌, inl, inr, String, Option, List, [], ◌∷◌, length, arith,
}
use gitrank.Common.Clock.{Time}
use gitrank.Contracts.Sync.{SyncRequest}
use gitrank.Store.Jobs.{Bytes}
use gitrank.Store.SyncJobs.{Payload}
use gitrank.Scheduler.State.{
  SchedulerConfig, Scheduler, BackfillPlan, Outcome, done, refused, Outcome-cases, Draw, put_plan,
}
use gitrank.Scheduler.Enqueue.{enqueue_sync_request}
use gitrank.Scheduler.Rates.{enqueue_sync_request-plans}
use gitrank.Scheduler.Tick.{
  TickResponse, PlanTally, no_tally, target_tally, run_targets, run_plan, run_plans, counted,
  correlation_of, record_tick, recorded,
}

pub recorded-done :
    (r : Scheduler × Outcome TickResponse) (response : TickResponse)
    → (recorded r).1 ≡ done response
    → r.1 ≡ done response
recorded-done (s, refused refusal) response h = h
recorded-done (s, done given) response h = h

pub recorded-plans : (r : Scheduler × Outcome TickResponse) → (recorded r).0.plans ≡ r.0.plans
unfolding record_tick
recorded-plans (s, refused refusal) = refl
recorded-plans (s, done response) = refl

module _ (marshal : Payload → Option Bytes) (config : SchedulerConfig) where
  pub run_targets-plans :
      (targets : List SyncRequest) (correlation : String) (now : Time) (draws : ℕ → Draw) (n : ℕ)
      (t : PlanTally) (s : Scheduler)
      → (run_targets marshal config targets correlation now draws n t s).0.plans ≡ s.plans
  unfolding run_targets
  run_targets-plans [] correlation now draws n t s = refl
  run_targets-plans (target ∷ targets) correlation now draws n t s =
      let tried = enqueue_sync_request marshal config target correlation now (draws n) s in
      let kept = enqueue_sync_request-plans marshal config target correlation now (draws n) s in
      elim (Outcome-cases (target_tally tried.1 t)) [
        | inl (refusal, e) ↦ rw (e, run_targets) kept
        | inr (t', e) ↦
            rw (e, run_targets)
              (run_targets-plans targets correlation now draws (suc n) t' tried.0 ∙ kept)
      ]

  -- The state after the first of the due plans
  abbrev pub after_plan : BackfillPlan → Time → (ℕ → Draw) → ℕ → PlanTally → Scheduler → Scheduler
  after_plan plan now draws n t s =
      let correlation = correlation_of plan (draws n) in
      let ran = run_targets marshal config plan.targets correlation now draws (suc n) no_tally s in
      record ran.0 { plans = put_plan (run_plan plan correlation now t) ran.0.plans }

  -- If the loop ends well, it has run the targets of its first plan and then the other plans.
  pub run_plans-opened :
      (plan : BackfillPlan) (plans : List BackfillPlan) (now : Time) (draws : ℕ → Draw) (n : ℕ)
      (r : TickResponse) (s : Scheduler) (response : TickResponse)
      → (run_plans marshal config (plan ∷ plans) now draws n r s).1 ≡ done response
      → (t : PlanTally) × ((run_targets marshal config plan.targets
            (correlation_of plan (draws n))
            now
            draws
            (suc n)
            no_tally
            s).1
          ≡ done t)
        × (run_plans marshal config (plan ∷ plans) now draws n r s
            ≡ run_plans marshal config plans now draws
                (suc n + length plan.targets)
                (counted t r)
                (after_plan plan now draws n t s))
  unfolding run_plans
  run_plans-opened plan plans now draws n r s response ran =
      let correlation = correlation_of plan (draws n) in
      let tried =
        run_targets marshal config plan.targets correlation now draws (suc n) no_tally s in
      elim (Outcome-cases tried.1) [
        | inl (refusal, e) ↦ ground arith
        | inr (t, e) ↦ (t, e, rw (e, run_plans) refl)
      ]
