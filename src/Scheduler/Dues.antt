-- ===== src/Scheduler/Dues.antt =====
-- Which plans a tick leaves due (`tickLocal`,
-- gitrank/services/scheduler-worker/internal/service/backfill.go).
use text.Mathlib.Text.{◌==◌ as str_eq}
use gitrank.Common.{
  ℕ, suc, ◌+◌, ◌<◌, ◌≡◌, ◌⊎◌, ap, ◌∙◌, sym, inl, inr, true, false, Bool-cases, String, Option, none,
  some, List, [], ◌∷◌, length, All, arith,
}
use gitrank.Common.Clock.{Time, is_zero}
use gitrank.Store.Jobs.{Bytes}
use gitrank.Store.SyncJobs.{Payload}
use gitrank.Scheduler.State.{SchedulerConfig, Scheduler, BackfillPlan, done, Draw, find_plan}
use gitrank.Scheduler.Enqueue.{capture}
use gitrank.Scheduler.Tick.{
  TickResponse, PlanTally, no_tally, run_targets, run_plan, run_plans, counted, correlation_of,
  first_response, is_due, due_of, in_order, tick,
}
use gitrank.Scheduler.PlanLists.{
  IsOther, find_plan-put, find_plan-put_same, due_of-found, in_order-All, due_of-All,
}
use gitrank.Scheduler.PlanRuns.{
  after_plan, run_plans-opened, run_targets-plans, recorded-done, recorded-plans,
}

-- `Next` of a cron schedule is later than the time it is given, or zero when no time fits.
abbrev pub Advances : BackfillPlan → Type 0
Advances plan = (t : Time) → (is_zero (plan.schedule t) ≡ true) ⊎ (t < plan.schedule t)

module _ (marshal : Payload → Option Bytes) (config : SchedulerConfig) where
  run_plan-rests :
      (plan : BackfillPlan) (correlation : String) (now : Time) (t : PlanTally)
      → Advances plan
      → is_due now (run_plan plan correlation now t) ≡ false
  run_plan-rests plan correlation now t advances = elim (advances now) [
    | inl never ↦ ground arith
    | inr later ↦ ground arith
  ]

  after_plan-found :
      (id : String) (p : BackfillPlan) (now : Time) (draws : ℕ → Draw) (n : ℕ) (t : PlanTally)
      (s : Scheduler) (plan : BackfillPlan)
      → Advances p
      → find_plan id (after_plan marshal config p now draws n t s).plans ≡ some plan
      → (is_due now plan ≡ false) ⊎ ((find_plan id s.plans ≡ some plan) × IsOther id p)
  after_plan-found id p now draws n t s plan advances h =
      let correlation = correlation_of p (draws n) in
      let p' = run_plan p correlation now t in
      let ran = run_targets marshal config p.targets correlation now draws (suc n) no_tally s in
      elim (Bool-cases (str_eq p.id id)) [
        | inl same ↦
            let found = sym (find_plan-put_same id p' ran.0.plans same) ∙ h in
            inl (
              ap (λ o. elim o [ none ↦ false | some q ↦ is_due now q ]) (sym found)
              ∙ run_plan-rests p correlation now t advances)
        | inr other ↦ inr (
          ap (find_plan id) (
                sym (
                  run_targets-plans marshal config p.targets correlation now draws (suc n) no_tally
                    s))
              ∙ sym (find_plan-put id p' ran.0.plans other)
              ∙ h,
          other,
        )
      ]

  run_plans-found :
      (id : String) (plans : List BackfillPlan) (now : Time) (draws : ℕ → Draw) (n : ℕ)
      (r : TickResponse) (s : Scheduler) (response : TickResponse) (plan : BackfillPlan)
      → (run_plans marshal config plans now draws n r s).1 ≡ done response
      → All Advances plans
      → find_plan id (run_plans marshal config plans now draws n r s).0.plans ≡ some plan
      → (is_due now plan ≡ false) ⊎ ((find_plan id s.plans ≡ some plan) × All (IsOther id) plans)
  unfolding run_plans
  run_plans-found id [] now draws n r s response plan ran later h = inr (h, tt)
  run_plans-found id (p ∷ plans) now draws n r s response plan ran later h =
      let (t, tried, opened) =
        run_plans-opened marshal config p plans now draws n r s response ran in
      let next = after_plan marshal config p now draws n t s in
      elim (run_plans-found id plans now draws (suc n + length p.targets) (counted t r) next
        response plan (ap (λ o. o.1) (sym opened) ∙ ran) later.1
        (ap (λ o. find_plan id o.0.plans) (sym opened) ∙ h)) [
          | inl rests ↦ inl rests
          | inr (found, others) ↦ elim (after_plan-found id p now draws n t s plan later.0 found) [
            | inl rests ↦ inl rests
            | inr (earlier, other) ↦ inr (earlier, (other, others))
          ]
        ]

  -- If a tick succeeds, no plan that the service finds afterwards is due at the time of the tick,
  -- whatever its targets came to, provided that `Next` of each plan's schedule is zero or later than
  -- the time it is given.
  pub tick-rests :
      (now : Time) (draws : ℕ → Draw) (s : Scheduler) (response : TickResponse) (id : String)
      (plan : BackfillPlan)
      → All Advances s.plans
      → (tick marshal config now draws s).1 ≡ done response
      → find_plan id (tick marshal config now draws s).0.plans ≡ some plan
      → is_due now plan ≡ false
  unfolding tick
  tick-rests now draws s response id plan advances ran h =
      let captured = capture (draws 0).captured s in
      let due = in_order (due_of now s.plans) in
      let ticked = run_plans marshal config due now draws 1 (first_response due now) captured in
      elim (run_plans-found id due now draws 1 (first_response due now) captured response plan
        (recorded-done ticked response ran)
        ((in_order-All Advances (due_of now s.plans)).1 (due_of-All Advances now s.plans advances))
        (ap (find_plan id) (sym (recorded-plans ticked)) ∙ h)) [
          | inl rests ↦ rests
          | inr (found, others) ↦
              due_of-found id now s.plans plan
                ((in_order-All (IsOther id) (due_of now s.plans)).0 others) found
        ]
