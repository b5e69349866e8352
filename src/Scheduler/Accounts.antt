-- ===== src/Scheduler/Accounts.antt =====
-- What a tick counts (`tickLocal`, gitrank/services/scheduler-worker/internal/service/backfill.go).
use gitrank.Common.{
  ℕ, suc, ◌+◌, ◌≡◌, ap, refl, ◌∙◌, sym, inl, inr, Option, none, some, List, [], ◌∷◌, length, String,
  arith,
}
use gitrank.Common.Clock.{Time}
use gitrank.Contracts.Sync.{SyncRequest}
use gitrank.Store.Jobs.{Bytes, QueueJob}
use gitrank.Store.SyncJobs.{Payload, Built, built, failed, build_sync_jobs}
use gitrank.Store.Built.{build_sync_jobs-IsDraft}
use gitrank.Store.Queue.State.{JobQueue}
use gitrank.Scheduler.State.{
  SchedulerConfig, Scheduler, BackfillPlan, Refusal, rate_limited, Outcome, done, refused,
  Outcome-cases, Draw,
}
use gitrank.Scheduler.Enqueue.{
  Enqueued, enqueue_jobs, answer, admit, enqueue_built, enqueue_sync_request, allow_scoped_rates,
  capture, primary_queue_name,
}
use gitrank.Scheduler.Tick.{
  TickResponse, PlanTally, no_tally, target_tally, run_targets, run_plans, counted, correlation_of,
  first_response, insert_plan, in_order, due_of, tick,
}
use gitrank.Scheduler.PlanRuns.{run_plans-opened, after_plan, recorded-done}

abbrev CountsOne : Outcome Enqueued → Type 0
CountsOne o = (e : Enqueued) → o ≡ done e → length e.job_ids ≡ 1

answer-CountsOne :
    (correlation : String) (now : Time) (s : Scheduler) (job : QueueJob) (q : JobQueue)
    → CountsOne (answer correlation now s (enqueue_jobs (job ∷ []) q)).1
unfolding answer enqueue_jobs
answer-CountsOne correlation now s job q e h = ground arith

admit-CountsOne :
    (job : QueueJob) (correlation : String) (now : Time) (r : Scheduler × Option Refusal)
    → CountsOne (admit (job ∷ []) correlation now r).1
unfolding admit
admit-CountsOne job correlation now (s, some refusal) e h = ground arith
admit-CountsOne job correlation now (s, none) e h =
    answer-CountsOne correlation now s job s.queue e h

abbrev pub targets_of : List BackfillPlan → ℕ
targets_of [] = 0
targets_of (plan ∷ plans) = length plan.targets + targets_of plans

insert_plan-targets :
    (plan : BackfillPlan) (plans : List BackfillPlan)
    → targets_of (insert_plan plan plans) ≡ length plan.targets + targets_of plans
unfolding insert_plan
insert_plan-targets plan [] = refl
insert_plan-targets plan (next ∷ plans) = ground (arith, insert_plan-targets plan plans)

in_order-targets : (plans : List BackfillPlan) → targets_of (in_order plans) ≡ targets_of plans
unfolding in_order
in_order-targets [] = refl
in_order-targets (plan ∷ plans) =
    insert_plan-targets plan (in_order plans)
    ∙ ap (λ n. length plan.targets + n) (in_order-targets plans)

insert_plan-length :
    (plan : BackfillPlan) (plans : List BackfillPlan)
    → length (insert_plan plan plans) ≡ suc (length plans)
unfolding insert_plan
insert_plan-length plan [] = refl
insert_plan-length plan (next ∷ plans) = ground (arith, insert_plan-length plan plans)

in_order-length : (plans : List BackfillPlan) → length (in_order plans) ≡ length plans
unfolding in_order
in_order-length [] = refl
in_order-length (plan ∷ plans) =
    insert_plan-length plan (in_order plans) ∙ ap suc (in_order-length plans)

-- What a response counts of the plans that have run
pub record Accounts (plans : List BackfillPlan) (before after : TickResponse) : Type 0 where
  pub same_due : after.due_plans ≡ before.due_plans
  pub all_executed : after.executed_plans ≡ before.executed_plans + length plans
  pub all_counted :
      after.queued_jobs + after.deduplicated_jobs + after.rate_limited_targets
      ≡ before.queued_jobs
        + before.deduplicated_jobs
        + before.rate_limited_targets
        + targets_of plans

module _ (marshal : Payload → Option Bytes) (config : SchedulerConfig) where
  enqueue_built-CountsOne :
      (req : SyncRequest) (correlation : String) (now : Time) (s : Scheduler) (b : Built)
      → ((jobs : List QueueJob) → b ≡ built jobs → (job : QueueJob) × (jobs ≡ job ∷ []))
      → CountsOne (enqueue_built marshal config req correlation now s b).1
  unfolding enqueue_built
  enqueue_built-CountsOne req correlation now s (failed x) one e h = ground arith
  enqueue_built-CountsOne req correlation now s (built jobs) one e h =
      let (job, alone) = one jobs refl in
      admit-CountsOne job correlation now (allow_scoped_rates req now s) e
        (ap (λ js. (admit js correlation now (allow_scoped_rates req now s)).1) (sym alone) ∙ h)

  pub enqueue_sync_request-CountsOne :
      (req : SyncRequest) (correlation : String) (now : Time) (draw : Draw) (s : Scheduler)
      → CountsOne (enqueue_sync_request marshal config req correlation now draw s).1
  unfolding enqueue_sync_request
  enqueue_sync_request-CountsOne req correlation now draw s =
      enqueue_built-CountsOne req correlation now (capture draw.captured s)
        (build_sync_jobs marshal draw.clock draw.new_id req primary_queue_name correlation
          config.max_attempts)
        (λ jobs made.
          let (mode, job, alone, known) =
            build_sync_jobs-IsDraft marshal draw.clock draw.new_id req primary_queue_name
              correlation config.max_attempts jobs made in
          (job, alone))

  abbrev total : PlanTally → ℕ
  total t = t.queued + t.deduplicated + t.limited

  target_tally-total :
      (o : Outcome Enqueued) (t t' : PlanTally)
      → CountsOne o
      → target_tally o t ≡ done t'
      → total t' ≡ suc (total t)
  target_tally-total (done e) t t' one h = let single = one e refl in ground arith
  target_tally-total (refused (rate_limited scope key retry_after)) t t' one h = ground arith
  target_tally-total (refused refusal) t t' one h = ground arith

  run_targets-total :
      (targets : List SyncRequest) (correlation : String) (now : Time) (draws : ℕ → Draw) (n : ℕ)
      (t : PlanTally) (s : Scheduler) (t' : PlanTally)
      → (run_targets marshal config targets correlation now draws n t s).1 ≡ done t'
      → total t' ≡ total t + length targets
  unfolding run_targets
  run_targets-total [] correlation now draws n t s t' h = ground arith
  run_targets-total (target ∷ targets) correlation now draws n t s t' h =
      let tried = enqueue_sync_request marshal config target correlation now (draws n) s in
      elim (Outcome-cases (target_tally tried.1 t)) [
        | inl (refusal, e) ↦ ground arith
        | inr (t1, e) ↦
            let one = enqueue_sync_request-CountsOne target correlation now (draws n) s in
            let first = target_tally-total tried.1 t t1 one e in
            let opened : run_targets marshal config (target ∷ targets) correlation now draws n t s
                ≡ run_targets marshal config targets correlation now draws (suc n) t1 tried.0 =
              rw (e, run_targets) refl in
            let rest =
              run_targets-total targets correlation now draws (suc n) t1 tried.0 t'
                (ap (λ o. o.1) (sym opened) ∙ h) in
            omega arith
      ]

  run_plans-Accounts :
      (plans : List BackfillPlan) (now : Time) (draws : ℕ → Draw) (n : ℕ) (r : TickResponse)
      (s : Scheduler) (response : TickResponse)
      → (run_plans marshal config plans now draws n r s).1 ≡ done response
      → Accounts plans r response
  unfolding run_plans
  run_plans-Accounts [] now draws n r s response h = ground arith
  run_plans-Accounts (plan ∷ plans) now draws n r s response h =
      let (t, tried, opened) =
        run_plans-opened marshal config plan plans now draws n r s response h in
      let counts =
        run_targets-total plan.targets (correlation_of plan (draws n)) now draws (suc n) no_tally s
          t tried in
      let rest =
        run_plans-Accounts plans now draws (suc n + length plan.targets) (counted t r)
          (after_plan marshal config plan now draws n t s) response
          (ap (λ o. o.1) (sym opened) ∙ h) in
      record {
        same_due = rest.same_due;
        all_executed = ground (arith, rest.all_executed);
        all_counted = ground (arith, rest.all_counted, counts);
      }

  -- If a tick succeeds, it has executed each of the plans that are due, and each of their targets is
  -- counted once: as a queued job, as a job that was in the queue already, or as held back by a rate
  -- limit.
  pub tick-counts :
      (now : Time) (draws : ℕ → Draw) (s : Scheduler) (response : TickResponse)
      → (tick marshal config now draws s).1 ≡ done response
      → (response.due_plans ≡ length (due_of now s.plans))
        × (response.executed_plans ≡ length (due_of now s.plans))
        × (response.queued_jobs + response.deduplicated_jobs + response.rate_limited_targets
            ≡ targets_of (due_of now s.plans))
  unfolding tick
  tick-counts now draws s response h =
      let captured = capture (draws 0).captured s in
      let due = in_order (due_of now s.plans) in
      let accounts =
        run_plans-Accounts due now draws 1 (first_response due now) captured response
          (recorded-done _ response h) in
      let same_length = in_order-length (due_of now s.plans) in
      let same_targets = in_order-targets (due_of now s.plans) in
      (
        accounts.same_due ∙ same_length,
        ground (arith, accounts.all_executed, same_length),
        ground (arith, accounts.all_counted, same_targets),
      )
