-- ===== src/Scheduler/Deletes.antt =====
-- What `DeleteBackfillPlan` (gitrank/services/scheduler-worker/internal/service/backfill.go) deletes.
use text.Mathlib.Text.{◌==◌ as str_eq}
use gitrank.Common.{
  ◌≡◌, refl, ◌∙◌, ap, inl, inr, false, Bool-cases, String, none, some, List, [], ◌∷◌, trim_space,
  arith, eq_iff,
}
use gitrank.Common.Clock.{Time}
use gitrank.Scheduler.State.{Scheduler, BackfillPlan, Draw, find_plan, delete_plan}
use gitrank.Scheduler.Enqueue.{capture}
use gitrank.Scheduler.Plans.{acted, plan_by_id, delete_backfill_plan}

find_plan-delete :
    (id : String) (plans : List BackfillPlan) → find_plan id (delete_plan id plans) ≡ none
unfolding find_plan delete_plan
find_plan-delete id [] = refl
find_plan-delete id (plan ∷ plans) = ground (arith, find_plan-delete id plans)

find_plan-delete_other :
    (id other : String) (plans : List BackfillPlan)
    → str_eq id other ≡ false
    → find_plan other (delete_plan id plans) ≡ find_plan other plans
unfolding find_plan delete_plan
find_plan-delete_other id other [] differ = refl
find_plan-delete_other id other (plan ∷ plans) differ =
    let rest = find_plan-delete_other id other plans differ in
    elim (Bool-cases (str_eq plan.id id)) [
      | inl hit ↦
          let same = (eq_iff plan.id id).0 hit in
          let skips = ap (λ i. str_eq i other) same ∙ differ in rw (hit, skips) rest
      | inr miss ↦ rw (miss, rest) refl
    ]

-- A key that no plan has deletes nothing.
delete_plan-absent :
    (id : String) (plans : List BackfillPlan)
    → find_plan id plans ≡ none
    → delete_plan id plans ≡ plans
unfolding find_plan delete_plan
delete_plan-absent id [] h = refl
delete_plan-absent id (plan ∷ plans) h = elim (Bool-cases (str_eq plan.id id)) [
  | inl hit ↦ ground arith
  | inr miss ↦ rw (miss, delete_plan-absent id plans (ground arith)) refl
]

-- The lookup reads the plans alone.
plan_by_id-plans :
    (id : String) (s t : Scheduler) → s.plans ≡ t.plans → plan_by_id id s ≡ plan_by_id id t
unfolding plan_by_id
plan_by_id-plans id s t same = rw same refl

plan_by_id-bare :
    (id : String) (s : Scheduler)
    → trim_space id ≡ id
    → find_plan id s.plans ≡ none
    → plan_by_id id s ≡ none
unfolding plan_by_id
plan_by_id-bare id s bare absent = elim (Bool-cases (str_eq id "")) [
  | inl blank ↦ rw (bare, blank) refl
  | inr given ↦ rw (bare, given) absent
]

deleted :
    (id : String) (now : Time) (draw : Draw) (s : Scheduler) (plan : BackfillPlan)
    → plan_by_id id s ≡ some plan
    → delete_backfill_plan id now draw s ≡ (
      record (capture draw.captured s) { plans = delete_plan id s.plans },
      acted "deleted" plan now,
    )
unfolding delete_backfill_plan
deleted id now draw s plan found = rw (found, delete_backfill_plan) refl

-- The deletion of a plan, under an id without spaces around it, is answered "deleted" with that plan;
-- afterwards the id finds no plan, and every other id finds what it found before.
delete_backfill_plan-removes :
    (id other : String) (now : Time) (draw : Draw) (s : Scheduler) (plan : BackfillPlan)
    → trim_space id ≡ id
    → str_eq id other ≡ false
    → plan_by_id id s ≡ some plan
    → ((delete_backfill_plan id now draw s).1 ≡ acted "deleted" plan now)
      × (plan_by_id id (delete_backfill_plan id now draw s).0 ≡ none)
      × (find_plan other (delete_backfill_plan id now draw s).0.plans ≡ find_plan other s.plans)
delete_backfill_plan-removes id other now draw s plan bare differ found =
    let done_so = deleted id now draw s plan found in
    (
      ap (λ o. o.1) done_so,
      plan_by_id-bare id _ bare
          (ap (λ o. find_plan id o.0.plans) done_so ∙ find_plan-delete id s.plans),
      ap (λ o. find_plan other o.0.plans) done_so ∙ find_plan-delete_other id other s.plans differ,
    )

-- With spaces around the id, a plan that the service finds stays: if no plan has the id as it was
-- given, the answer is "deleted" with the plan, and the same id still finds it.
pub delete_backfill_plan-padded :
    (id : String) (now : Time) (draw : Draw) (s : Scheduler) (plan : BackfillPlan)
    → find_plan id s.plans ≡ none
    → plan_by_id id s ≡ some plan
    → ((delete_backfill_plan id now draw s).1 ≡ acted "deleted" plan now)
      × (plan_by_id id (delete_backfill_plan id now draw s).0 ≡ some plan)
delete_backfill_plan-padded id now draw s plan absent found =
    let done_so = deleted id now draw s plan found in
    (
      ap (λ o. o.1) done_so,
      plan_by_id-plans id _ s (ap (λ o. o.0.plans) done_so ∙ delete_plan-absent id s.plans absent)
          ∙ found,
    )
