-- ===== src/Scheduler/PlanLists.antt =====
-- Lookups in the plans, and the list of those due
-- (gitrank/services/scheduler-worker/internal/service/ backfill.go).
use text.Mathlib.Text.{◌==◌ as str_eq}
use gitrank.Common.{
  ◌≡◌, refl, ◌∙◌, sym, inl, inr, true, false, Bool-cases, String, some, List, [], ◌∷◌, All, arith,
  ◌↔◌, eq_iff,
}
use gitrank.Common.Clock.{Time}
use gitrank.Scheduler.State.{BackfillPlan, find_plan, put_plan}
use gitrank.Scheduler.Tick.{is_due, runs_before, due_of, in_order, insert_plan}

abbrev pub IsOther : String → BackfillPlan → Type 0
IsOther id plan = str_eq plan.id id ≡ false

pub find_plan-put :
    (id : String) (plan : BackfillPlan) (plans : List BackfillPlan)
    → IsOther id plan
    → find_plan id (put_plan plan plans) ≡ find_plan id plans
unfolding find_plan put_plan
find_plan-put id plan [] other = ground arith
find_plan-put id plan (old ∷ plans) other = elim (Bool-cases (str_eq old.id plan.id)) [
  | inl hit ↦ let same = (eq_iff old.id plan.id).0 hit in rw (hit, other, same, other) refl
  | inr miss ↦ rw (miss, find_plan-put id plan plans other) refl
]

pub find_plan-put_same :
    (id : String) (plan : BackfillPlan) (plans : List BackfillPlan)
    → str_eq plan.id id ≡ true
    → find_plan id (put_plan plan plans) ≡ some plan
unfolding find_plan put_plan
find_plan-put_same id plan [] same = ground arith
find_plan-put_same id plan (old ∷ plans) same = elim (Bool-cases (str_eq old.id plan.id)) [
  | inl hit ↦ rw (hit, same) refl
  | inr miss ↦ elim (Bool-cases (str_eq old.id id)) [
    | inl found ↦
        let alike = (eq_iff old.id id).0 found in
        let also = (eq_iff plan.id id).0 same in
        let clash = (eq_iff old.id plan.id).1 (alike ∙ sym also) in ground arith
    | inr other ↦ rw (miss, other) (find_plan-put_same id plan plans same)
  ]
]

-- A due plan that a lookup finds is among the due ones.
pub due_of-found :
    (id : String) (now : Time) (plans : List BackfillPlan) (plan : BackfillPlan)
    → All (IsOther id) (due_of now plans)
    → find_plan id plans ≡ some plan
    → is_due now plan ≡ false
unfolding find_plan due_of
due_of-found id now [] plan others h = ground arith
due_of-found id now (first ∷ plans) plan others h = ground (arith, due_of-found id now plans plan)

module _ (P : BackfillPlan → Type 0) where
  insert_plan-All :
      (plan : BackfillPlan) (plans : List BackfillPlan)
      → All P (insert_plan plan plans) ↔ (P plan × All P plans)
  unfolding insert_plan
  insert_plan-All plan [] = ground arith
  insert_plan-All plan (next ∷ plans) = elim (Bool-cases (runs_before next plan)) [
    | inl before ↦
        let rest = insert_plan-All plan plans in
        rw before (λ a. let r = rest.0 a.1 in (r.0, (a.0, r.1)), λ b. (b.1.0, rest.1 (b.0, b.1.1)))
    | inr after ↦ rw after (λ a. a, λ b. b)
  ]

  pub in_order-All : (plans : List BackfillPlan) → All P (in_order plans) ↔ All P plans
  unfolding in_order
  in_order-All [] = (λ a. a, λ b. b)
  in_order-All (plan ∷ plans) =
      let first = insert_plan-All plan (in_order plans) in
      let rest = in_order-All plans in
      (λ a. let r = first.0 a in (r.0, rest.0 r.1), λ b. first.1 (b.0, rest.1 b.1))

  pub due_of-All : (now : Time) (plans : List BackfillPlan) → All P plans → All P (due_of now plans)
  unfolding due_of
  due_of-All now [] ps = tt
  due_of-All now (plan ∷ plans) ps = ground (arith, due_of-All now plans)
