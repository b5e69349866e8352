-- ===== src/Scoring/Bounds.antt =====
-- The bounds of a score (gitrank/services/scoring-engine/internal/scoring/engine.go).
use text.Mathlib.Text.{◌==◌ as str_eq}
use gitrank.Common.{
  ℕ, ◌≤◌, ◌≡◌, Bool, true, false, String, arith, if◌then◌else◌, refl, Bool-cases, inl, inr,
}
use gitrank.Common.Int.{ℤ, ◌≤ℤ◌, leb_ℤ}
use gitrank.Common.Float.{Float64}
use gitrank.Common.Capped.{cap_bound, floor_bound, clamp_bounds}
use gitrank.Contracts.{ScoreContributionRequest}
use gitrank.Scoring.Policy.{ScoringPolicy}
use gitrank.Scoring.Engine.{
  repository_weight, consistency_modifier, diminishing_returns_modifier, spam_penalty, level_for_xp,
  score,
}

module _ (fl : Float64) (policy : ScoringPolicy fl.F) where
  open fl use {F, less, less_irrefl}

  -- Whatever the request holds, NaN included, a score keeps to the policy: the repository weight is
  -- not outside its two bounds (given that these are not the wrong way round), the consistency
  -- modifier and the spam penalty are not above their maxima, the diminishing-returns modifier is not
  -- below its minimum, and the total is at least the minimum XP.
  pub score_bounds :
      (req : ScoreContributionRequest F)
      → less policy.repository_weight_max policy.repository_weight_min ≡ false
      → let r = score fl policy req in
        (less r.repository_weight policy.repository_weight_min ≡ false)
        × (less policy.repository_weight_max r.repository_weight ≡ false)
        × (less policy.consistency_modifier_max r.consistency_modifier ≡ false)
        × (less r.diminishing_returns_modifier policy.diminishing_modifier_min ≡ false)
        × (less policy.spam_penalty_max r.spam_penalty ≡ false)
        × (policy.min_xp ≤ℤ r.total_xp)
  unfolding score repository_weight consistency_modifier diminishing_returns_modifier spam_penalty
  score_bounds req h =
      let weight = clamp_bounds fl policy.repository_weight_min policy.repository_weight_max _ h in
      (
        weight.0,
        weight.1,
        cap_bound fl policy.consistency_modifier_max _,
        floor_bound fl policy.diminishing_modifier_min _,
        cap_bound fl policy.spam_penalty_max _,
        ground arith,
      )

-- The order of the levels, lowest first.
pub level_rank : String → ℕ
level_rank level =
    if str_eq level "Architect"
    then 5
    else if str_eq level "Maintainer"
    then 4
    else if str_eq level "Specialist"
    then 3
    else if str_eq level "Builder"
    then 2
    else if str_eq level "Contributor"
    then 1
    else 0

-- The level that a rank stands for.
abbrev rung : Bool → Bool → Bool → Bool → Bool → ℕ
rung a m s b c =
    if a then 5 else if m then 4 else if s then 3 else if b then 2 else if c then 1 else 0

level_rank-level_for_xp :
    {F : Type 0} (policy : ScoringPolicy F) (xp : ℤ)
    → level_rank (level_for_xp policy xp)
      ≡ rung
          (leb_ℤ policy.level_architect_min_xp xp)
          (leb_ℤ policy.level_maintainer_min_xp xp)
          (leb_ℤ policy.level_specialist_min_xp xp)
          (leb_ℤ policy.level_builder_min_xp xp)
          (leb_ℤ policy.level_contributor_min_xp xp)
unfolding level_rank level_for_xp
level_rank-level_for_xp policy xp = elim (Bool-cases (leb_ℤ policy.level_architect_min_xp xp)) [
  | inl e ↦ rw e refl
  | inr e ↦ rw e elim (Bool-cases (leb_ℤ policy.level_maintainer_min_xp xp)) [
    | inl e ↦ rw e refl
    | inr e ↦ rw e elim (Bool-cases (leb_ℤ policy.level_specialist_min_xp xp)) [
      | inl e ↦ rw e refl
      | inr e ↦ rw e elim (Bool-cases (leb_ℤ policy.level_builder_min_xp xp)) [
        | inl e ↦ rw e refl
        | inr e ↦ rw e elim (Bool-cases (leb_ℤ policy.level_contributor_min_xp xp)) [
          | inl e ↦ rw e refl
          | inr e ↦ rw e refl
        ]
      ]
    ]
  ]
]

leb_ℤ-mono : (a xp more : ℤ) → xp ≤ℤ more → (leb_ℤ a xp ≡ true) → leb_ℤ a more ≡ true
leb_ℤ-mono a xp more h e = ground arith

-- More XP never means a lower level, whatever the thresholds.
level_mono :
    {F : Type 0} (policy : ScoringPolicy F) (xp more : ℤ)
    → xp ≤ℤ more
    → level_rank (level_for_xp policy xp) ≤ level_rank (level_for_xp policy more)
unfolding level_rank level_for_xp
level_mono policy xp more h =
    rw (level_rank-level_for_xp policy xp) rw (level_rank-level_for_xp policy more) ground (
      arith,
      leb_ℤ-mono policy.level_architect_min_xp xp more h,
      leb_ℤ-mono policy.level_maintainer_min_xp xp more h,
      leb_ℤ-mono policy.level_specialist_min_xp xp more h,
      leb_ℤ-mono policy.level_builder_min_xp xp more h,
      leb_ℤ-mono policy.level_contributor_min_xp xp more h,
    )
