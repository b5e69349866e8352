-- ===== src/Scoring/Policy.antt =====
-- `config.Scoring` (gitrank/packages/config/config.go), as far as the scoring engine reads it, and
-- its defaults in gitrank/services/scoring-engine/internal/scoring/engine.go.
use gitrank.Common.{String}
use gitrank.Common.Int.{ℤ, pos}
use gitrank.Common.Float.{Float64}

pub record ScoringPolicy (F : Type 0) : Type 0 where
  pub score_version : String
  pub base_xp : F
  pub min_xp : ℤ
  pub category_weight_default : F
  pub category_weight_documentation : F
  pub category_weight_tests : F
  pub category_weight_bug_fix : F
  pub category_weight_feature : F
  pub category_weight_refactor : F
  pub category_weight_performance : F
  pub category_weight_infrastructure : F
  pub category_weight_security : F
  pub category_weight_maintainer_design : F
  pub repository_maintainers_threshold : ℤ
  pub repository_maintainers_bonus : F
  pub repository_stars_tier_one_threshold : ℤ
  pub repository_stars_tier_one_bonus : F
  pub repository_stars_tier_two_threshold : ℤ
  pub repository_stars_tier_two_bonus : F
  pub repository_archived_penalty : F
  pub repository_weight_min : F
  pub repository_weight_max : F
  pub outcome_weight_merged : F
  pub outcome_weight_draft : F
  pub outcome_weight_closed : F
  pub outcome_weight_open : F
  pub consistency_active_weeks_cap : ℤ
  pub consistency_active_week_bonus : F
  pub consistency_meaningful_ratio_bonus : F
  pub consistency_recent_merged_threshold : ℤ
  pub consistency_recent_merged_bonus : F
  pub consistency_modifier_max : F
  pub diminishing_similar_cap : ℤ
  pub diminishing_similar_step : F
  pub diminishing_category_cap : ℤ
  pub diminishing_category_step : F
  pub diminishing_repository_threshold : ℤ
  pub diminishing_repository_penalty : F
  pub diminishing_modifier_min : F
  pub spam_docs_small_change_size_limit : ℤ
  pub spam_docs_small_change_penalty : F
  pub spam_tiny_changed_files_limit : ℤ
  pub spam_tiny_change_size_limit : ℤ
  pub spam_tiny_change_penalty : F
  pub spam_docs_only_penalty : F
  pub spam_penalty_max : F
  pub spam_multiplier_floor : F
  pub suspicious_penalty_threshold : F
  pub level_contributor_min_xp : ℤ
  pub level_builder_min_xp : ℤ
  pub level_specialist_min_xp : ℤ
  pub level_maintainer_min_xp : ℤ
  pub level_architect_min_xp : ℤ

module _ (fl : Float64) where
  open fl use {F, decimal}

  -- `defaultPolicy`
  unfoldable pub default_policy : ScoringPolicy F
  default_policy = record {
    score_version = "v1alpha1";
    base_xp = decimal 100 0;
    min_xp = pos 10;
    category_weight_default = decimal 1 0;
    category_weight_documentation = decimal 8 1;
    category_weight_tests = decimal 11 1;
    category_weight_bug_fix = decimal 13 1;
    category_weight_feature = decimal 15 1;
    category_weight_refactor = decimal 12 1;
    category_weight_performance = decimal 16 1;
    category_weight_infrastructure = decimal 12 1;
    category_weight_security = decimal 17 1;
    category_weight_maintainer_design = decimal 18 1;
    repository_maintainers_threshold = pos 3;
    repository_maintainers_bonus = decimal 1 1;
    repository_stars_tier_one_threshold = pos 100;
    repository_stars_tier_one_bonus = decimal 5 2;
    repository_stars_tier_two_threshold = pos 1000;
    repository_stars_tier_two_bonus = decimal 5 2;
    repository_archived_penalty = decimal 2 1;
    repository_weight_min = decimal 75 2;
    repository_weight_max = decimal 135 2;
    outcome_weight_merged = decimal 14 1;
    outcome_weight_draft = decimal 35 2;
    outcome_weight_closed = decimal 5 1;
    outcome_weight_open = decimal 9 1;
    consistency_active_weeks_cap = pos 12;
    consistency_active_week_bonus = decimal 2 2;
    consistency_meaningful_ratio_bonus = decimal 1 1;
    consistency_recent_merged_threshold = pos 5;
    consistency_recent_merged_bonus = decimal 5 2;
    consistency_modifier_max = decimal 14 1;
    diminishing_similar_cap = pos 5;
    diminishing_similar_step = decimal 8 2;
    diminishing_category_cap = pos 8;
    diminishing_category_step = decimal 25 3;
    diminishing_repository_threshold = pos 6;
    diminishing_repository_penalty = decimal 1 1;
    diminishing_modifier_min = decimal 6 1;
    spam_docs_small_change_size_limit = pos 20;
    spam_docs_small_change_penalty = decimal 2 1;
    spam_tiny_changed_files_limit = pos 2;
    spam_tiny_change_size_limit = pos 15;
    spam_tiny_change_penalty = decimal 1 1;
    spam_docs_only_penalty = decimal 5 2;
    spam_penalty_max = decimal 35 2;
    spam_multiplier_floor = decimal 35 2;
    suspicious_penalty_threshold = decimal 2 1;
    level_contributor_min_xp = pos 60;
    level_builder_min_xp = pos 100;
    level_specialist_min_xp = pos 140;
    level_maintainer_min_xp = pos 180;
    level_architect_min_xp = pos 250;
  }
