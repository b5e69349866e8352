-- ===== src/Scoring/Engine.antt =====
-- gitrank/services/scoring-engine/internal/scoring/engine.go: the weights, the total and what
-- explains it, in the arithmetic of the float interface.
use Prim.Native.String.{◌++◌ as append}
use text.Mathlib.Text.{◌==◌ as str_eq}
use gitrank.Common.{Bool, true, false, ◌&&◌, String, List, [], ◌∷◌, ◌++◌, ltb, ◌==◌, if◌then◌else◌}
use gitrank.Common.Int.{ℤ, ◌+ℤ◌, ltb_ℤ, leb_ℤ}
use gitrank.Common.Words.{equal_fold, spaced, itoa}
use gitrank.Common.Float.{Float64}
use gitrank.Scoring.Shares.{distribute_skill_xp}
use gitrank.Contracts.{
  RepositoryContext, PullRequestContext, ContributorContext, ScoreContributionRequest,
  ScoreContributionResponse,
}
use gitrank.Scoring.Policy.{ScoringPolicy}

-- min(a, b int)
abbrev pub min_int : ℤ → ℤ → ℤ
min_int a b = if ltb_ℤ a b then a else b

abbrev pub line_if : Bool → String → List String
line_if true line = line ∷ []
line_if false line = []

module _ {F : Type 0} (policy : ScoringPolicy F) where
  -- `categoryWeight`
  unfoldable pub category_weight : String → F
  category_weight category =
      if str_eq category "documentation"
      then policy.category_weight_documentation
      else if str_eq category "tests"
      then policy.category_weight_tests
      else if str_eq category "bug_fix"
      then policy.category_weight_bug_fix
      else if str_eq category "feature"
      then policy.category_weight_feature
      else if str_eq category "refactor"
      then policy.category_weight_refactor
      else if str_eq category "performance"
      then policy.category_weight_performance
      else if str_eq category "infrastructure"
      then policy.category_weight_infrastructure
      else if str_eq category "security"
      then policy.category_weight_security
      else if str_eq category "maintainer_design"
      then policy.category_weight_maintainer_design
      else policy.category_weight_default

  -- `outcomeWeight`
  unfoldable pub outcome_weight : PullRequestContext → F
  outcome_weight pr =
      if pr.merged
      then policy.outcome_weight_merged
      else if pr.draft
      then policy.outcome_weight_draft
      else if equal_fold pr.state "closed"
      then policy.outcome_weight_closed
      else policy.outcome_weight_open

  -- `levelForXP`
  unfoldable pub level_for_xp : ℤ → String
  level_for_xp xp =
      if leb_ℤ policy.level_architect_min_xp xp
      then "Architect"
      else if leb_ℤ policy.level_maintainer_min_xp xp
      then "Maintainer"
      else if leb_ℤ policy.level_specialist_min_xp xp
      then "Specialist"
      else if leb_ℤ policy.level_builder_min_xp xp
      then "Builder"
      else if leb_ℤ policy.level_contributor_min_xp xp
      then "Contributor"
      else "Explorer"

module _ (fl : Float64) (policy : ScoringPolicy fl.F) where
  open fl use {F, plus, minus, times, less, at_least, positive, of_int, rounded, decimal}

  abbrev one : F
  one = decimal 1 0

  abbrev zero_float : F
  zero_float = decimal 0 0

  -- `weight += bonus` under a test
  abbrev pub plus_if : Bool → F → F → F
  plus_if test bonus weight = if test then plus weight bonus else weight

  abbrev pub minus_if : Bool → F → F → F
  minus_if test penalty weight = if test then minus weight penalty else weight

  abbrev pub clamp_float : F → F → F → F
  clamp_float lower upper value =
      if less value lower then lower else if less upper value then upper else value

  -- `repositoryWeight`
  unfoldable pub repository_weight : RepositoryContext → F
  repository_weight repo = clamp_float policy.repository_weight_min policy.repository_weight_max (
      minus_if repo.archived policy.repository_archived_penalty (
        plus_if (leb_ℤ policy.repository_stars_tier_two_threshold repo.stars)
          policy.repository_stars_tier_two_bonus
          (plus_if (leb_ℤ policy.repository_stars_tier_one_threshold repo.stars)
            policy.repository_stars_tier_one_bonus
            (plus_if (leb_ℤ policy.repository_maintainers_threshold repo.maintainers)
              policy.repository_maintainers_bonus one))))

  -- `consistencyModifier`
  unfoldable pub consistency_modifier : ContributorContext F → F
  consistency_modifier contributor =
      let weeks =
        min_int contributor.consecutive_active_weeks policy.consistency_active_weeks_cap in
      let active = plus one (times (of_int weeks) policy.consistency_active_week_bonus) in
      let ratio = clamp_float zero_float one contributor.meaningful_contribution_ratio in
      let meaningful = plus active (times ratio policy.consistency_meaningful_ratio_bonus) in
      let modifier =
        plus_if
          (leb_ℤ policy.consistency_recent_merged_threshold contributor.recent_merged_pull_requests)
          policy.consistency_recent_merged_bonus meaningful in
      if less policy.consistency_modifier_max modifier
      then policy.consistency_modifier_max
      else modifier

  -- `diminishingReturnsModifier`
  unfoldable pub diminishing_returns_modifier : ContributorContext F → F
  diminishing_returns_modifier contributor =
      let similar =
        min_int contributor.recent_similar_pull_requests policy.diminishing_similar_cap in
      let category =
        min_int contributor.recent_category_pull_requests policy.diminishing_category_cap in
      let fewer = minus one (times (of_int similar) policy.diminishing_similar_step) in
      let fewest = minus fewer (times (of_int category) policy.diminishing_category_step) in
      let modifier =
        minus_if
          (leb_ℤ policy.diminishing_repository_threshold
            contributor.recent_repository_pull_requests)
          policy.diminishing_repository_penalty fewest in
      if less modifier policy.diminishing_modifier_min
      then policy.diminishing_modifier_min
      else modifier

  -- `spamPenalty`
  unfoldable pub spam_penalty : ScoreContributionRequest F → F
  spam_penalty req =
      let pr = req.pull_request in
      let size = pr.additions +ℤ pr.deletions in
      let files = req.analysis.file_breakdown in
      let penalty =
        plus_if (files.source == 0 && (files.tests == 0 && ltb 0 files.docs))
          policy.spam_docs_only_penalty
          (plus_if
            (leb_ℤ pr.changed_files policy.spam_tiny_changed_files_limit
              && ltb_ℤ size policy.spam_tiny_change_size_limit)
            policy.spam_tiny_change_penalty
            (plus_if
              (str_eq req.analysis.category "documentation"
                && ltb_ℤ size policy.spam_docs_small_change_size_limit)
              policy.spam_docs_small_change_penalty zero_float)) in
      if less policy.spam_penalty_max penalty then policy.spam_penalty_max else penalty

  -- `buildExplanation`
  unfoldable pub build_explanation : ScoreContributionRequest F → ℤ → F → F → List String
  build_explanation req total_xp spam diminishing =
      append "score version " policy.score_version
      ∷ "strict PR XP award strategy executed before AI summaries"
      ∷ append "category " (spaced req.analysis.category)
      ∷ "technical depth and review strength were applied deterministically"
      ∷ (line_if req.pull_request.merged "merged outcome increased the result"
          ++ (line_if (less diminishing one)
                "recent similar contribution patterns triggered diminishing returns"
              ++ (line_if (positive spam) "small-change or docs-heavy penalties reduced the result"
                  ++ append "final XP " (itoa total_xp) ∷ [])))

  -- The product of the weights, with the part of the penalty that the floor leaves.
  unfoldable pub multiplier : ScoreContributionRequest F → F
  multiplier req =
      let kept = minus one (spam_penalty req) in
      let factor =
        if less kept policy.spam_multiplier_floor then policy.spam_multiplier_floor else kept in
      times
        (times
          (times
            (times
              (times
                (times
                  (times (category_weight policy req.analysis.category)
                    req.analysis.technical_depth)
                  req.analysis.review_strength)
                (repository_weight req.repository))
              (outcome_weight policy req.pull_request))
            (consistency_modifier req.contributor))
          (diminishing_returns_modifier req.contributor))
        factor

  unfoldable pub total_xp : ScoreContributionRequest F → ℤ
  unfolding multiplier
  total_xp req =
      let total = rounded (times policy.base_xp (multiplier req)) in
      if ltb_ℤ total policy.min_xp then policy.min_xp else total

  -- `Engine.Score`
  unfoldable pub score : ScoreContributionRequest F → ScoreContributionResponse F
  unfolding total_xp
  score req =
      let total = total_xp req in
      let spam = spam_penalty req in
      let diminishing = diminishing_returns_modifier req.contributor in
      record {
        score_version = policy.score_version;
        total_xp = total;
        level = level_for_xp policy total;
        category_weight = category_weight policy req.analysis.category;
        technical_depth = req.analysis.technical_depth;
        review_strength = req.analysis.review_strength;
        repository_weight = repository_weight req.repository;
        outcome_weight = outcome_weight policy req.pull_request;
        consistency_modifier = consistency_modifier req.contributor;
        diminishing_returns_modifier = diminishing;
        spam_penalty = spam;
        skill_xp = distribute_skill_xp req.analysis.skills total;
        explanation = build_explanation req total spam diminishing;
        suspicious_activity = at_least spam policy.suspicious_penalty_threshold;
      }
