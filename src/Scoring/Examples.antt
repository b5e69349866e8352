-- ===== src/Scoring/Examples.antt =====
-- The scoring engine on small inputs (gitrank/services/scoring-engine/internal/scoring/engine.go).
use gitrank.Common.{◌≡◌, refl, true, false, [], ◌∷◌, All, ◌/◌}
use gitrank.Common.Int.{ℤ, pos, ◌≤ℤ◌, ltb_ℤ}
use gitrank.Common.Hundredths.{hundredths}
use gitrank.Contracts.{
  RepositoryContext, PullRequestContext, PullRequestAnalysisResponse, ContributorContext,
  ScoreContributionRequest,
}
use gitrank.Scoring.Policy.{ScoringPolicy, default_policy}
use gitrank.Scoring.Engine.{spam_penalty, score}
use gitrank.Scoring.Shares.{distribute_skill_xp}
use gitrank.Scoring.Bounds.{score_bounds}
use gitrank.Scoring.Skills.{distribute_skill_xp-sum, xp_sum, IsShare}

abbrev policy : ScoringPolicy ℤ
unfolding default_policy
policy = default_policy hundredths

abbrev repository : RepositoryContext
repository = record {
  full_name = "octo/tools";
  primary_language = "Go";
  default_branch = "main";
  stars = pos 120;
  maintainers = pos 4;
  archived = false;
}

abbrev pull_request : PullRequestContext
pull_request = record {
  number = pos 7;
  title = "fix the cache";
  body = "";
  state = "closed";
  merged = true;
  draft = false;
  additions = pos 5;
  deletions = pos 2;
  changed_files = pos 1;
  commits = pos 1;
  labels = [];
  linked_issues = [];
  files = [];
  reviews = [];
}

abbrev analysis : PullRequestAnalysisResponse ℤ
analysis = record {
  analysis_id = "";
  pull_request_id = "";
  schema_version = "";
  analyzer_version = "deterministic.v1";
  analysis_source = "deterministic";
  prompt_version = "";
  model_name = "";
  validation_status = "validated";
  fallback_reason = "";
  category = "bug_fix";
  summary = "";
  confidence = pos 70;
  technical_depth = pos 80;
  review_strength = pos 85;
  detected_languages = [];
  primary_detected_language = "";
  criticality_tags = [];
  issue_references = [];
  review_cycles = 0;
  signals = [];
  skills = "debugging" ∷ "backend" ∷ [];
  flags = [];
  file_breakdown = record { docs = 0; tests = 0; source = 1; infra = 0; config = 0 };
  prompt_suggested = false;
}

abbrev contributor : ContributorContext ℤ
contributor = record {
  recent_merged_pull_requests = pos 6;
  consecutive_active_weeks = pos 3;
  meaningful_contribution_ratio = pos 50;
  recent_repository_pull_requests = pos 2;
  recent_category_pull_requests = pos 1;
  recent_similar_pull_requests = pos 0;
}

abbrev request : ScoreContributionRequest ℤ
request = record {
  repository = repository;
  pull_request = pull_request;
  analysis = analysis;
  contributor = contributor;
}

score_bounds_example :
    let r = score hundredths policy request in
    (ltb_ℤ r.repository_weight policy.repository_weight_min ≡ false)
    × (ltb_ℤ policy.repository_weight_max r.repository_weight ≡ false)
    × (ltb_ℤ policy.consistency_modifier_max r.consistency_modifier ≡ false)
    × (ltb_ℤ r.diminishing_returns_modifier policy.diminishing_modifier_min ≡ false)
    × (ltb_ℤ policy.spam_penalty_max r.spam_penalty ≡ false)
    × (policy.min_xp ≤ℤ r.total_xp)
unfolding policy
score_bounds_example = score_bounds hundredths policy request refl

-- A tiny merged fix earns its penalty.
penalised : (score hundredths policy request).spam_penalty ≡ pos 10
unfolding score spam_penalty policy
penalised = refl

distribute_skill_xp-sum_example :
    (xp_sum (distribute_skill_xp ("debugging" ∷ "backend" ∷ []) (pos 77)) ≡ 77)
    × All (IsShare (77 / 2)) (distribute_skill_xp ("debugging" ∷ "backend" ∷ []) (pos 77))
distribute_skill_xp-sum_example =
    distribute_skill_xp-sum "debugging" ("backend" ∷ []) 77 (refl, (refl, tt))
