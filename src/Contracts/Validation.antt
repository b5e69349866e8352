-- ===== src/Contracts/Validation.antt =====
-- The `Validate` methods of gitrank/packages/contracts (analysis.go, scoring.go). Each check gives
-- the error that the source makes, or none.
use text.Mathlib.Text.{◌==◌ as str_eq}
use gitrank.Common.{
  ℕ, Bool, true, false, not, ◌&&◌, ◌||◌, String, Option, none, List, [], ◌∷◌, ltb, trim_space,
  if◌then◌else◌,
}
use gitrank.Common.Int.{ℤ, pos, ltb_ℤ}
use gitrank.Common.Checks.{◌or_then◌, error_if}
use gitrank.Common.Words.{to_lower, contains, member, byte_length}
use gitrank.Common.Float.{Float64}
use gitrank.Contracts.{
  ChangedFile, ReviewSignal, PullRequestContext, PullRequestAnalysisRequest,
  PullRequestAnalysisResponse, ScoreContributionRequest,
}

pub data Invalid : Type 0 where
  required : (field : String) → Invalid
  negative : (field : String) → Invalid
  unsupported : (field value : String) → Invalid
  out_of_range : (field : String) → Invalid
  summary_too_long : Invalid
  score_override : (field : String) → Invalid

abbrev blank : String → Bool
blank s = str_eq (trim_space s) ""

abbrev below_zero : ℤ → Bool
below_zero n = ltb_ℤ n (pos 0)

abbrev no_files : List ChangedFile → Bool
no_files [] = true
no_files (file ∷ files) = false

validate_files : List ChangedFile → Option Invalid
unfolding ◌or_then◌
validate_files [] = none
validate_files (file ∷ files) =
    error_if (blank file.path) (required "pull_request.files[].path")
    or_then error_if (below_zero file.additions || below_zero file.deletions)
        (negative "pull_request.files[]")
    or_then validate_files files

validate_reviews : List ReviewSignal → Option Invalid
unfolding ◌or_then◌
validate_reviews [] = none
validate_reviews (review ∷ reviews) =
    error_if (blank review.state) (required "pull_request.reviews[].state")
    or_then validate_reviews reviews

-- `validatePullRequestContext`
unfoldable pub validate_pull_request_context : PullRequestContext → Option Invalid
unfolding ◌or_then◌ validate_files validate_reviews
validate_pull_request_context pr =
    error_if (blank pr.title && no_files pr.files)
      (required "pull_request.title or pull_request.files")
    or_then error_if (below_zero pr.number) (negative "pull_request.number")
    or_then error_if
        (below_zero pr.additions
          || below_zero pr.deletions
          || below_zero pr.changed_files
          || below_zero pr.commits)
        (negative "pull_request")
    or_then validate_files pr.files
    or_then validate_reviews pr.reviews

-- `validateScorePullRequestContext`
unfoldable pub validate_score_pull_request_context : PullRequestContext → Option Invalid
unfolding ◌or_then◌ validate_files validate_reviews
validate_score_pull_request_context pr =
    error_if (below_zero pr.number) (negative "pull_request.number")
    or_then error_if
        (below_zero pr.additions
          || below_zero pr.deletions
          || below_zero pr.changed_files
          || below_zero pr.commits)
        (negative "pull_request")
    or_then validate_files pr.files
    or_then validate_reviews pr.reviews

-- `PullRequestAnalysisRequest.Validate`
unfoldable pub validate_request : PullRequestAnalysisRequest → Option Invalid
unfolding ◌or_then◌
validate_request req =
    error_if (blank req.repository.full_name) (required "repository.full_name")
    or_then validate_pull_request_context req.pull_request

has_marker : String → List String → Bool
has_marker lower [] = false
has_marker lower (marker ∷ markers) = contains lower marker || has_marker lower markers

-- `validateNoScoreOverrideText`
unfoldable pub validate_no_score_override_text : String → String → Option Invalid
unfolding has_marker
validate_no_score_override_text value field =
    error_if
      (not (str_eq (to_lower (trim_space value)) "")
        && has_marker (to_lower (trim_space value))
            ("final_score" ∷ "score_override" ∷ "xp_override" ∷ "total_xp" ∷ []))
      (score_override field)

-- `validateAnalysisStrings`
unfoldable pub validate_analysis_strings : List String → String → Option Invalid
unfolding ◌or_then◌
validate_analysis_strings [] field = none
validate_analysis_strings (value ∷ values) field =
    error_if (blank value) (required field)
    or_then validate_no_score_override_text (trim_space value) field
    or_then validate_analysis_strings values field

-- `isSupportedContributionCategory`
unfoldable pub is_supported_contribution_category : String → Bool
is_supported_contribution_category category =
    member
      ("documentation" ∷ "tests" ∷ "bug_fix" ∷ "feature" ∷ "refactor" ∷ "performance"
        ∷ "infrastructure" ∷ "security" ∷ "maintainer_design" ∷ [])
      category

-- `isSupportedAnalysisSource`
unfoldable pub is_supported_analysis_source : String → Bool
is_supported_analysis_source source =
    member ("deterministic" ∷ "ai_assisted" ∷ "hybrid" ∷ []) source

-- `PullRequestAnalysisResponse.Canonicalized`
unfoldable pub canonicalized :
    {F : Type 0} → PullRequestAnalysisResponse F → PullRequestAnalysisResponse F
canonicalized resp = record resp {
  schema_version = if blank resp.schema_version then "pr-analysis.v1" else resp.schema_version;
  analysis_source = if blank resp.analysis_source then "deterministic" else resp.analysis_source;
}

module _ (fl : Float64) where
  open fl use {F, less, equal, at_least, decimal}

  abbrev outside : F → ℕ → Bool
  outside value limit = at_least (decimal 0 0) value || less (decimal limit 0) value

  -- `validate`. The counts of a response are natural numbers, so its last two checks pass.
  unfoldable pub validate : PullRequestAnalysisResponse F → Bool → Option Invalid
  unfolding ◌or_then◌
  validate resp require_full_envelope =
      let c = canonicalized resp in
      error_if (require_full_envelope && blank c.analyzer_version) (required "analyzer_version")
      or_then error_if (not (is_supported_analysis_source c.analysis_source))
          (unsupported "analysis_source" c.analysis_source)
      or_then error_if (require_full_envelope && blank c.validation_status)
          (required "validation_status")
      or_then error_if
          (not (str_eq c.validation_status "") && not (str_eq c.validation_status "validated"))
          (unsupported "validation_status" c.validation_status)
      or_then error_if
          ((str_eq c.analysis_source "ai_assisted" || str_eq c.analysis_source "hybrid")
            && blank c.prompt_version)
          (required "prompt_version")
      or_then error_if
          ((str_eq c.analysis_source "ai_assisted" || str_eq c.analysis_source "hybrid")
            && blank c.model_name)
          (required "model_name")
      or_then error_if (not (is_supported_contribution_category c.category))
          (unsupported "category" c.category)
      or_then error_if (require_full_envelope && blank c.summary) (required "summary")
      or_then error_if (ltb 320 (byte_length c.summary)) summary_too_long
      or_then validate_no_score_override_text c.summary "summary"
      or_then validate_no_score_override_text c.fallback_reason "fallback_reason"
      or_then error_if
          (not (equal c.confidence (decimal 0 0))
            && (less c.confidence (decimal 0 0) || less (decimal 1 0) c.confidence))
          (out_of_range "confidence")
      or_then error_if (outside c.technical_depth 3) (out_of_range "technical_depth")
      or_then error_if (outside c.review_strength 3) (out_of_range "review_strength")
      or_then validate_analysis_strings c.signals "signals"
      or_then validate_analysis_strings c.skills "skills"
      or_then validate_analysis_strings c.flags "flags"
      or_then validate_analysis_strings c.detected_languages "detected_languages"
      or_then validate_analysis_strings c.criticality_tags "criticality_tags"
      or_then validate_analysis_strings c.issue_references "issue_references"
      or_then (if str_eq c.primary_detected_language ""
          then none
          else validate_analysis_strings (c.primary_detected_language ∷ [])
              "primary_detected_language")

  -- `ScoreContributionRequest.Validate`
  unfoldable pub validate_score_request : ScoreContributionRequest F → Option Invalid
  unfolding ◌or_then◌
  validate_score_request req =
      let contributor = req.contributor in
      error_if (blank req.repository.full_name) (required "repository.full_name")
      or_then error_if (below_zero req.repository.stars || below_zero req.repository.maintainers)
          (negative "repository")
      or_then validate_score_pull_request_context req.pull_request
      or_then error_if
          (below_zero contributor.recent_merged_pull_requests
            || below_zero contributor.consecutive_active_weeks)
          (negative "contributor")
      or_then error_if
          (below_zero contributor.recent_repository_pull_requests
            || below_zero contributor.recent_category_pull_requests
            || below_zero contributor.recent_similar_pull_requests)
          (negative "contributor replay counters")
      or_then error_if
          (less contributor.meaningful_contribution_ratio (decimal 0 0)
            || less (decimal 1 0) contributor.meaningful_contribution_ratio)
          (out_of_range "contributor.meaningful_contribution_ratio")
      or_then validate req.analysis false
