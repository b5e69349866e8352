-- ===== src/Analyzer/Guardrails.antt =====
-- gitrank/services/pr-analyzer/internal/analyzer/guardrails.go: an analysis may say only what the
-- pull request shows. Each check gives the error that the source makes, or none.
use text.Mathlib.Text.{◌==◌ as str_eq}
use gitrank.Common.{
  Bool, not, ◌&&◌, ◌||◌, String, Option, none, some, List, [], ◌∷◌, ◌==◌, trim_space, if◌then◌else◌,
}
use gitrank.Common.Checks.{◌or_then◌, error_if}
use gitrank.Common.Words.{to_lower, contains, member}
use gitrank.Contracts.{PullRequestAnalysisRequest, PullRequestAnalysisResponse, FileBreakdown}
use gitrank.Analyzer.Policy.{AnalyzerPolicy, has_any_keyword}
use gitrank.Analyzer.Features.{DerivedFeatures}
use gitrank.Analyzer.Measures.{request_text}
use gitrank.Analyzer.Report.{build_skills, build_flags}

-- The errors of the guardrails, with what their texts quote.
pub data Ungrounded : Type 0 where
  category_error : (category : String) → Ungrounded
  entry_error : (field entry : String) → Ungrounded
  primary_error : (language : String) → Ungrounded
  phrase_error : (phrase : String) → Ungrounded

abbrev pub trimmed : List String → List String
trimmed [] = []
trimmed (s ∷ rest) = trim_space s ∷ trimmed rest

-- The loop of `requireGroundedValues`
unfoldable pub first_ungrounded : List String → List String → String → Option Ungrounded
first_ungrounded allowed [] field = none
first_ungrounded allowed (value ∷ values) field =
    let rest = first_ungrounded allowed values field in
    if str_eq (trim_space value) "" || member (trimmed allowed) (trim_space value)
    then rest
    else some (entry_error field (trim_space value))

-- `requireGroundedValues`
unfoldable pub require_grounded_values : List String → List String → String → Option Ungrounded
unfolding first_ungrounded
require_grounded_values values allowed field = first_ungrounded allowed values field

first_phrase : String → List String → Option Ungrounded
first_phrase lower [] = none
first_phrase lower (phrase ∷ phrases) =
    let rest = first_phrase lower phrases in
    if contains lower phrase then some (phrase_error phrase) else rest

-- `requireTemperedSummary`
unfoldable pub require_tempered_summary :
    {F : Type 0} → String → AnalyzerPolicy F → Option Ungrounded
unfolding first_phrase
require_tempered_summary summary policy =
    first_phrase (to_lower (trim_space summary)) policy.guarded_summary_phrases

abbrev unless : Bool → String → Option Ungrounded
unless grounded category = error_if (not grounded) (category_error category)

-- `requireGroundedCategory`
unfoldable pub require_grounded_category :
    {F : Type 0}
    → PullRequestAnalysisRequest
    → FileBreakdown
    → DerivedFeatures
    → String
    → AnalyzerPolicy F
    → Option Ungrounded
require_grounded_category req b features category policy =
    let text = request_text req in
    if str_eq category "documentation"
    then unless (not (b.docs == 0)) category
    else if str_eq category "tests"
    then unless (not (b.tests == 0)) category
    else if str_eq category "security"
    then unless
        (has_any_keyword text policy.security_keywords
          || member features.criticality_tags "auth_identity")
        category
    else if str_eq category "performance"
    then unless (has_any_keyword text policy.performance_keywords) category
    else if str_eq category "refactor"
    then unless (has_any_keyword text policy.refactor_keywords) category
    else if str_eq category "infrastructure"
    then unless (not (b.infra == 0)) category
    else if str_eq category "bug_fix"
    then unless (has_any_keyword text policy.bug_fix_keywords) category
    else if str_eq category "maintainer_design"
    then unless (has_any_keyword text policy.maintainer_design_keywords) category
    else none

-- The check of the primary language
abbrev pub require_primary : String → List String → Option Ungrounded
require_primary primary languages =
    error_if (not (str_eq primary "") && not (member languages primary)) (primary_error primary)

-- `applyHallucinationGuardrails`
unfoldable pub apply_hallucination_guardrails :
    {F : Type 0}
    → PullRequestAnalysisRequest
    → FileBreakdown
    → DerivedFeatures
    → PullRequestAnalysisResponse F
    → AnalyzerPolicy F
    → Option Ungrounded
unfolding ◌or_then◌
apply_hallucination_guardrails req b features resp policy =
    require_grounded_category req b features resp.category policy
    or_then require_grounded_values resp.detected_languages features.detected_languages
        "detected_languages"
    or_then require_primary resp.primary_detected_language features.detected_languages
    or_then require_grounded_values resp.criticality_tags features.criticality_tags
        "criticality_tags"
    or_then require_grounded_values resp.issue_references features.issue_references
        "issue_references"
    or_then require_grounded_values resp.skills (build_skills resp.category b policy) "skills"
    or_then require_grounded_values resp.flags (build_flags req b features policy) "flags"
    or_then require_tempered_summary resp.summary policy
