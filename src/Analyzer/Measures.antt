-- ===== src/Analyzer/Measures.antt =====
-- What the analyzer measures (gitrank/services/pr-analyzer/internal/analyzer/analyzer.go): the
-- category, the confidence, the technical depth and the strength of the review.
use Prim.Native.String.{◌++◌ as append}
use text.Mathlib.Text.{◌==◌ as str_eq}
use gitrank.Common.{
  ℕ, Bool, true, false, not, ◌&&◌, ◌||◌, String, List, [], ◌∷◌, length, ltb, ◌==◌, if◌then◌else◌,
}
use gitrank.Common.Int.{ℤ, pos, ◌+ℤ◌, ltb_ℤ}
use gitrank.Common.Words.{to_lower, join}
use gitrank.Common.Float.{Float64}
use gitrank.Contracts.{ReviewSignal, PullRequestContext, PullRequestAnalysisRequest, FileBreakdown}
use gitrank.Analyzer.Policy.{AnalyzerPolicy, has_any_keyword}
use gitrank.Analyzer.Features.{DerivedFeatures}

-- The title, the body and the labels, in lower case.
abbrev pub request_text : PullRequestAnalysisRequest → String
request_text req =
    let pr = req.pull_request in
    to_lower (append pr.title (append " " (append pr.body (append " " (join pr.labels " ")))))

abbrev pub is_empty : {A : Type 0} → List A → Bool
is_empty [] = true
is_empty (a ∷ rest) = false

-- `classifyCategory`
unfoldable pub classify_category :
    {F : Type 0} → PullRequestAnalysisRequest → FileBreakdown → AnalyzerPolicy F → String
classify_category req b policy =
    let text = request_text req in
    if has_any_keyword text policy.security_keywords
    then "security"
    else if b.source == 0 && (b.tests == 0 && ltb 0 b.docs)
    then "documentation"
    else if b.source == 0 && ltb 0 b.tests
    then "tests"
    else if has_any_keyword text policy.performance_keywords
    then "performance"
    else if has_any_keyword text policy.refactor_keywords
    then "refactor"
    else if ltb 0 b.infra && b.source == 0
    then "infrastructure"
    else if has_any_keyword text policy.bug_fix_keywords
    then "bug_fix"
    else if has_any_keyword text policy.maintainer_design_keywords
    then "maintainer_design"
    else "feature"

-- min(a, b int)
abbrev min_int : ℤ → ℤ → ℤ
min_int a b = if ltb_ℤ a b then a else b

module _ (fl : Float64) (policy : AnalyzerPolicy fl.F) where
  open fl use {F, plus, minus, times, divided, less, of_int}

  abbrev plus_if : Bool → F → F → F
  plus_if test bonus base = if test then plus base bonus else base

  -- `categoryConfidence`
  unfoldable pub category_confidence :
      String → FileBreakdown → PullRequestContext → DerivedFeatures → F
  category_confidence category b pr features =
      let base =
        plus_if (not (is_empty features.criticality_tags)) policy.confidence_criticality_bonus (
          plus_if (not (is_empty features.issue_references)) policy.confidence_issue_reference_bonus
            (plus_if (not (is_empty pr.labels)) policy.confidence_labels_bonus (
              plus_if (ltb 0 b.source && ltb_ℤ (pos 0) pr.changed_files)
                policy.confidence_source_bonus
                (plus_if (str_eq category "documentation" && b.source == 0)
                  policy.confidence_docs_only_bonus policy.confidence_base)))) in
      if less policy.confidence_max base then policy.confidence_max else base

  -- `score` of `technicalDepth`, before the two bounds.
  unfoldable pub raw_depth : PullRequestContext → FileBreakdown → DerivedFeatures → F
  raw_depth pr b features =
      let files = plus policy.depth_base (
        times (of_int (min_int pr.changed_files policy.depth_changed_files_cap))
          policy.depth_changed_files_bonus) in
      let commits =
        plus files (
          times (of_int (min_int pr.commits policy.depth_commits_cap))
            policy.depth_commits_bonus) in
      let lines = plus commits (
        divided (of_int (min_int (pr.additions +ℤ pr.deletions) policy.depth_diff_lines_cap))
          policy.depth_diff_lines_divisor) in
      let sources = plus lines (times (of_int (pos b.source)) policy.depth_source_files_bonus) in
      let tests = plus sources (times (of_int (pos b.tests)) policy.depth_test_files_bonus) in
      let infra = plus_if (ltb 0 b.infra && ltb 0 b.source) policy.depth_infra_source_bonus tests in
      let critical = plus infra (
        times
          (of_int (min_int (pos (length features.criticality_tags)) policy.depth_criticality_cap))
          policy.depth_criticality_bonus) in
      let polyglot =
        plus_if (ltb 1 (length features.detected_languages)) policy.depth_polyglot_bonus critical in
      if pr.draft then minus polyglot policy.depth_draft_penalty else polyglot

  -- `technicalDepth`
  unfoldable pub technical_depth : PullRequestContext → FileBreakdown → DerivedFeatures → F
  technical_depth pr b features =
      let score = raw_depth pr b features in
      if less score policy.depth_min
      then policy.depth_min
      else if less policy.depth_max score
      then policy.depth_max
      else score

  -- The body of the loop of `reviewStrength`
  unfoldable pub add_review : F → ReviewSignal → F
  add_review score review =
      let state = to_lower review.state in
      let association = to_lower review.author_association in
      let stated =
        if str_eq state "approved"
        then plus score policy.review_approved_bonus
        else if str_eq state "changes_requested"
        then plus score policy.review_changes_requested_bonus
        else if str_eq state "commented"
        then plus score policy.review_commented_bonus
        else score in
      plus_if
        (str_eq association "member"
          || str_eq association "owner"
          || str_eq association "collaborator")
        policy.review_maintainer_association_add stated

  unfoldable pub add_reviews : F → List ReviewSignal → F
  add_reviews score [] = score
  add_reviews score (review ∷ reviews) = add_reviews (add_review score review) reviews

  -- `reviewStrength`
  unfoldable pub review_strength : List ReviewSignal → ℕ → F
  review_strength reviews review_cycles =
      let score = plus (add_reviews policy.review_base reviews) (
        times (of_int (min_int (pos review_cycles) policy.review_cycles_cap))
          policy.review_cycles_bonus) in
      if less policy.review_max score then policy.review_max else score
