-- ===== src/Analyzer/Checks.antt =====
-- The analyzer's own response before its guardrails
-- (gitrank/services/pr-analyzer/internal/analyzer: guardrails.go, and `analyze` of analyzer.go).
use text.Mathlib.Text.{◌==◌ as str_eq}
use text.Mathlib.TextPositions.{eq_refl}
use gitrank.Common.{
  ◌≡◌, refl, inl, inr, Bool-cases, true, String, none, List, [], ◌∷◌, trim_space, arith, eq_iff,
}
use gitrank.Common.Words.{member}
use gitrank.Common.Checks.{◌or_then◌}
use gitrank.Common.Float.{Float64}
use gitrank.Contracts.{PullRequestAnalysisRequest}
use gitrank.Analyzer.Policy.{AnalyzerPolicy}
use gitrank.Analyzer.Paths.{classify_files}
use gitrank.Analyzer.Features.{derive_features}
use gitrank.Analyzer.Measures.{classify_category}
use gitrank.Analyzer.Report.{build_skills, build_flags}
use gitrank.Analyzer.Guardrails.{
  trimmed, first_ungrounded, require_grounded_values, require_primary, require_tempered_summary,
  apply_hallucination_guardrails,
}
use gitrank.Analyzer.Service.{deterministic, guardrails}
use gitrank.Analyzer.Grounded.{classify_category-Grounded}

member-trimmed :
    (x : String) (allowed : List String)
    → member allowed x ≡ true
    → member (trimmed allowed) (trim_space x) ≡ true
unfolding member
member-trimmed x [] h = ground (arith, h)
member-trimmed x (s ∷ allowed) h = elim (Bool-cases (str_eq s x)) [
  | inl same ↦ let equal : s ≡ x = (eq_iff s x).0 same in rw equal rw (eq_refl (trim_space x)) refl
  | inr other ↦ ground (arith, other, member-trimmed x allowed)
]

first_ungrounded-none :
    (allowed values : List String) (field : String)
    → ((x : String) → member values x ≡ true → member allowed x ≡ true)
    → first_ungrounded allowed values field ≡ none
unfolding first_ungrounded member
first_ungrounded-none allowed [] field h = refl
first_ungrounded-none allowed (value ∷ values) field h =
    let here = member-trimmed value allowed (h value (ground (arith, eq_refl value))) in
    let rest = first_ungrounded-none allowed values field (λ x m. h x (ground (arith, m))) in
    rw rest rw here ground arith

-- What is compared with itself is grounded.
grounded_self :
    (values : List String) (field : String) → require_grounded_values values values field ≡ none
unfolding require_grounded_values
grounded_self values field = first_ungrounded-none values values field (λ x h. h)

module _ (fl : Float64) (policy : AnalyzerPolicy fl.F) where
  -- Of the eight guardrails, the deterministic response can fail two: its primary language has to be
  -- one of the detected languages, and its summary has to be free of the guarded phrases. The other
  -- six always accept it.
  pub guardrails-deterministic :
      (req : PullRequestAnalysisRequest)
      → let response = deterministic fl policy req in
        guardrails fl policy req response ≡ (
          require_primary response.primary_detected_language response.detected_languages
          or_then require_tempered_summary response.summary policy)
  unfolding deterministic apply_hallucination_guardrails ◌or_then◌
  guardrails-deterministic req =
      let b = classify_files req.pull_request.files in
      let features = derive_features req b in
      let category = classify_category req b policy in
      rw (classify_category-Grounded req b features policy) rw
        (grounded_self features.detected_languages "detected_languages") rw
        (grounded_self features.criticality_tags "criticality_tags") rw
        (grounded_self features.issue_references "issue_references") rw
        (grounded_self (build_skills category b policy) "skills") rw
        (grounded_self (build_flags req b features policy) "flags") refl
