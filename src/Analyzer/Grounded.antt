-- ===== src/Analyzer/Grounded.antt =====
-- The category that the analyzer finds stands up to its own guardrails
-- (gitrank/services/pr-analyzer/internal/analyzer: classifyCategory and requireGroundedCategory).
use gitrank.Common.{◌≡◌, refl, inl, inr, Bool-cases, ◌&&◌, none, ltb, ◌==◌, arith}
use gitrank.Contracts.{PullRequestAnalysisRequest, FileBreakdown}
use gitrank.Analyzer.Policy.{AnalyzerPolicy, has_any_keyword}
use gitrank.Analyzer.Features.{DerivedFeatures}
use gitrank.Analyzer.Measures.{classify_category, request_text}
use gitrank.Analyzer.Guardrails.{require_grounded_category}

-- Whatever the request, the features and the policy, `requireGroundedCategory` accepts the category
-- that `classifyCategory` gives.
pub classify_category-Grounded :
    {F : Type 0} (req : PullRequestAnalysisRequest) (b : FileBreakdown) (features : DerivedFeatures)
    (policy : AnalyzerPolicy F)
    → require_grounded_category req b features (classify_category req b policy) policy ≡ none
unfolding classify_category require_grounded_category
classify_category-Grounded req b features policy =
    let text = request_text req in
    elim (Bool-cases (has_any_keyword text policy.security_keywords)) [
      | inl e ↦ rw e refl
      | inr e ↦ rw e elim (Bool-cases (b.source == 0 && (b.tests == 0 && ltb 0 b.docs))) [
        | inl e ↦ rw e ground arith
        | inr e ↦ rw e elim (Bool-cases (b.source == 0 && ltb 0 b.tests)) [
          | inl e ↦ rw e ground arith
          | inr e ↦ rw e elim (Bool-cases (has_any_keyword text policy.performance_keywords)) [
            | inl e ↦ rw e refl
            | inr e ↦ rw e elim (Bool-cases (has_any_keyword text policy.refactor_keywords)) [
              | inl e ↦ rw e refl
              | inr e ↦ rw e elim (Bool-cases (ltb 0 b.infra && b.source == 0)) [
                | inl e ↦ rw e ground arith
                | inr e ↦ rw e elim (Bool-cases (has_any_keyword text policy.bug_fix_keywords)) [
                  | inl e ↦ rw e refl
                  | inr e ↦
                      rw e
                        elim (Bool-cases (has_any_keyword text policy.maintainer_design_keywords)) [
                          | inl e ↦ rw e refl
                          | inr e ↦ rw e refl
                        ]
                ]
              ]
            ]
          ]
        ]
      ]
    ]
