-- ===== src/Analyzer/Report.antt =====
-- What the analyzer says of a pull request
-- (gitrank/services/pr-analyzer/internal/analyzer/analyzer.go): `buildSignals`, `buildSkills`,
-- `buildFlags` and `buildSummary`.
use Prim.Native.String.{◌++◌ as append}
use text.Mathlib.Text.{◌==◌ as str_eq}
use gitrank.Common.{
  ℕ, Bool, true, false, not, ◌&&◌, String, List, [], ◌∷◌, ◌++◌, length, ltb, ◌==◌, if◌then◌else◌,
}
use gitrank.Common.Int.{pos, ◌+ℤ◌, leb_ℤ}
use gitrank.Common.Words.{equal_fold, join, spaced, itoa, member}
use gitrank.Common.Float.{Float64}
use gitrank.Contracts.{
  RepositoryContext, PullRequestContext, PullRequestAnalysisRequest, FileBreakdown,
}
use gitrank.Analyzer.Policy.{AnalyzerPolicy, skills_of}
use gitrank.Analyzer.Features.{DerivedFeatures}
use gitrank.Analyzer.Measures.{is_empty}

-- A line under a test
abbrev pub line_if : Bool → String → List String
line_if true line = line ∷ []
line_if false line = []

abbrev counted : String → ℕ → String
counted label n = append label (itoa (pos n))

-- `buildSignals`
unfoldable pub build_signals :
    PullRequestAnalysisRequest → FileBreakdown → String → DerivedFeatures → List String
build_signals req b category features =
    let pr = req.pull_request in
    append "category=" category
    ∷ append "files=" (itoa pr.changed_files)
    ∷ append "commits=" (itoa pr.commits)
    ∷ (line_if (ltb 0 b.docs) (counted "docs_files=" b.docs)
        ++ (line_if (ltb 0 b.tests) (counted "test_files=" b.tests)
            ++ (line_if (ltb 0 b.source) (counted "source_files=" b.source)
                ++ (line_if (not (is_empty features.detected_languages))
                      (append "languages=" (join features.detected_languages ","))
                    ++ (line_if (not (is_empty features.issue_references))
                          (counted "linked_issues=" (length features.issue_references))
                        ++ (line_if (not (is_empty pr.reviews))
                              (counted "reviews=" (length pr.reviews))
                            ++ (line_if (ltb 0 features.review_cycles)
                                  (counted "review_cycles=" features.review_cycles)
                                ++ line_if (not (is_empty features.criticality_tags)) (
                                    append "criticality="
                                      (join features.criticality_tags ",")))))))))

-- `buildSkills`
unfoldable pub build_skills : {F : Type 0} → String → FileBreakdown → AnalyzerPolicy F → List String
build_skills category b policy =
    let own = skills_of category policy.category_skills in
    let skills = if is_empty own then skills_of "feature" policy.category_skills else own in
    if ltb 0 b.tests && not (member skills "testing") then skills ++ "testing" ∷ [] else skills

-- `buildFlags`
unfoldable pub build_flags :
    {F : Type 0}
    → PullRequestAnalysisRequest
    → FileBreakdown
    → DerivedFeatures
    → AnalyzerPolicy F
    → List String
build_flags req b features policy =
    let pr = req.pull_request in
    line_if pr.draft "draft_pull_request"
    ++ (line_if req.repository.archived "archived_repository"
        ++ (line_if
              (leb_ℤ pr.changed_files policy.small_change_max_files
                && leb_ℤ (pr.additions +ℤ pr.deletions) policy.small_change_max_diff_lines)
              "small_change"
            ++ (line_if (ltb 0 b.docs && (b.source == 0 && b.tests == 0)) "docs_only"
                ++ (line_if (ltb 1 (length features.detected_languages)) "polyglot_change"
                    ++ (line_if (ltb 0 features.review_cycles) "review_rework_cycle"
                        ++ line_if (not (is_empty features.criticality_tags))
                            "critical_path_change")))))

-- `buildSummary`
unfoldable pub build_summary :
    (fl : Float64)
    → AnalyzerPolicy fl.F
    → String
    → FileBreakdown
    → PullRequestContext
    → RepositoryContext
    → fl.F
    → DerivedFeatures
    → String
build_summary fl policy category b pr repo review features =
    join
      (spaced category
        ∷ append "PR touching " (append (itoa pr.changed_files) " files")
        ∷ (line_if (ltb 0 b.source) (append (itoa (pos b.source)) " source")
            ++ (line_if (ltb 0 b.tests) (append (itoa (pos b.tests)) " test")
                ++ (line_if (ltb 0 b.docs) (append (itoa (pos b.docs)) " docs")
                    ++ (line_if (not (str_eq repo.primary_language ""))
                          (append "primary language " repo.primary_language)
                        ++ (line_if
                              (not (str_eq features.primary_detected_language "")
                                && not (
                                    equal_fold features.primary_detected_language
                                      repo.primary_language))
                              (append "detected language " features.primary_detected_language)
                            ++ (line_if (not (is_empty features.issue_references))
                                  (counted "linked issues " (length features.issue_references))
                                ++ (line_if (fl.at_least review policy.review_meaningful_threshold)
                                      "meaningful review activity"
                                    ++ (line_if (ltb 0 features.review_cycles)
                                          (counted "review rework cycles " features.review_cycles)
                                        ++ line_if (not (is_empty features.criticality_tags))
                                            "critical path touched")))))))))
      "; "
