-- ===== src/Analyzer/Examples.antt =====
-- The analyzer on small pull requests (gitrank/services/pr-analyzer/internal/analyzer).
use gitrank.Common.{◌≡◌, refl, false, String, Option, none, some, List, [], ◌∷◌, length, trim_space}
use gitrank.Common.Int.{ℤ, pos, ltb_ℤ}
use gitrank.Common.Checks.{◌or_then◌}
use gitrank.Common.Hundredths.{hundredths}
use gitrank.Common.Words.{to_lower, base_name, extension, has_prefix, has_suffix, contains}
use gitrank.Contracts.{
  ChangedFile, RepositoryContext, PullRequestContext, PullRequestAnalysisRequest,
  ContributorContext,
}
use gitrank.Contracts.Validation.{validate_request, validate_pull_request_context}
use gitrank.Scoring.Policy.{ScoringPolicy, default_policy}
use gitrank.Analyzer.Policy.{AnalyzerPolicy, default_analyzer_policy}
use gitrank.Analyzer.Paths.{classify_files, is_infra_path, is_doc_path}
use gitrank.Analyzer.Languages.{normalize_language_name, language_for_file}
use gitrank.Analyzer.References.{find_references, detect_issue_references}
use gitrank.Analyzer.Features.{detect_criticality_tags}
use gitrank.Analyzer.Measures.{is_empty}
use gitrank.Analyzer.Guardrails.{require_primary, require_tempered_summary, primary_error}
use gitrank.Analyzer.Service.{
  SummaryClient, said, refused, failed_guardrails, analyze, deterministic, guardrails,
}
use gitrank.Analyzer.Checks.{guardrails-deterministic}
use gitrank.Analyzer.Outcome.{score_of, Given, score-analyze, analyze-guardrails, analyze-unlisted}
use gitrank.Analyzer.Counted.{NoRepeats, features-NoRepeats}
use gitrank.Analyzer.Normalize.{load_analyzer_policy}
use gitrank.Analyzer.Loaded.{load_analyzer_policy-bounds}
use gitrank.Analyzer.Bounds.{deterministic-bounds}

abbrev policy : AnalyzerPolicy ℤ
unfolding default_analyzer_policy
policy = default_analyzer_policy hundredths

abbrev scoring : ScoringPolicy ℤ
unfolding default_policy
scoring = default_policy hundredths

abbrev changed : String → ChangedFile
changed path = record { path = path; additions = pos 3; deletions = pos 1; status = "modified" }

abbrev repository : RepositoryContext
repository = record {
  full_name = "octo/tools";
  primary_language = "golang";
  default_branch = "main";
  stars = pos 120;
  maintainers = pos 4;
  archived = false;
}

abbrev pull : List ChangedFile → PullRequestContext
pull files = record {
  number = pos 7;
  title = "Fix octo/Tools#12";
  body = "see #9 and #9";
  state = "open";
  merged = false;
  draft = false;
  additions = pos 6;
  deletions = pos 2;
  changed_files = pos (length files);
  commits = pos 1;
  labels = [];
  linked_issues = "#9" ∷ [];
  files = files;
  reviews = [];
}

abbrev request : List ChangedFile → PullRequestAnalysisRequest
request files = record { repository = repository; pull_request = pull files }

abbrev code : List ChangedFile
code = changed "pkg/store/queue.go" ∷ changed "pkg/store/queue_test.go" ∷ []

abbrev contributor : ContributorContext ℤ
contributor = record {
  recent_merged_pull_requests = pos 6;
  consecutive_active_weeks = pos 3;
  meaningful_contribution_ratio = pos 50;
  recent_repository_pull_requests = pos 2;
  recent_category_pull_requests = pos 1;
  recent_similar_pull_requests = pos 0;
}

abbrev client : SummaryClient ℤ
client = record { model = "m"; summarize = λ req response. said "A perfect change." }

-- The pattern finds both forms of a reference.
found : find_references 0 "Fix octo/Tools#12, see #9 and x/#" ≡ "octo/Tools#12" ∷ "#9" ∷ []
unfolding find_references
found = refl

guardrails-deterministic_example :
    let response = deterministic hundredths policy (request code) in
    guardrails hundredths policy (request code) response ≡ (
      require_primary response.primary_detected_language response.detected_languages
      or_then require_tempered_summary response.summary policy)
guardrails-deterministic_example = guardrails-deterministic hundredths policy (request code)

score-analyze_example :
    score_of hundredths policy scoring
      (request code)
      contributor
      (analyze hundredths policy (some client) (request code))
    ≡ score_of hundredths policy scoring
        (request code)
        contributor
        (analyze hundredths policy none (request code))
score-analyze_example = score-analyze hundredths policy scoring contributor client (request code)

analyze-guardrails_example :
    Given hundredths policy
      (λ r. guardrails hundredths policy (request code) r ≡ none)
      (analyze hundredths policy (some client) (request code))
analyze-guardrails_example = analyze-guardrails hundredths policy (some client) (request code)

abbrev picture : ChangedFile
picture = changed "docs/logo.png"

analyze-unlisted_example :
    analyze hundredths policy none (request (picture ∷ []))
    ≡ refused (failed_guardrails (primary_error (normalize_language_name "golang")))
unfolding validate_request language_for_file classify_files normalize_language_name trim_space
    validate_pull_request_context to_lower base_name extension is_infra_path has_prefix contains
    has_suffix is_doc_path
analyze-unlisted_example =
    analyze-unlisted hundredths policy none (request (picture ∷ [])) picture [] refl refl (refl, tt)
      refl refl

features-NoRepeats_example :
    NoRepeats (detect_issue_references (pull code)) × NoRepeats (detect_criticality_tags code)
features-NoRepeats_example = features-NoRepeats (pull code)

deterministic-bounds_example :
    let r = deterministic hundredths policy (request code) in
    (ltb_ℤ r.technical_depth policy.depth_min ≡ false)
    × (ltb_ℤ policy.depth_max r.technical_depth ≡ false)
    × (ltb_ℤ policy.confidence_max r.confidence ≡ false)
    × (ltb_ℤ policy.review_max r.review_strength ≡ false)
unfolding policy
deterministic-bounds_example = deterministic-bounds hundredths policy (request code) refl

-- A decoder that finds a maximum below the minimum, and no phrases.
abbrev decoder : String → AnalyzerPolicy ℤ → Option (AnalyzerPolicy ℤ)
decoder text policy = some (record policy { depth_max = pos 10; guarded_summary_phrases = [] })

load_analyzer_policy-bounds_example :
    let loaded = load_analyzer_policy hundredths decoder "{}" in
    let r = deterministic hundredths loaded (request code) in
    (is_empty loaded.guarded_summary_phrases ≡ false)
    × (ltb_ℤ r.technical_depth loaded.depth_min ≡ false)
    × (ltb_ℤ loaded.depth_max r.technical_depth ≡ false)
load_analyzer_policy-bounds_example =
    load_analyzer_policy-bounds hundredths decoder "{}" (request code) refl
