-- ===== src/Analyzer/Features.antt =====
-- `deriveFeatures` of gitrank/services/pr-analyzer/internal/analyzer/features.go.
use gitrank.Common.{
  ℕ, ◌+◌, Bool, false, ◌||◌, String, Option, none, some, List, [], ◌∷◌, ◌++◌, if◌then◌else◌,
}
use gitrank.Common.Words.{to_lower, equal_fold, has_prefix, contains, member}
use gitrank.Contracts.{ChangedFile, ReviewSignal, PullRequestAnalysisRequest, FileBreakdown}
use gitrank.Analyzer.Languages.{detect_languages}
use gitrank.Analyzer.References.{detect_issue_references}

pub record DerivedFeatures : Type 0 where
  pub detected_languages : List String
  pub primary_detected_language : String
  pub issue_references : List String
  pub review_cycles : ℕ
  pub criticality_tags : List String

-- `countReviewCycles`
unfoldable pub count_review_cycles : List ReviewSignal → ℕ
count_review_cycles [] = 0
count_review_cycles (review ∷ reviews) =
    (if equal_fold review.state "changes_requested" then 1 else 0) + count_review_cycles reviews

-- One of these is part of the path.
unfoldable pub contains_any : String → List String → Bool
contains_any path [] = false
contains_any path (part ∷ parts) = contains path part || contains_any path parts

-- `appendTag`
unfoldable pub append_tag : List String → String → List String
append_tag tags tag = if member tags tag then tags else tags ++ tag ∷ []

-- The `switch` of `detectCriticalityTags`: the tag of a path, if it has one.
unfoldable pub tag_of : String → Option String
unfolding contains_any
tag_of path =
    if contains_any path ("/auth/" ∷ "oauth" ∷ "session" ∷ "token" ∷ "secret" ∷ "permission" ∷ [])
    then some "auth_identity"
    else if contains_any path
        ("migration" ∷ "/db/" ∷ "/sql/" ∷ "schema" ∷ "repository" ∷ "store" ∷ [])
    then some "data_persistence"
    else if contains_any path ("/api/" ∷ "openapi" ∷ "router" ∷ "handler" ∷ "http" ∷ [])
    then some "api_surface"
    else if has_prefix path ".github/workflows/"
        || contains_any path ("docker" ∷ "deploy" ∷ "k8s" ∷ "terraform" ∷ "helm" ∷ "compose" ∷ [])
    then some "delivery_ops"
    else if has_prefix path "cmd/" || contains_any path ("main.go" ∷ "bootstrap" ∷ "startup" ∷ [])
    then some "runtime_bootstrap"
    else none

unfoldable pub append_found : List String → Option String → List String
unfolding append_tag
append_found tags none = tags
append_found tags (some tag) = append_tag tags tag

-- The body of the loop of `detectCriticalityTags`
unfoldable pub tag_file : List String → ChangedFile → List String
unfolding append_found tag_of
tag_file tags file = append_found tags (tag_of (to_lower file.path))

unfoldable pub tag_files : List String → List ChangedFile → List String
unfolding tag_file
tag_files tags [] = tags
tag_files tags (file ∷ files) = tag_files (tag_file tags file) files

-- `detectCriticalityTags`
unfoldable pub detect_criticality_tags : List ChangedFile → List String
unfolding tag_files
detect_criticality_tags files = tag_files [] files

-- `deriveFeatures`
unfoldable pub derive_features : PullRequestAnalysisRequest → FileBreakdown → DerivedFeatures
derive_features req breakdown =
    let pr = req.pull_request in
    let languages = detect_languages req.repository.primary_language pr.files breakdown.source in
    record {
      detected_languages = languages.0;
      primary_detected_language = languages.1;
      issue_references = detect_issue_references pr;
      review_cycles = count_review_cycles pr.reviews;
      criticality_tags = detect_criticality_tags pr.files;
    }
