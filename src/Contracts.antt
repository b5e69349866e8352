-- ===== src/Contracts.antt =====
-- gitrank/packages/contracts (analysis.go, scoring.go): what the analyzer and the scoring engine are
-- given and give back. `F` is the type of a `float64`; an `int` is an integer, and the counts of a
-- `FileBreakdown`, which start at 0 and are only counted up, are natural numbers.
pub mod Validation
pub mod Sync
pub mod Modes
use gitrank.Common.{ℕ, Bool, String, List}
use gitrank.Common.Int.{ℤ}

pub record RepositoryContext : Type 0 where
  pub full_name : String
  pub primary_language : String
  pub default_branch : String
  pub stars : ℤ
  pub maintainers : ℤ
  pub archived : Bool

pub record ChangedFile : Type 0 where
  pub path : String
  pub additions : ℤ
  pub deletions : ℤ
  pub status : String

pub record ReviewSignal : Type 0 where
  pub state : String
  pub author_association : String

pub record PullRequestContext : Type 0 where
  pub number : ℤ
  pub title : String
  pub body : String
  pub state : String
  pub merged : Bool
  pub draft : Bool
  pub additions : ℤ
  pub deletions : ℤ
  pub changed_files : ℤ
  pub commits : ℤ
  pub labels : List String
  pub linked_issues : List String
  pub files : List ChangedFile
  pub reviews : List ReviewSignal

pub record PullRequestAnalysisRequest : Type 0 where
  pub repository : RepositoryContext
  pub pull_request : PullRequestContext

pub record FileBreakdown : Type 0 where
  pub docs : ℕ
  pub tests : ℕ
  pub source : ℕ
  pub infra : ℕ
  pub config : ℕ

pub record PullRequestAnalysisResponse (F : Type 0) : Type 0 where
  pub analysis_id : String
  pub pull_request_id : String
  pub schema_version : String
  pub analyzer_version : String
  pub analysis_source : String
  pub prompt_version : String
  pub model_name : String
  pub validation_status : String
  pub fallback_reason : String
  pub category : String
  pub summary : String
  pub confidence : F
  pub technical_depth : F
  pub review_strength : F
  pub detected_languages : List String
  pub primary_detected_language : String
  pub criticality_tags : List String
  pub issue_references : List String
  pub review_cycles : ℕ
  pub signals : List String
  pub skills : List String
  pub flags : List String
  pub file_breakdown : FileBreakdown
  pub prompt_suggested : Bool

pub record ContributorContext (F : Type 0) : Type 0 where
  pub recent_merged_pull_requests : ℤ
  pub consecutive_active_weeks : ℤ
  pub meaningful_contribution_ratio : F
  pub recent_repository_pull_requests : ℤ
  pub recent_category_pull_requests : ℤ
  pub recent_similar_pull_requests : ℤ

pub record ScoreContributionRequest (F : Type 0) : Type 0 where
  pub repository : RepositoryContext
  pub pull_request : PullRequestContext
  pub analysis : PullRequestAnalysisResponse F
  pub contributor : ContributorContext F

pub record ScoreContributionResponse (F : Type 0) : Type 0 where
  pub score_version : String
  pub total_xp : ℤ
  pub level : String
  pub category_weight : F
  pub technical_depth : F
  pub review_strength : F
  pub repository_weight : F
  pub outcome_weight : F
  pub consistency_modifier : F
  pub diminishing_returns_modifier : F
  pub spam_penalty : F
  pub skill_xp : List (String × ℤ)
  pub explanation : List String
  pub suspicious_activity : Bool
