-- ===== src/Replay/History.antt =====
-- What the scores of a user's earlier contributions make of the context of the next
-- (gitrank/services/scoring-engine/internal/service/service.go): `startOfWeek`,
-- `consecutiveActiveWeeks` and `deriveContributorContext`.
use text.Mathlib.Text.{◌==◌ as str_eq}
use gitrank.Common.{
  ℕ, zero, suc, ◌+◌, ◌-◌, ◌*◌, ◌/◌, ◌%◌, Bool, true, false, ◌&&◌, String, List, [], ◌∷◌, length,
  ltb, ◌==◌, if◌then◌else◌,
}
use gitrank.Common.Int.{ℤ, pos, leb_ℤ}
use gitrank.Common.Clock.{Time, sub}
use gitrank.Common.Words.{equal_fold}
use gitrank.Common.Float.{Float64}
use gitrank.Contracts.{RepositoryContext, PullRequestContext, ContributorContext}

pub record HistoricalContribution : Type 0 where
  pub occurred_at : Time
  pub repository : String
  pub category : String
  pub total_xp : ℤ
  pub meaningful : Bool
  pub merged : Bool

pub record ReplayCandidate (F : Type 0) : Type 0 where
  pub pull_request_id : String
  pub analysis_id : String
  pub occurred_at : Time
  pub analysis_created_at : Time
  pub repository : RepositoryContext
  pub pull_request : PullRequestContext
  pub analyzer_version : String
  pub prompt_version : String
  pub model_name : String
  pub analysis_source : String
  pub classification : String
  pub confidence : F
  pub summary : String
  pub signal_hints : List String
  pub author_login : String
  pub merged_by_login : String

abbrev pub day : ℕ
day = 86_400_000_000_000

-- Seven days; the zero time of Go is a Monday.
abbrev pub week : ℕ
week = 604_800_000_000_000

-- `startOfWeek`
unfoldable pub start_of_week : Time → Time
start_of_week value = value - value % week

-- The keys of the map `weeks`
unfoldable pub active_in : List Time → Time → Bool
active_in [] start = false
active_in (w ∷ weeks) start = let rest = active_in weeks start in if w == start then true else rest

-- The loop of `consecutiveActiveWeeks`, from the week with this number down. Before week 0 there is
-- none.
unfoldable pub active_down : List Time → ℕ → ℕ
active_down weeks zero = if active_in weeks 0 then 1 else 0
active_down weeks (suc k) =
    let earlier = active_down weeks k in if active_in weeks (suc k * week) then suc earlier else 0

-- `consecutiveActiveWeeks`, for the start of a week
unfoldable pub consecutive_active_weeks : List Time → Time → ℕ
unfolding active_down
consecutive_active_weeks [] current_week = 0
consecutive_active_weeks (w ∷ weeks) current_week = active_down (w ∷ weeks) (current_week / week)

-- The counters of `deriveContributorContext`
pub record Tally : Type 0 where
  pub total_meaningful : ℕ
  pub recent_merged : ℕ
  pub recent_repo : ℕ
  pub recent_category : ℕ
  pub recent_similar : ℕ
  pub weeks : List Time

abbrev pub no_tally : Tally
no_tally = record {
  total_meaningful = 0;
  recent_merged = 0;
  recent_repo = 0;
  recent_category = 0;
  recent_similar = 0;
  weeks = [];
}

-- counter++ under a test
abbrev pub count_if : Bool → ℕ → ℕ
count_if test n = if test then n + 1 else n

module _ {F : Type 0} (candidate : ReplayCandidate F) where
  abbrev pub is_recent : HistoricalContribution → Bool
  is_recent prior = leb_ℤ (sub candidate.occurred_at prior.occurred_at) (pos (60 * day))

  abbrev pub in_repository : HistoricalContribution → Bool
  in_repository prior = equal_fold prior.repository candidate.repository.full_name

  abbrev pub in_category : HistoricalContribution → Bool
  in_category prior = str_eq prior.category candidate.classification

  -- The body of the loop of `deriveContributorContext`
  unfoldable pub tally_prior : HistoricalContribution → Tally → Tally
  tally_prior prior t = record {
    total_meaningful = count_if prior.meaningful t.total_meaningful;
    recent_merged = count_if prior.merged t.recent_merged;
    recent_repo = count_if (is_recent prior && in_repository prior) t.recent_repo;
    recent_category = count_if (is_recent prior && in_category prior) t.recent_category;
    recent_similar =
        count_if (is_recent prior && (in_repository prior && in_category prior)) t.recent_similar;
    weeks = start_of_week prior.occurred_at ∷ t.weeks;
  }

  unfoldable pub tally_history : List HistoricalContribution → Tally → Tally
  unfolding tally_prior
  tally_history [] t = t
  tally_history (prior ∷ history) t = tally_history history (tally_prior prior t)

-- `deriveContributorContext`
unfoldable pub derive_contributor_context :
    (fl : Float64) → List HistoricalContribution → ReplayCandidate fl.F → ContributorContext fl.F
derive_contributor_context fl history candidate =
    let t = tally_history candidate history no_tally in
    let n = length history in
    record {
      recent_merged_pull_requests = pos t.recent_merged;
      consecutive_active_weeks =
          pos (consecutive_active_weeks t.weeks (start_of_week candidate.occurred_at));
      meaningful_contribution_ratio =
          if ltb 0 n
          then fl.divided (fl.of_int (pos t.total_meaningful)) (fl.of_int (pos n))
          else fl.decimal 0 0;
      recent_repository_pull_requests = pos t.recent_repo;
      recent_category_pull_requests = pos t.recent_category;
      recent_similar_pull_requests = pos t.recent_similar;
    }
