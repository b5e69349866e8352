-- ===== src/Replay/Examples.antt =====
-- Replay on a small history (gitrank/services/scoring-engine/internal/service/service.go).
use gitrank.Common.{
  ℕ, ◌-◌, ◌*◌, ◌+◌, ◌≤◌, ◌<◌, ◌≡◌, refl, true, false, ◌&&◌, List, [], ◌∷◌, count_by,
}
use gitrank.Common.Int.{ℤ, pos, ◌≤ℤ◌}
use gitrank.Common.Hundredths.{hundredths}
use gitrank.Replay.History.{
  HistoricalContribution, ReplayCandidate, day, week, active_in, start_of_week,
  consecutive_active_weeks, is_recent, in_repository, in_category, derive_contributor_context,
}
use gitrank.Replay.Streaks.{consecutive_active_weeks_lem, derive_contributor_context-counts}

-- On the second day of week 10
abbrev moment : ℕ
moment = 10 * week + 1 * day

abbrev active : List ℕ
active = 10 * week ∷ 9 * week ∷ 7 * week ∷ []

streak : consecutive_active_weeks active (start_of_week moment) ≡ 2
unfolding consecutive_active_weeks start_of_week active_in
streak = refl

consecutive_active_weeks_lem_example :
    let start = start_of_week moment in
    let n = consecutive_active_weeks active start in
    ((i : ℕ) → i < n → active_in active (start - i * week) ≡ true)
    × (n * week ≤ start → active_in active (start - n * week) ≡ false)
consecutive_active_weeks_lem_example = consecutive_active_weeks_lem active moment

abbrev prior : HistoricalContribution
prior = record {
  occurred_at = 9 * week;
  repository = "Octo/Tools";
  category = "bug_fix";
  total_xp = pos 80;
  meaningful = true;
  merged = true;
}

abbrev candidate : ReplayCandidate ℤ
candidate = record {
  pull_request_id = "p";
  analysis_id = "a";
  occurred_at = moment;
  analysis_created_at = moment;
  repository = record {
    full_name = "octo/tools";
    primary_language = "Go";
    default_branch = "main";
    stars = pos 1;
    maintainers = pos 1;
    archived = false;
  };
  pull_request = record {
    number = pos 7;
    title = "t";
    body = "";
    state = "closed";
    merged = true;
    draft = false;
    additions = pos 5;
    deletions = pos 2;
    changed_files = pos 1;
    commits = pos 1;
    labels = [];
    linked_issues = [];
    files = [];
    reviews = [];
  };
  analyzer_version = "v";
  prompt_version = "";
  model_name = "";
  analysis_source = "deterministic";
  classification = "bug_fix";
  confidence = pos 70;
  summary = "s";
  signal_hints = [];
  author_login = "u";
  merged_by_login = "v";
}

derive_contributor_context-counts_example :
    let history = prior ∷ [] in
    let c = derive_contributor_context hundredths history candidate in
    let recent = is_recent candidate in
    let here = in_repository candidate in
    let alike = in_category candidate in
    (c.recent_merged_pull_requests ≡ pos (count_by (λ p. p.merged) history))
    × (c.recent_repository_pull_requests ≡ pos (count_by (λ p. recent p && here p) history))
    × (c.recent_category_pull_requests ≡ pos (count_by (λ p. recent p && alike p) history))
    × (c.recent_similar_pull_requests
        ≡ pos (count_by (λ p. recent p && (here p && alike p)) history))
    × (c.recent_similar_pull_requests ≤ℤ c.recent_repository_pull_requests)
    × (c.recent_similar_pull_requests ≤ℤ c.recent_category_pull_requests)
derive_contributor_context-counts_example =
    derive_contributor_context-counts hundredths (prior ∷ []) candidate
