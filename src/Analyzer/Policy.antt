-- ===== src/Analyzer/Policy.antt =====
-- The policy of the analyzer (gitrank/services/pr-analyzer/internal/analyzer/policy.go), its defaults
-- and the normalisation of one that was read from JSON. The skills by category are an association
-- list.
use text.Mathlib.Text.{◌==◌ as str_eq}
use gitrank.Common.{Bool, true, false, String, List, [], ◌∷◌, trim_space, if◌then◌else◌}
use gitrank.Common.Int.{ℤ, pos, nonpos}
use gitrank.Common.Words.{contains, to_lower}
use gitrank.Common.Float.{Float64}

pub record AnalyzerPolicy (F : Type 0) : Type 0 where
  pub security_keywords : List String
  pub performance_keywords : List String
  pub refactor_keywords : List String
  pub bug_fix_keywords : List String
  pub maintainer_design_keywords : List String
  pub guarded_summary_phrases : List String
  pub category_skills : List (String × List String)
  pub confidence_base : F
  pub confidence_docs_only_bonus : F
  pub confidence_source_bonus : F
  pub confidence_labels_bonus : F
  pub confidence_issue_reference_bonus : F
  pub confidence_criticality_bonus : F
  pub confidence_max : F
  pub depth_base : F
  pub depth_changed_files_cap : ℤ
  pub depth_changed_files_bonus : F
  pub depth_commits_cap : ℤ
  pub depth_commits_bonus : F
  pub depth_diff_lines_cap : ℤ
  pub depth_diff_lines_divisor : F
  pub depth_source_files_bonus : F
  pub depth_test_files_bonus : F
  pub depth_infra_source_bonus : F
  pub depth_criticality_cap : ℤ
  pub depth_criticality_bonus : F
  pub depth_polyglot_bonus : F
  pub depth_draft_penalty : F
  pub depth_min : F
  pub depth_max : F
  pub review_base : F
  pub review_approved_bonus : F
  pub review_changes_requested_bonus : F
  pub review_commented_bonus : F
  pub review_maintainer_association_add : F
  pub review_cycles_cap : ℤ
  pub review_cycles_bonus : F
  pub review_max : F
  pub review_meaningful_threshold : F
  pub small_change_max_files : ℤ
  pub small_change_max_diff_lines : ℤ

-- policy.CategorySkills[category]
unfoldable pub skills_of : String → List (String × List String) → List String
skills_of category [] = []
skills_of category ((key, skills) ∷ rest) =
    let later = skills_of category rest in if str_eq key category then skills else later

-- `hasAnyKeyword`
unfoldable pub has_any_keyword : String → List String → Bool
has_any_keyword text [] = false
has_any_keyword text (keyword ∷ keywords) =
    let rest = has_any_keyword text keywords in if contains text keyword then true else rest

-- `pickInt`
unfoldable pub pick_int : ℤ → ℤ → ℤ
pick_int value fallback = if nonpos value then fallback else value

-- The loops of `normalizeTokenList` and `normalizeSkillMap`: the trimmed items that are not empty.
unfoldable pub trimmed_items : List String → List String
trimmed_items [] = []
trimmed_items (item ∷ items) =
    let rest = trimmed_items items in
    if str_eq (trim_space item) "" then rest else trim_space item ∷ rest

unfoldable pub lower_all : List String → List String
lower_all [] = []
lower_all (item ∷ items) = to_lower item ∷ lower_all items

-- slices.Compact(values): runs of equal values become one.
unfoldable pub compact : List String → List String
compact [] = []
compact (s ∷ []) = s ∷ []
compact (s ∷ t ∷ rest) = let later = compact (t ∷ rest) in if str_eq s t then later else s ∷ later

unfoldable pub or_fallback : List String → List String → List String
or_fallback [] fallback = fallback
or_fallback (s ∷ rest) fallback = s ∷ rest

-- `normalizeTokenList`
unfoldable pub normalize_token_list : List String → List String → List String
unfolding trimmed_items lower_all compact or_fallback
normalize_token_list raw fallback = or_fallback (compact (lower_all (trimmed_items raw))) fallback

module _ (fl : Float64) where
  open fl use {F, less, at_least, decimal}

  -- `defaultAnalyzerPolicy`
  unfoldable pub default_analyzer_policy : AnalyzerPolicy F
  default_analyzer_policy = record {
    security_keywords =
        "security" ∷ "cve" ∷ "auth" ∷ "token" ∷ "oauth" ∷ "permission" ∷ "secret" ∷ [];
    performance_keywords = "performance" ∷ "latency" ∷ "optimiz" ∷ "throughput" ∷ "cache" ∷ [];
    refactor_keywords = "refactor" ∷ "cleanup" ∷ "rename" ∷ "simplify" ∷ [];
    bug_fix_keywords = "bug" ∷ "fix" ∷ "regression" ∷ "rollback" ∷ "repair" ∷ "correct" ∷ [];
    maintainer_design_keywords = "design" ∷ "architecture" ∷ "maintainer" ∷ [];
    guarded_summary_phrases =
        "expert" ∷ "world-class" ∷ "best-in-class" ∷ "perfect" ∷ "guaranteed" ∷ "proves" ∷ "proven"
        ∷ "mastered" ∷ "ownership" ∷ "authoritative" ∷ "definitive" ∷ "unambiguous" ∷ "certainly"
        ∷ [];
    category_skills =
        ("documentation", "documentation" ∷ [])
        ∷ ("tests", "testing" ∷ [])
        ∷ ("bug_fix", "debugging" ∷ "backend" ∷ [])
        ∷ ("feature", "backend" ∷ "api_design" ∷ [])
        ∷ ("refactor", "systems" ∷ "tooling" ∷ [])
        ∷ ("performance", "performance" ∷ "backend" ∷ [])
        ∷ ("infrastructure", "tooling" ∷ "systems" ∷ [])
        ∷ ("security", "security" ∷ "backend" ∷ [])
        ∷ ("maintainer_design", "systems" ∷ "api_design" ∷ [])
        ∷ [];
    confidence_base = decimal 6 1;
    confidence_docs_only_bonus = decimal 25 2;
    confidence_source_bonus = decimal 1 1;
    confidence_labels_bonus = decimal 5 2;
    confidence_issue_reference_bonus = decimal 3 2;
    confidence_criticality_bonus = decimal 2 2;
    confidence_max = decimal 95 2;
    depth_base = decimal 75 2;
    depth_changed_files_cap = pos 12;
    depth_changed_files_bonus = decimal 4 2;
    depth_commits_cap = pos 8;
    depth_commits_bonus = decimal 3 2;
    depth_diff_lines_cap = pos 800;
    depth_diff_lines_divisor = decimal 1000 0;
    depth_source_files_bonus = decimal 8 2;
    depth_test_files_bonus = decimal 5 2;
    depth_infra_source_bonus = decimal 15 2;
    depth_criticality_cap = pos 3;
    depth_criticality_bonus = decimal 5 2;
    depth_polyglot_bonus = decimal 8 2;
    depth_draft_penalty = decimal 2 1;
    depth_min = decimal 5 1;
    depth_max = decimal 225 2;
    review_base = decimal 85 2;
    review_approved_bonus = decimal 12 2;
    review_changes_requested_bonus = decimal 8 2;
    review_commented_bonus = decimal 3 2;
    review_maintainer_association_add = decimal 5 2;
    review_cycles_cap = pos 3;
    review_cycles_bonus = decimal 5 2;
    review_max = decimal 15 1;
    review_meaningful_threshold = decimal 11 1;
    small_change_max_files = pos 2;
    small_change_max_diff_lines = pos 14;
  }

  -- `pickFloat`
  unfoldable pub pick_float : F → F → F
  pick_float value fallback = if at_least (decimal 0 0) value then fallback else value
