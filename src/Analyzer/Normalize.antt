-- ===== src/Analyzer/Normalize.antt =====
-- `normalizeAnalyzerPolicy` and `loadAnalyzerPolicy` of
-- gitrank/services/pr-analyzer/internal/analyzer/policy.go. What the JSON decoder makes of the text
-- is an argument. The order of the association list is that in which the source visits its map.
use text.Mathlib.Text.{◌==◌ as str_eq}
use gitrank.Common.{String, Option, none, some, List, [], ◌∷◌, trim_space, if◌then◌else◌}
use gitrank.Common.Float.{Float64}
use gitrank.Analyzer.Policy.{
  AnalyzerPolicy, default_analyzer_policy, pick_int, pick_float, normalize_token_list,
  trimmed_items, compact,
}

-- normalized[category] = skills
unfoldable pub set_skills :
    String → List String → List (String × List String) → List (String × List String)
set_skills category skills [] = (category, skills) ∷ []
set_skills category skills ((key, old) ∷ rest) =
    let later = set_skills category skills rest in
    if str_eq key category then (key, skills) ∷ rest else (key, old) ∷ later

-- An entry of the loop of `normalizeSkillMap`
unfoldable pub add_skills :
    String → List String → List (String × List String) → List (String × List String)
unfolding set_skills
add_skills category [] normalized = normalized
add_skills category (s ∷ skills) normalized =
    if str_eq category "" then normalized else set_skills category (s ∷ skills) normalized

unfoldable pub add_skill_map :
    List (String × List String) → List (String × List String) → List (String × List String)
unfolding add_skills
add_skill_map [] normalized = normalized
add_skill_map ((category, skills) ∷ rest) normalized =
    add_skill_map rest
      (add_skills (trim_space category) (compact (trimmed_items skills)) normalized)

unfoldable pub map_or :
    List (String × List String) → List (String × List String) → List (String × List String)
map_or [] fallback = fallback
map_or (entry ∷ rest) fallback = entry ∷ rest

-- `normalizeSkillMap`
unfoldable pub normalize_skill_map :
    List (String × List String) → List (String × List String) → List (String × List String)
unfolding add_skill_map map_or
normalize_skill_map raw fallback = map_or (add_skill_map raw []) fallback

module _ (fl : Float64) where
  open fl use {F, less}

  abbrev pub not_below : F → F → F
  not_below low high = if less high low then low else high

  -- `normalizeAnalyzerPolicy`
  unfoldable pub normalize_analyzer_policy : AnalyzerPolicy F → AnalyzerPolicy F
  normalize_analyzer_policy policy =
      let defaults = default_analyzer_policy fl in
      record {
        security_keywords =
            normalize_token_list policy.security_keywords defaults.security_keywords;
        performance_keywords =
            normalize_token_list policy.performance_keywords defaults.performance_keywords;
        refactor_keywords =
            normalize_token_list policy.refactor_keywords defaults.refactor_keywords;
        bug_fix_keywords = normalize_token_list policy.bug_fix_keywords defaults.bug_fix_keywords;
        maintainer_design_keywords =
            normalize_token_list policy.maintainer_design_keywords
              defaults.maintainer_design_keywords;
        guarded_summary_phrases =
            normalize_token_list policy.guarded_summary_phrases defaults.guarded_summary_phrases;
        category_skills = normalize_skill_map policy.category_skills defaults.category_skills;
        confidence_base = pick_float fl policy.confidence_base defaults.confidence_base;
        confidence_docs_only_bonus =
            pick_float fl policy.confidence_docs_only_bonus defaults.confidence_docs_only_bonus;
        confidence_source_bonus =
            pick_float fl policy.confidence_source_bonus defaults.confidence_source_bonus;
        confidence_labels_bonus =
            pick_float fl policy.confidence_labels_bonus defaults.confidence_labels_bonus;
        confidence_issue_reference_bonus =
            pick_float fl policy.confidence_issue_reference_bonus
              defaults.confidence_issue_reference_bonus;
        confidence_criticality_bonus =
            pick_float fl policy.confidence_criticality_bonus defaults.confidence_criticality_bonus;
        confidence_max = pick_float fl policy.confidence_max defaults.confidence_max;
        depth_base = pick_float fl policy.depth_base defaults.depth_base;
        depth_changed_files_cap =
            pick_int policy.depth_changed_files_cap defaults.depth_changed_files_cap;
        depth_changed_files_bonus =
            pick_float fl policy.depth_changed_files_bonus defaults.depth_changed_files_bonus;
        depth_commits_cap = pick_int policy.depth_commits_cap defaults.depth_commits_cap;
        depth_commits_bonus = pick_float fl policy.depth_commits_bonus defaults.depth_commits_bonus;
        depth_diff_lines_cap = pick_int policy.depth_diff_lines_cap defaults.depth_diff_lines_cap;
        depth_diff_lines_divisor =
            pick_float fl policy.depth_diff_lines_divisor defaults.depth_diff_lines_divisor;
        depth_source_files_bonus =
            pick_float fl policy.depth_source_files_bonus defaults.depth_source_files_bonus;
        depth_test_files_bonus =
            pick_float fl policy.depth_test_files_bonus defaults.depth_test_files_bonus;
        depth_infra_source_bonus =
            pick_float fl policy.depth_infra_source_bonus defaults.depth_infra_source_bonus;
        depth_criticality_cap =
            pick_int policy.depth_criticality_cap defaults.depth_criticality_cap;
        depth_criticality_bonus =
            pick_float fl policy.depth_criticality_bonus defaults.depth_criticality_bonus;
        depth_polyglot_bonus =
            pick_float fl policy.depth_polyglot_bonus defaults.depth_polyglot_bonus;
        depth_draft_penalty = pick_float fl policy.depth_draft_penalty defaults.depth_draft_penalty;
        depth_min = pick_float fl policy.depth_min defaults.depth_min;
        depth_max =
            not_below (pick_float fl policy.depth_min defaults.depth_min)
              (pick_float fl policy.depth_max defaults.depth_max);
        review_base = pick_float fl policy.review_base defaults.review_base;
        review_approved_bonus =
            pick_float fl policy.review_approved_bonus defaults.review_approved_bonus;
        review_changes_requested_bonus =
            pick_float fl policy.review_changes_requested_bonus
              defaults.review_changes_requested_bonus;
        review_commented_bonus =
            pick_float fl policy.review_commented_bonus defaults.review_commented_bonus;
        review_maintainer_association_add =
            pick_float fl policy.review_maintainer_association_add
              defaults.review_maintainer_association_add;
        review_cycles_cap = pick_int policy.review_cycles_cap defaults.review_cycles_cap;
        review_cycles_bonus = pick_float fl policy.review_cycles_bonus defaults.review_cycles_bonus;
        review_max = pick_float fl policy.review_max defaults.review_max;
        review_meaningful_threshold =
            pick_float fl policy.review_meaningful_threshold defaults.review_meaningful_threshold;
        small_change_max_files =
            pick_int policy.small_change_max_files defaults.small_change_max_files;
        small_change_max_diff_lines =
            pick_int policy.small_change_max_diff_lines defaults.small_change_max_diff_lines;
      }

  abbrev pub normalized_or_default : Option (AnalyzerPolicy F) → AnalyzerPolicy F
  normalized_or_default none = default_analyzer_policy fl
  normalized_or_default (some policy) = normalize_analyzer_policy policy

  -- `loadAnalyzerPolicy`; `decode` gives the defaults with the fields of the text, or fails.
  unfoldable pub load_analyzer_policy :
      (decode : String → AnalyzerPolicy F → Option (AnalyzerPolicy F)) → String → AnalyzerPolicy F
  load_analyzer_policy decode raw_json =
      if str_eq (trim_space raw_json) ""
      then default_analyzer_policy fl
      else normalized_or_default (decode (trim_space raw_json) (default_analyzer_policy fl))
