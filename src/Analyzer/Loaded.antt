-- ===== src/Analyzer/Loaded.antt =====
-- A policy that was read from JSON is fit for use
-- (gitrank/services/pr-analyzer/internal/analyzer/policy.go).
use text.Mathlib.Text.{◌==◌ as str_eq}
use gitrank.Common.{
  ◌≡◌, refl, inl, inr, Bool-cases, false, String, Option, none, some, List, [], ◌∷◌, trim_space,
}
use gitrank.Common.Float.{Float64}
use gitrank.Common.Capped.{floor_bound}
use gitrank.Contracts.{PullRequestAnalysisRequest}
use gitrank.Analyzer.Policy.{
  AnalyzerPolicy, default_analyzer_policy, normalize_token_list, or_fallback, compact, lower_all,
  trimmed_items,
}
use gitrank.Analyzer.Normalize.{
  normalize_analyzer_policy, load_analyzer_policy, normalized_or_default,
}
use gitrank.Analyzer.Measures.{is_empty}
use gitrank.Analyzer.Service.{deterministic}
use gitrank.Analyzer.Bounds.{deterministic-bounds}

or_fallback-full :
    (xs fallback : List String)
    → is_empty fallback ≡ false
    → is_empty (or_fallback xs fallback) ≡ false
unfolding or_fallback
or_fallback-full [] fallback h = h
or_fallback-full (s ∷ xs) fallback h = refl

normalize_token_list-full :
    (raw fallback : List String)
    → is_empty fallback ≡ false
    → is_empty (normalize_token_list raw fallback) ≡ false
unfolding normalize_token_list
normalize_token_list-full raw fallback h =
    or_fallback-full (compact (lower_all (trimmed_items raw))) fallback h

module _ (fl : Float64) where
  open fl use {F, less, decimal}

  normalized-guarded :
      (policy : AnalyzerPolicy F)
      → is_empty (normalize_analyzer_policy fl policy).guarded_summary_phrases ≡ false
  unfolding normalize_analyzer_policy default_analyzer_policy
  normalized-guarded policy =
      normalize_token_list-full policy.guarded_summary_phrases
        (default_analyzer_policy fl).guarded_summary_phrases refl

  normalized-ordered :
      (policy : AnalyzerPolicy F)
      → let p = normalize_analyzer_policy fl policy in less p.depth_max p.depth_min ≡ false
  unfolding normalize_analyzer_policy
  normalized-ordered policy = floor_bound fl _ _

  -- The bounds of the depth are in order, and there are guarded phrases.
  abbrev pub IsFit : AnalyzerPolicy F → Type 0
  IsFit p = (less p.depth_max p.depth_min ≡ false) × (is_empty p.guarded_summary_phrases ≡ false)

  IsFit-normalized_or_default :
      (decoded : Option (AnalyzerPolicy F))
      → less (decimal 225 2) (decimal 5 1) ≡ false
      → IsFit (normalized_or_default fl decoded)
  unfolding default_analyzer_policy
  IsFit-normalized_or_default none h = (h, refl)
  IsFit-normalized_or_default (some policy) h =
      (normalized-ordered policy, normalized-guarded policy)

  IsFit-load :
      (decode : String → AnalyzerPolicy F → Option (AnalyzerPolicy F)) (raw_json : String)
      → less (decimal 225 2) (decimal 5 1) ≡ false
      → IsFit (load_analyzer_policy fl decode raw_json)
  unfolding load_analyzer_policy default_analyzer_policy
  IsFit-load decode raw_json h = elim (Bool-cases (str_eq (trim_space raw_json) "")) [
    | inl e ↦ rw e (h, refl)
    | inr e ↦ rw e (IsFit-normalized_or_default _ h)
  ]

  -- Whatever text a policy is loaded from, and whatever the decoder makes of it, the summaries are
  -- checked against some phrases, and the technical depth of every deterministic response keeps to
  -- the two bounds of the policy (given that 2.25 is not below 0.5).
  pub load_analyzer_policy-bounds :
      (decode : String → AnalyzerPolicy F → Option (AnalyzerPolicy F)) (raw_json : String)
      (req : PullRequestAnalysisRequest)
      → less (decimal 225 2) (decimal 5 1) ≡ false
      → let policy = load_analyzer_policy fl decode raw_json in
        let r = deterministic fl policy req in
        (is_empty policy.guarded_summary_phrases ≡ false)
        × (less r.technical_depth policy.depth_min ≡ false)
        × (less policy.depth_max r.technical_depth ≡ false)
  load_analyzer_policy-bounds decode raw_json req h =
      let fit = IsFit-load decode raw_json h in
      let bounds = deterministic-bounds fl (load_analyzer_policy fl decode raw_json) req fit.0 in
      (fit.1, bounds.0, bounds.1)
