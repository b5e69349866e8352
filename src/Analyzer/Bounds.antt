-- ===== src/Analyzer/Bounds.antt =====
-- The bounds of what the analyzer measures
-- (gitrank/services/pr-analyzer/internal/analyzer/analyzer.go).
use gitrank.Common.{◌≡◌, false}
use gitrank.Common.Float.{Float64}
use gitrank.Common.Capped.{cap_bound, clamp_bounds}
use gitrank.Contracts.{PullRequestAnalysisRequest}
use gitrank.Analyzer.Policy.{AnalyzerPolicy}
use gitrank.Analyzer.Measures.{category_confidence, technical_depth, review_strength}
use gitrank.Analyzer.Service.{deterministic}

module _ (fl : Float64) (policy : AnalyzerPolicy fl.F) where
  open fl use {F, less}

  -- The depth of a deterministic response is not outside the two bounds of the policy (given that
  -- these are not the wrong way round), and its confidence and review strength are not above their
  -- maxima, whatever the request holds.
  pub deterministic-bounds :
      (req : PullRequestAnalysisRequest)
      → less policy.depth_max policy.depth_min ≡ false
      → let r = deterministic fl policy req in
        (less r.technical_depth policy.depth_min ≡ false)
        × (less policy.depth_max r.technical_depth ≡ false)
        × (less policy.confidence_max r.confidence ≡ false)
        × (less policy.review_max r.review_strength ≡ false)
  unfolding deterministic technical_depth category_confidence review_strength
  deterministic-bounds req h =
      let depth = clamp_bounds fl policy.depth_min policy.depth_max _ h in
      (depth.0, depth.1, cap_bound fl policy.confidence_max _, cap_bound fl policy.review_max _)
