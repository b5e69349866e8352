-- ===== src/Common/Capped.antt =====
-- A float that is cut off at a bound is on the right side of it.
use mathlib.Core.Bool.{false}
use mathlib.Core.Path.{◌≡◌}
use native.Mathlib.Omega.{arith}
use gitrank.Common.Tests.{if◌then◌else◌}
use gitrank.Common.Float.{Float64}

module _ (fl : Float64) where
  open fl use {F, less, less_irrefl}

  pub cap_bound : (cap value : F) → less cap (if less cap value then cap else value) ≡ false
  cap_bound cap value = ground (arith, less_irrefl cap)

  pub floor_bound :
      (floor value : F) → less (if less value floor then floor else value) floor ≡ false
  floor_bound floor value = ground (arith, less_irrefl floor)

  pub clamp_bounds :
      (lower upper value : F)
      → less upper lower ≡ false
      → let clamped =
          if less value lower then lower else if less upper value then upper else value in
        (less clamped lower ≡ false) × (less upper clamped ≡ false)
  clamp_bounds lower upper value h = ground (arith, less_irrefl lower, less_irrefl upper, h)
