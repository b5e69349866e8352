-- ===== src/Common/Float.antt =====
-- Go's `float64` as an interface: the operations that the services use, and the one law of its
-- order that their bounds rest on. It holds of every IEEE 754 value, NaN included.
use gitrank.Common.Int.{ℤ}
use Prim.Native.Nat.{ℕ}
use mathlib.Core.Bool.{Bool, false}
use mathlib.Core.Path.{◌≡◌}

pub record Float64 : Type 1 where
  pub F : Type 0
  pub plus : F → F → F
  pub minus : F → F → F
  pub times : F → F → F
  pub divided : F → F → F
  pub less : F → F → Bool  -- a < b
  pub equal : F → F → Bool  -- a == b
  pub at_least : F → F → Bool  -- a >= b
  pub positive : F → Bool  -- a > 0
  pub of_int : ℤ → F  -- float64(n)
  pub rounded : F → ℤ  -- int(math.Round(a))
  pub decimal : ℕ → ℕ → F  -- the literal n / 10 ^ d
  pub less_irrefl : (a : F) → less a a ≡ false
