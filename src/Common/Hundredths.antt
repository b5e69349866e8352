-- ===== src/Common/Hundredths.antt =====
-- A float of whole hundredths, enough to run the analyzer and the scoring engine on examples.
use Prim.Native.Nat.{ℕ, ◌*◌}
use mathlib.Core.Bool.{false, ◌&&◌}
use mathlib.Core.Path.{◌≡◌}
use native.Mathlib.Omega.{arith}
use gitrank.Common.Tests.{◌==◌, if◌then◌else◌}
use gitrank.Common.Int.{ℤ, pos, ◌+ℤ◌, ◌-ℤ◌, ◌*ℤ◌, ltb_ℤ, leb_ℤ}
use gitrank.Common.Float.{Float64}

pub ltb_ℤ-irrefl : (a : ℤ) → ltb_ℤ a a ≡ false
ltb_ℤ-irrefl a = ground arith

abbrev pub cents : ℕ → ℕ → ℤ
cents n d = if d == 0 then pos (n * 100) else if d == 1 then pos (n * 10) else pos n

abbrev pub hundredths : Float64
hundredths = record {
  F = ℤ;
  plus = λ a b. a +ℤ b;
  minus = λ a b. a -ℤ b;
  times = λ a b. a *ℤ b;
  divided = λ a b. a;
  less = ltb_ℤ;
  equal = λ a b. leb_ℤ a b && leb_ℤ b a;
  at_least = λ a b. leb_ℤ b a;
  positive = λ a. ltb_ℤ (pos 0) a;
  of_int = λ a. a *ℤ pos 100;
  rounded = λ a. a;
  decimal = λ n d. cents n d;
  less_irrefl = ltb_ℤ-irrefl;
}
