-- ===== src/Common/Clock.antt =====
-- Go's `time` as the services use it. An instant is the number of nanoseconds since Go's zero
-- `time.Time`, so `IsZero` is a test for 0; a `time.Duration` is an integer of nanoseconds.
use gitrank.Common.Tests.{ltb, ◌==◌}
use gitrank.Common.Int.{ℤ, pos, pos_part, sub_ℕ, ◌+ℤ◌}
use Prim.Native.Nat.{ℕ}
use mathlib.Core.Bool.{Bool}

abbrev pub Time : Type 0
Time = ℕ

abbrev pub Duration : Type 0
Duration = ℤ

abbrev pub zero_time : Time
zero_time = 0

abbrev pub is_zero : Time → Bool
is_zero t = t == 0

-- t.After(u)
abbrev pub after : Time → Time → Bool
after t u = ltb u t

-- t.Sub(u)
abbrev pub sub : Time → Time → Duration
sub t u = sub_ℕ t u

-- t.Add(d); no instant lies before the zero time.
abbrev pub add : Time → Duration → Time
add t d = pos_part (pos t +ℤ d)

abbrev pub second : Duration
second = pos 1_000_000_000

abbrev pub minute : Duration
minute = pos 60_000_000_000
