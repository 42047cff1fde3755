-- ===== src/Common/Time.antt =====
-- Go's `time.Time` and `time.Duration`. An instant is its number of nanoseconds after the zero
-- time of package `time`, so `IsZero` is the test for 0. A duration is its number of nanoseconds;
-- the program's durations are not negative.
use Prim.Native.Nat.{ℕ, ◌-◌, ◌*◌, min}
use mathlib.Core.Bool.{Bool}
use inf_api.Common.Tests.{ltb, ◌==◌}

-- `math.MaxInt64`, at which `Time.Sub` saturates.
abbrev pub max_duration : ℕ
max_duration = 9223372036854775807

abbrev pub millisecond : ℕ
millisecond = 1000000

abbrev pub second : ℕ
second = 1000000000

abbrev pub minute : ℕ
minute = 60 * second

abbrev pub hour : ℕ
hour = 60 * minute

-- `now.Sub(t)`. A negative difference stands as 0, which compares as it does with every
-- duration that is not negative.
abbrev pub sub_time : ℕ → ℕ → ℕ
sub_time now t = min (now - t) max_duration

abbrev pub is_zero : ℕ → Bool
is_zero t = t == 0

-- `t.Before(u)`, and `u.After(t)`.
abbrev pub before : ℕ → ℕ → Bool
before t u = ltb t u
