-- ===== src/Common/Clock.antt =====
-- Go's time.Time and time.Duration, in nanoseconds.
use Prim.Native.Nat.{ℕ, ◌+◌, ◌-◌, ◌*◌, ◌^◌, ◌%◌, suc}
use mathlib.Core.Bool.{Bool}
use congraph_log_watcher.Common.Tests.{ltb, ◌==◌}
use congraph_log_watcher.Common.Int.{ℤ, pos, negsuc}

-- An instant, counted from the earliest second that Go's 64-bit counter of seconds represents.
abbrev pub Time : Type 0
Time = ℕ

-- The zero value, January 1 of year 1: Go counts its seconds from there, and can go back by 2^63.
unfoldable pub zero_time : Time
zero_time = 2 ^ 63 * 1000000000

-- `t.IsZero()`
abbrev pub is_zero : Time → Bool
is_zero t = t == zero_time

-- `t.Before(u)`; `t.After(u)` is `before u t`, and `t.Equal(u)` is `t == u`.
abbrev pub before : Time → Time → Bool
before t u = ltb t u

abbrev pub Duration : Type 0
Duration = ℤ

-- `t.Add(d)`. Below the earliest instant Go would wrap around; no timestamp comes near it.
abbrev pub add : Time → Duration → Time
add t (pos n) = t + n
add t (negsuc n) = t - suc n

-- `t.Add(-d)`
abbrev pub sub : Time → Duration → Time
sub t (pos n) = t - n
sub t (negsuc n) = t + suc n

-- The 64 bits of an `int` or `uint64` that is incremented.
abbrev pub inc64 : ℕ → ℕ
inc64 n = (n + 1) % 2 ^ 64
