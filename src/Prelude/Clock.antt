-- ===== src/Prelude/Clock.antt =====
-- Package time: an instant is the nanoseconds since 0001-01-01 00:00 UTC, so Go's zero time is 0;
-- instants before it are not modelled. A duration is an `int64` of nanoseconds.
use Prim.Native.Nat.{ℕ, ◌+◌, ◌-◌, ◌*◌, ◌≤◌, min}
use mathlib.Core.Path.{◌≡◌}
use mathlib.Core.Logic.{◌↔◌}
use mathlib.Core.Bool.{Bool, true}
use native.Mathlib.Omega.{arith}
use logingestor.Prelude.Tests.{ltb, leb, if◌then◌else◌}
use logingestor.Prelude.Int.{ℤ, pos, negsuc, leb_ℤ, max_int64}

abbrev pub Time : Type 0
Time = ℕ

abbrev pub Duration : Type 0
Duration = ℤ

-- Nanoseconds in a second, a minute, an hour and a day.
abbrev pub second : ℕ
second = 1_000_000_000

abbrev pub minute : ℕ
minute = 60 * second

abbrev pub hour : ℕ
hour = 60 * minute

abbrev pub day : ℕ
day = 24 * hour

-- `a.Before(b)`; `a.After(b)` is `before b a`.
abbrev pub before : Time → Time → Bool
before a b = ltb a b

-- `a.Sub(b)`, which saturates at the ends of `int64`.
unfoldable pub sub_time : Time → Time → Duration
sub_time a b = if leb b a then pos (min (a - b) max_int64) else negsuc (min (b - a - 1) max_int64)

-- `a.Sub(b) >= d`, for a duration that is not negative, says that `d` has passed since `b`.
pub sub_time-ge : (a b n : ℕ) → n ≤ max_int64 → (leb_ℤ (pos n) (sub_time a b) ≡ true) ↔ (b + n ≤ a)
unfolding sub_time
sub_time-ge a b n h = ground arith

-- `a.Sub(b)` is positive exactly when `a` is later.
pub sub_time_pos : (a b : ℕ) → (leb_ℤ (sub_time a b) (pos 0) ≡ true) ↔ (a ≤ b)
unfolding sub_time
sub_time_pos a b = ground arith
