-- ===== src/Base/Time.antt =====
-- time.Time and time.Duration. A time is the number of nanoseconds since Go's zero time (the start
-- of year 1 in UTC), so `time.Time{}` is 0; a time before it is not represented. The integer that
-- `Unix()` gives is kept in seconds since the zero time too: the Unix epoch is `unix_epoch` there.
use Prim.Native.Nat.{ℕ, ◌+◌, ◌*◌, ◌/◌, ◌≤◌, ◌<◌}
use mathlib.Core.Path.{◌≡◌}
use mathlib.Core.Bool.{Bool}
use native.Mathlib.Omega.{arith}
use rmvpn.Base.Tests.{ltb}

abbrev pub Time : Type 0
Time = ℕ

abbrev pub second : ℕ
second = 1_000_000_000

abbrev pub minute : ℕ
minute = 60 * second

abbrev pub hour : ℕ
hour = 60 * minute

-- 1970-01-01T00:00:00Z
abbrev pub unix_epoch : ℕ
unix_epoch = 62_135_596_800

-- t.After(u)
abbrev pub after : Time → Time → Bool
after t u = ltb u t

-- t.Unix(), and time.Unix(s, 0)
abbrev pub unix : Time → ℕ
unix t = t / second

abbrev pub of_unix : ℕ → Time
of_unix s = s * second

pub unix-of_unix : (s : ℕ) → unix (of_unix s) ≡ s
unix-of_unix s = omega arith

-- A time that went through the database has lost less than a second.
pub of_unix-unix : (t : Time) → (of_unix (unix t) ≤ t) × (t < of_unix (unix t) + second)
of_unix-unix t = omega arith
