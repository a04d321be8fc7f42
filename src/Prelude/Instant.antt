-- ===== src/Prelude/Instant.antt =====
-- Python's `datetime`. An aware one is its instant in UTC, in microseconds since year 1, since the
-- program converts it with `astimezone(UTC)` before it stores or compares it.
use Prim.Native.Nat.{ℕ}
use mathlib.Core.Bool.{Bool}
use mathlib.Core.Option.{Option, none, some}
use homepass.Prelude.Tests.{ltb}
use homepass.Prelude.Result.{Result, ok, err, type_error, value_error, ◌>>=◌}

pub data Datetime : Type 0 where
  naive : ℕ → Datetime
  aware : ℕ → Datetime

abbrev pub instant : Datetime → ℕ
instant (naive a) = a
instant (aware a) = a

-- a < b: Python refuses to compare a naive with an aware one.
abbrev pub datetime_lt : Datetime → Datetime → Result Bool
datetime_lt (naive a) (naive b) = ok (ltb a b)
datetime_lt (aware a) (aware b) = ok (ltb a b)
datetime_lt _ _ = err type_error

-- `_normalize_datetime`, which each model module has a copy of: the instant in UTC.
unfoldable pub normalize_datetime : Datetime → Result ℕ
normalize_datetime (naive a) = err value_error
normalize_datetime (aware a) = ok a

-- The same for a field that may be `None`.
unfoldable pub normalize_optional : Option Datetime → Result (Option Datetime)
unfolding normalize_datetime
normalize_optional none = ok none
normalize_optional (some d) = do n ← normalize_datetime d; ok (some (aware n))
