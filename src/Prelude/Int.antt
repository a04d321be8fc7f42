-- ===== src/Prelude/Int.antt =====
-- Python's unbounded integers.
use Prim.Native.Nat.{ℕ}
use mathlib.Core.Bool.{Bool, true}
use homepass.Prelude.Tests.{ltb}

-- `negsuc n` is -(n + 1).
pub data ℤ : Type 0 where
  pos : ℕ → ℤ
  negsuc : ℕ → ℤ

-- a < n, for a number n that is not negative
abbrev pub below : ℤ → ℕ → Bool
below (pos a) n = ltb a n
below (negsuc a) n = true
