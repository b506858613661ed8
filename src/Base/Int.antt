-- ===== src/Base/Int.antt =====
-- int64 values, and the addition that wraps around.
use Prim.Native.Nat.{ℕ, suc, ◌+◌, ◌-◌}
use mathlib.Core.Bool.{Bool, true, false}
use repo_extension.Base.Tests.{ltb, if◌then◌else◌}

-- int64
pub data ℤ : Type 0 where
  pos negsuc : ℕ → ℤ

unfoldable pub less : ℤ → ℤ → Bool
less (pos a) (pos b) = ltb a b
less (pos a) (negsuc b) = false
less (negsuc a) (pos b) = true
less (negsuc a) (negsuc b) = ltb b a

-- A number that is known not to be negative.
abbrev pub magnitude : ℤ → ℕ
magnitude (pos n) = n
magnitude (negsuc n) = suc n

-- 2 ^ 63 and 2 ^ 64
unfoldable pub int64_limit : ℕ
int64_limit = 9_223_372_036_854_775_808

unfoldable pub int64_size : ℕ
int64_size = 18_446_744_073_709_551_616

-- The sum of two int64 that are not negative: behind the largest one it wraps around.
unfoldable pub int64_add : ℕ → ℕ → ℤ
int64_add a b = if ltb (a + b) int64_limit then pos (a + b) else negsuc (int64_size - (a + b) - 1)
