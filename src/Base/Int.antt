-- ===== src/Base/Int.antt =====
-- Signed numbers, where the source has an `i64` that may be negative.
use Prim.Native.Nat.{ℕ, ◌-◌, ◌/◌}
use mathlib.Core.Bool.{Bool, true, false}
use browser_headless.Base.Tests.{if◌then◌else◌, leb}

-- `negsuc n` is -(n + 1).
pub data ℤ : Type 0 where
  pos : ℕ → ℤ
  negsuc : ℕ → ℤ

-- The floor of (a - b) / d.
unfoldable pub floor_div_sub : ℕ → ℕ → ℕ → ℤ
floor_div_sub a b d = if leb b a then pos ((a - b) / d) else negsuc ((b - a - 1) / d)

unfoldable pub le_ℤ : ℤ → ℤ → Bool
le_ℤ (pos a) (pos b) = leb a b
le_ℤ (pos a) (negsuc b) = false
le_ℤ (negsuc a) (pos b) = true
le_ℤ (negsuc a) (negsuc b) = leb b a
