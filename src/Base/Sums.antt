-- ===== src/Base/Sums.antt =====
-- Sums, and tables over a small range.
use Prim.Native.Nat.{ℕ, zero, suc, ◌+◌, ◌<◌}
use mathlib.Core.Path.{◌≡◌}
use mathlib.Core.Bool.{Bool, true, false}
use mathlib.Core.List.{List, [], ◌∷◌}
use native.Mathlib.Omega.{arith}
use browser_headless.Base.Tests.{if◌then◌else◌}

abbrev pub sum : List ℕ → ℕ
sum [] = 0
sum (x ∷ xs) = x + sum xs

-- Whether the test passes at every number below the bound; stated once and evaluated.
unfoldable pub table : (ℕ → Bool) → ℕ → Bool
table test zero = true
table test (suc bound) = if test bound then table test bound else false

pub table-lt : (bound i : ℕ) (test : ℕ → Bool) → i < bound → table test bound ≡ true → test i ≡ true
unfolding table
table-lt zero i test below passed = absurd (omega arith)
table-lt (suc bound) i test below passed = ground (arith, table-lt bound i test, below)
