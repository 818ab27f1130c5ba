-- ===== src/Base/Sorting.antt =====
-- The stable sorts of the source (`sort_by`, `sort_by_key`), by insertion, over a test that says
-- whether the first element may stand before the second.
use Prim.Native.Nat.{ℕ, suc}
use mathlib.Core.Path.{◌≡◌, refl, ap, ◌∙◌}
use mathlib.Core.Bool.{Bool, true, false}
use mathlib.Core.Logic.{inl, inr}
use mathlib.Core.List.{List, [], ◌∷◌, map}
use native.Mathlib.Omega.{arith}
use browser_headless.Base.Tests.{if◌then◌else◌, ltb, ◌==◌, Bool-cases}
use browser_headless.Base.Lists.{All, count, length}
use browser_headless.Base.Sums.{sum}
use browser_headless.Base.Texts.{Text}

-- `a.cmp(b)` of two texts is not `Greater`.
unfoldable pub text_le : Text → Text → Bool
text_le [] t = true
text_le (c ∷ s) [] = false
text_le (c ∷ s) (d ∷ t) = if c == d then text_le s t else ltb c d

module _ {ℓ} {A : Type ℓ} (before : A → A → Bool) where
  unfoldable pub insert_by : A → List A → List A
  insert_by x [] = x ∷ []
  insert_by x (y ∷ ys) = if before x y then x ∷ y ∷ ys else y ∷ insert_by x ys

  unfoldable pub sort_by : List A → List A
  unfolding insert_by
  sort_by [] = []
  sort_by (x ∷ xs) = insert_by x (sort_by xs)

  pub count-insert_by :
      (p : A → Bool) (x : A) (xs : List A) → count p (insert_by x xs) ≡ count p (x ∷ xs)
  unfolding insert_by
  count-insert_by p x [] = refl
  count-insert_by p x (y ∷ ys) = ground (arith, count-insert_by p x ys)

  -- A sort keeps how many elements pass any test.
  pub count-sort_by : (p : A → Bool) (xs : List A) → count p (sort_by xs) ≡ count p xs
  unfolding sort_by
  count-sort_by p [] = refl
  count-sort_by p (x ∷ xs) = omega (arith, count-insert_by p x (sort_by xs), count-sort_by p xs)

  sum-insert_by :
      (f : A → ℕ) (x : A) (xs : List A) → sum (map f (insert_by x xs)) ≡ sum (map f (x ∷ xs))
  unfolding insert_by
  sum-insert_by f x [] = refl
  sum-insert_by f x (y ∷ ys) = ground (arith, sum-insert_by f x ys)

  -- A sort keeps the sum of any measure.
  pub sum-sort_by : (f : A → ℕ) (xs : List A) → sum (map f (sort_by xs)) ≡ sum (map f xs)
  unfolding sort_by
  sum-sort_by f [] = refl
  sum-sort_by f (x ∷ xs) = omega (arith, sum-insert_by f x (sort_by xs), sum-sort_by f xs)

  length-insert_by : (x : A) (xs : List A) → length (insert_by x xs) ≡ length (x ∷ xs)
  unfolding insert_by
  length-insert_by x [] = refl
  length-insert_by x (y ∷ ys) = ground (arith, length-insert_by x ys)

  pub length-sort_by : (xs : List A) → length (sort_by xs) ≡ length xs
  unfolding sort_by
  length-sort_by [] = refl
  length-sort_by (x ∷ xs) = length-insert_by x (sort_by xs) ∙ ap suc (length-sort_by xs)

  module _ {κ} (P : A → Type κ) where
    All-insert_by : (x : A) (xs : List A) → P x → All P xs → All P (insert_by x xs)
    unfolding insert_by
    All-insert_by x [] px h = (px, tt)
    All-insert_by x (y ∷ ys) px h = elim (Bool-cases (before x y)) [
      | inl first ↦ rw first (px, h)
      | inr later ↦ rw later (h.0, All-insert_by x ys px h.1)
    ]

    pub All-sort_by : (xs : List A) → All P xs → All P (sort_by xs)
    unfolding sort_by
    All-sort_by [] h = tt
    All-sort_by (x ∷ xs) h = All-insert_by x (sort_by xs) h.0 (All-sort_by xs h.1)
