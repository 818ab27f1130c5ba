-- ===== src/Base/Dicts.antt =====
-- Maps with texts as keys (`HashMap<String, V>`), as lists of entries in iteration order.
pub mod Unique
use Prim.Native.Nat.{ℕ, zero, suc, ◌+◌, ◌-◌, ◌≤◌, ◌<◌}
use mathlib.Core.Path.{◌≡◌, refl, ap, subst, sym, ◌∙◌}
use mathlib.Core.Bool.{Bool, true, false, ◌&&◌, ◌||◌}
use mathlib.Core.List.{List, [], ◌∷◌, ◌++◌}
use mathlib.Core.Option.{Option, none, some, some-injective}
use mathlib.Core.Logic.{◌⊎◌, inl, inr, ◌↔◌, ◌≢◌}
use native.Mathlib.Omega.{arith}
use browser_headless.Base.Tests.{if◌then◌else◌, Bool-cases, to_ℕ}
use browser_headless.Base.Lists.{length, count}
use browser_headless.Base.Texts.{Text, text_eq, text_eq_iff, text_eq_refl}

abbrev pub Dict {ℓ} : Type ℓ → Type ℓ
Dict V = List (Text × V)

module _ {ℓ} {V : Type ℓ} where
  unfoldable pub lookup : Text → Dict V → Option V
  lookup k [] = none
  lookup k ((j, v) ∷ m) = if text_eq j k then some v else lookup k m

  unfoldable pub insert : Text → V → Dict V → Dict V
  insert k v [] = (k, v) ∷ []
  insert k v ((j, w) ∷ m) = if text_eq j k then (j, v) ∷ m else (j, w) ∷ insert k v m

  unfoldable pub remove : Text → Dict V → Dict V
  remove k [] = []
  remove k ((j, w) ∷ m) = if text_eq j k then m else (j, w) ∷ remove k m

  -- `map.get_mut(k)` and an assignment through it.
  unfoldable pub modify : Text → (V → V) → Dict V → Dict V
  modify k f [] = []
  modify k f ((j, w) ∷ m) = if text_eq j k then (j, f w) ∷ m else (j, w) ∷ modify k f m

  -- `map.retain(|_, v| p(v))`.
  unfoldable pub retain : (V → Bool) → Dict V → Dict V
  retain p [] = []
  retain p ((j, w) ∷ m) = if p w then (j, w) ∷ retain p m else retain p m

  -- How many values pass the test.
  unfoldable pub count_values : (V → Bool) → Dict V → ℕ
  count_values p [] = 0
  count_values p ((j, w) ∷ m) = to_ℕ (p w) + count_values p m

  abbrev pub AllValues {κ} : (V → Type κ) → Dict V → Type κ
  AllValues P [] = Unit
  AllValues P ((j, w) ∷ m) = P w × AllValues P m

  pub lookup-insert :
      (k j : Text) (v : V) (m : Dict V)
      → lookup j (insert k v m) ≡ (if text_eq k j then some v else lookup j m)
  unfolding lookup insert
  lookup-insert k j v [] = refl
  lookup-insert k j v ((i, w) ∷ m) =
      ground (arith, text_eq_iff k j, text_eq_iff i k, text_eq_iff i j, lookup-insert k j v m)

  pub lookup-modify :
      (k j : Text) (f : V → V) (v : V) (m : Dict V)
      → lookup k m ≡ some v
      → lookup j (modify k f m) ≡ (if text_eq k j then some (f v) else lookup j m)
  unfolding lookup modify
  lookup-modify k j f v [] h = ground arith
  lookup-modify k j f v ((i, w) ∷ m) h =
      ground (arith, text_eq_iff k j, text_eq_iff i k, text_eq_iff i j, lookup-modify k j f v m)

  pub length-insert : (k : Text) (v : V) (m : Dict V) → length (insert k v m) ≤ length m + 1
  unfolding insert
  length-insert k v [] = omega arith
  length-insert k v ((j, w) ∷ m) = ground (arith, length-insert k v m)

  pub length-modify : (k : Text) (f : V → V) (m : Dict V) → length (modify k f m) ≡ length m
  unfolding modify
  length-modify k f [] = refl
  length-modify k f ((j, w) ∷ m) = ground (arith, length-modify k f m)

  pub length-remove :
      (k : Text) (v : V) (m : Dict V) → lookup k m ≡ some v → length (remove k m) + 1 ≡ length m
  unfolding lookup remove
  length-remove k v [] h = ground arith
  length-remove k v ((j, w) ∷ m) h = ground (arith, length-remove k v m)

  pub length-retain-le : (p : V → Bool) (m : Dict V) → length (retain p m) ≤ length m
  unfolding retain
  length-retain-le p [] = omega arith
  length-retain-le p ((j, w) ∷ m) = ground (arith, length-retain-le p m)

  pub count_values-le-length : (p : V → Bool) (m : Dict V) → count_values p m ≤ length m
  unfolding count_values
  count_values-le-length p [] = omega arith
  count_values-le-length p ((j, w) ∷ m) = ground (arith, count_values-le-length p m)

  pub count_values-retain-le :
      (p q : V → Bool) (m : Dict V) → count_values p (retain q m) ≤ count_values p m
  unfolding retain count_values
  count_values-retain-le p q [] = omega arith
  count_values-retain-le p q ((j, w) ∷ m) = ground (arith, count_values-retain-le p q m)

  pub count_values-insert-le :
      (p : V → Bool) (k : Text) (v : V) (m : Dict V)
      → count_values p (insert k v m) ≤ count_values p m + to_ℕ (p v)
  unfolding insert count_values
  count_values-insert-le p k v [] = omega arith
  count_values-insert-le p k v ((j, w) ∷ m) = ground (arith, count_values-insert-le p k v m)

  pub count_values-remove-le :
      (p : V → Bool) (k : Text) (m : Dict V) → count_values p (remove k m) ≤ count_values p m
  unfolding remove count_values
  count_values-remove-le p k [] = omega arith
  count_values-remove-le p k ((j, w) ∷ m) = ground (arith, count_values-remove-le p k m)

  -- Taking out a value that does not pass keeps the count.
  pub count_values-remove :
      (p : V → Bool) (k : Text) (v : V) (m : Dict V)
      → lookup k m ≡ some v
      → p v ≡ false
      → count_values p (remove k m) ≡ count_values p m
  unfolding lookup remove count_values
  count_values-remove p k v [] h e = ground arith
  count_values-remove p k v ((j, w) ∷ m) h e = ground (arith, count_values-remove p k v m)

  -- An update of a value that passed the test makes no new one pass.
  pub count_values-modify-le :
      (p : V → Bool) (f : V → V) (k : Text) (v : V) (m : Dict V)
      → lookup k m ≡ some v
      → to_ℕ (p (f v)) ≤ to_ℕ (p v)
      → count_values p (modify k f m) ≤ count_values p m
  unfolding lookup modify count_values
  count_values-modify-le p f k v [] h e = ground arith
  count_values-modify-le p f k v ((j, w) ∷ m) h e = ground (arith, count_values-modify-le p f k v m)

  pub modify_absent : (k : Text) (f : V → V) (m : Dict V) → lookup k m ≡ none → modify k f m ≡ m
  unfolding lookup modify
  modify_absent k f [] h = refl
  modify_absent k f ((j, w) ∷ m) h = ground (arith, modify_absent k f m)

  module _ {κ} (P : V → Type κ) where
    pub AllValues-lookup :
        (k : Text) (v : V) (m : Dict V) → AllValues P m → lookup k m ≡ some v → P v
    unfolding lookup
    AllValues-lookup k v [] h e = absurd (cc)
    AllValues-lookup k v ((j, w) ∷ m) h e = elim (Bool-cases (text_eq j k)) [
      | inl same ↦ subst P (some-injective w v (rw same at e)) h.0
      | inr other ↦ AllValues-lookup k v m h.1 (rw other at e)
    ]

    pub AllValues-insert :
        (k : Text) (v : V) (m : Dict V) → P v → AllValues P m → AllValues P (insert k v m)
    unfolding insert
    AllValues-insert k v [] pv h = (pv, tt)
    AllValues-insert k v ((j, w) ∷ m) pv h = elim (Bool-cases (text_eq j k)) [
      | inl same ↦ rw same (pv, h.1)
      | inr other ↦ rw other (h.0, AllValues-insert k v m pv h.1)
    ]

    pub AllValues-remove : (k : Text) (m : Dict V) → AllValues P m → AllValues P (remove k m)
    unfolding remove
    AllValues-remove k [] h = tt
    AllValues-remove k ((j, w) ∷ m) h = elim (Bool-cases (text_eq j k)) [
      | inl same ↦ rw same h.1
      | inr other ↦ rw other (h.0, AllValues-remove k m h.1)
    ]

    pub AllValues-modify :
        (k : Text) (f : V → V) (m : Dict V)
        → ((v : V) → P v → P (f v))
        → AllValues P m
        → AllValues P (modify k f m)
    unfolding modify
    AllValues-modify k f [] keep h = tt
    AllValues-modify k f ((j, w) ∷ m) keep h = elim (Bool-cases (text_eq j k)) [
      | inl same ↦ rw same (keep w h.0, h.1)
      | inr other ↦ rw other (h.0, AllValues-modify k f m keep h.1)
    ]

    pub AllValues-retain : (p : V → Bool) (m : Dict V) → AllValues P m → AllValues P (retain p m)
    unfolding retain
    AllValues-retain p [] h = tt
    AllValues-retain p ((j, w) ∷ m) h = elim (Bool-cases (p w)) [
      | inl kept ↦ rw kept (h.0, AllValues-retain p m h.1)
      | inr gone ↦ rw gone (AllValues-retain p m h.1)
    ]
