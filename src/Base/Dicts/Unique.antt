-- ===== src/Base/Dicts/Unique.antt =====
-- Maps that hold each key once, as a `HashMap` does.
use mathlib.Core.Path.{◌≡◌, refl, ◌∙◌}
use mathlib.Core.Bool.{Bool}
use mathlib.Core.List.{[], ◌∷◌}
use mathlib.Core.Option.{none, some}
use mathlib.Core.Logic.{inl, inr}
use native.Mathlib.Omega.{arith}
use browser_headless.Base.Tests.{if◌then◌else◌, Bool-cases}
use browser_headless.Base.Texts.{Text, text_eq, text_eq_iff}
use browser_headless.Base.Dicts.{Dict, lookup, insert, remove, modify, retain, lookup-insert}

module _ {ℓ} {V : Type ℓ} where
  abbrev pub Unique : Dict V → Type ℓ
  Unique [] = Unit
  Unique ((k, v) ∷ m) = (lookup k m ≡ none) × Unique m

  pub lookup-remove :
      (k j : Text) (m : Dict V)
      → Unique m
      → lookup j (remove k m) ≡ (if text_eq k j then none else lookup j m)
  unfolding lookup remove
  lookup-remove k j [] u = ground arith
  lookup-remove k j ((i, w) ∷ m) u =
      ground (arith, text_eq_iff k j, text_eq_iff i k, text_eq_iff i j, lookup-remove k j m u.1)

  lookup-retain_absent :
      (k : Text) (p : V → Bool) (m : Dict V) → lookup k m ≡ none → lookup k (retain p m) ≡ none
  unfolding lookup retain
  lookup-retain_absent k p [] h = refl
  lookup-retain_absent k p ((i, w) ∷ m) h = ground (arith, lookup-retain_absent k p m)

  pub lookup-retain :
      (k : Text) (p : V → Bool) (m : Dict V)
      → Unique m
      → lookup k (retain p m)
        ≡ elim (lookup k m) [ none ↦ none | some v ↦ if p v then some v else none ]
  unfolding lookup retain
  lookup-retain k p [] u = refl
  lookup-retain k p ((i, w) ∷ m) u =
      ground (arith, text_eq_iff i k, lookup-retain k p m u.1, lookup-retain_absent i p m u.0)

  lookup-modify_absent :
      (k j : Text) (f : V → V) (m : Dict V) → lookup j m ≡ none → lookup j (modify k f m) ≡ none
  unfolding lookup modify
  lookup-modify_absent k j f [] h = refl
  lookup-modify_absent k j f ((i, w) ∷ m) h = ground (arith, lookup-modify_absent k j f m)

  lookup-remove_absent :
      (k j : Text) (m : Dict V) → lookup j m ≡ none → lookup j (remove k m) ≡ none
  unfolding lookup remove
  lookup-remove_absent k j [] h = refl
  lookup-remove_absent k j ((i, w) ∷ m) h = ground (arith, lookup-remove_absent k j m)

  pub Unique-insert : (k : Text) (v : V) (m : Dict V) → Unique m → Unique (insert k v m)
  unfolding insert lookup
  Unique-insert k v [] u = (refl, tt)
  Unique-insert k v ((i, w) ∷ m) u = elim (Bool-cases (text_eq i k)) [
    | inl same ↦ rw same u
    | inr other ↦ rw other (
      lookup-insert k i v m ∙ ground (arith, text_eq_iff i k, text_eq_iff k i, u.0, other),
      Unique-insert k v m u.1,
    )
  ]

  pub Unique-remove : (k : Text) (m : Dict V) → Unique m → Unique (remove k m)
  unfolding remove
  Unique-remove k [] u = tt
  Unique-remove k ((i, w) ∷ m) u = elim (Bool-cases (text_eq i k)) [
    | inl same ↦ rw same u.1
    | inr other ↦ rw other (lookup-remove_absent k i m u.0, Unique-remove k m u.1)
  ]

  pub Unique-modify : (k : Text) (f : V → V) (m : Dict V) → Unique m → Unique (modify k f m)
  unfolding modify
  Unique-modify k f [] u = tt
  Unique-modify k f ((i, w) ∷ m) u = elim (Bool-cases (text_eq i k)) [
    | inl same ↦ rw same u
    | inr other ↦ rw other (lookup-modify_absent k i f m u.0, Unique-modify k f m u.1)
  ]

  pub Unique-retain : (p : V → Bool) (m : Dict V) → Unique m → Unique (retain p m)
  unfolding retain
  Unique-retain p [] u = tt
  Unique-retain p ((i, w) ∷ m) u = elim (Bool-cases (p w)) [
    | inl kept ↦ rw kept (lookup-retain_absent i p m u.0, Unique-retain p m u.1)
    | inr gone ↦ rw gone (Unique-retain p m u.1)
  ]
