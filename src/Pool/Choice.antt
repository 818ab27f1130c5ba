-- ===== src/Pool/Choice.antt =====
-- src/pool.rs: the instance that `checkout` chooses, and the pool that has none to choose.
use browser_headless.Base.{
  ℕ, suc, ◌+◌, ◌≤◌, ◌≡◌, ◌↔◌, refl, sym, ap, ◌∙◌, subst, inl, inr, true, none, some, List, [], ◌∷◌,
  arith, none-ne-some, get_elem?, Option-cases, Bool-cases, to_ℕ, count, All, leb, leb→le,
  if◌then◌else◌,
}
use mathlib.Core.Option.{some-injective}
use browser_headless.Pool.State.{Instance, choose}
use browser_headless.Pool.Token.{serving}

pub choose-none : (n : ℕ) (xs : List Instance) → count serving xs ≡ 0 → choose n xs ≡ none
unfolding choose
choose-none n [] h = refl
choose-none n (x ∷ xs) h = ground (arith, choose-none (suc n) xs)

choose-some : (n : ℕ) (xs : List Instance) → choose n xs ≡ none → count serving xs ≡ 0
unfolding choose
choose-some n [] h = refl
choose-some n (x ∷ xs) h = ground (arith, choose-some (suc n) xs)

-- What the choice from index `n` on promises.
abbrev pub IsBest : ℕ → List Instance → ℕ → ℕ → Type 0
IsBest n xs i free =
    (j : ℕ) × (x : Instance) × (i ≡ n + j)
    × (get_elem? xs j ≡ some x)
    × (serving x ≡ true)
    × (free ≡ x.permits)
    × All (λ y. serving y ≡ true → y.permits ≤ free) xs

All-loosen :
    (free free' : ℕ) (xs : List Instance)
    → free ≤ free'
    → All (λ y. serving y ≡ true → y.permits ≤ free) xs
    → All (λ y. serving y ≡ true → y.permits ≤ free') xs
All-loosen free free' [] h a = tt
All-loosen free free' (x ∷ xs) h a = (λ e. omega (arith, a.0 e), All-loosen free free' xs h a.1)

All-idle :
    (free : ℕ) (xs : List Instance)
    → count serving xs ≡ 0
    → All (λ y. serving y ≡ true → y.permits ≤ free) xs
All-idle free [] h = tt
All-idle free (x ∷ xs) h = (λ e. absurd (omega (arith, ap to_ℕ e)), All-idle free xs (omega arith))

choose-cons_some :
    (n i free : ℕ) (x : Instance) (xs : List Instance)
    → choose (suc n) xs ≡ some (i, free)
    → choose n (x ∷ xs) ≡ (
        if serving x
        then (if leb x.permits free then some (i, free) else some (n, x.permits))
        else some (i, free))
unfolding choose
choose-cons_some n i free x xs e = rw (choose, e) refl

choose-cons_none :
    (n : ℕ) (x : Instance) (xs : List Instance)
    → choose (suc n) xs ≡ none
    → choose n (x ∷ xs) ≡ (if serving x then some (n, x.permits) else none)
unfolding choose
choose-cons_none n x xs e = rw (choose, e) refl

-- The head of the list is chosen.
IsBest-here :
    (n : ℕ) (x : Instance) (xs : List Instance) (i free : ℕ)
    → ◌≡◌ {A = ℕ × ℕ} (n, x.permits) (i, free)
    → serving x ≡ true
    → All (λ y. serving y ≡ true → y.permits ≤ x.permits) xs
    → IsBest n (x ∷ xs) i free
IsBest-here n x xs i free same a rest =
    subst (λ t. IsBest n (x ∷ xs) t.0 t.1) same
      (0, x, omega arith, refl, a, refl, ((λ e. omega arith), rest))

-- The choice stands in the tail.
IsBest-there :
    (n : ℕ) (x : Instance) (xs : List Instance) (i free : ℕ)
    → (serving x ≡ true → x.permits ≤ free)
    → IsBest (suc n) xs i free
    → IsBest n (x ∷ xs) i free
IsBest-there n x xs i free le (j, y, at, found, a, f, rest) =
    (suc j, y, omega (arith, at), found, a, f, (le, rest))

-- The instance that is chosen is active and has, among the active ones, the most free permits.
pub IsBest-choose :
    (n : ℕ) (xs : List Instance) (i free : ℕ) → choose n xs ≡ some (i, free) → IsBest n xs i free
unfolding choose
IsBest-choose n [] i free h = absurd (none-ne-some h)
IsBest-choose n (x ∷ xs) i free h = elim (Option-cases (choose (suc n) xs)) [
  | inl e ↦ elim (Bool-cases (serving x)) [
    | inl a ↦
        IsBest-here n x xs i free
          (some-injective (n, x.permits) (i, free)
            (sym (choose-cons_none n x xs e ∙ rw a refl) ∙ h))
          a (All-idle x.permits xs (choose-some (suc n) xs e))
    | inr a ↦ absurd (none-ne-some (sym (choose-cons_none n x xs e ∙ rw a refl) ∙ h))
  ]
  | inr ((j, f), e) ↦ elim (Bool-cases (serving x)) [
    | inr a ↦
        subst (λ t. IsBest n (x ∷ xs) t.0 t.1)
          (some-injective (j, f) (i, free) (sym (choose-cons_some n j f x xs e ∙ rw a refl) ∙ h))
          (IsBest-there n x xs j f (λ b. absurd (omega (arith, ap to_ℕ a, ap to_ℕ b)))
            (IsBest-choose (suc n) xs j f e))
    | inl a ↦ elim (Bool-cases (leb x.permits f)) [
      | inl l ↦
          subst (λ t. IsBest n (x ∷ xs) t.0 t.1)
            (some-injective (j, f) (i, free)
              (sym (choose-cons_some n j f x xs e ∙ rw (a, l) refl) ∙ h))
            (IsBest-there n x xs j f (λ b. leb→le x.permits f l) (IsBest-choose (suc n) xs j f e))
      | inr l ↦
          let (k, y, at, found, b, u, rest) = IsBest-choose (suc n) xs j f e in
          IsBest-here n x xs i free
            (some-injective (n, x.permits) (i, free)
              (sym (choose-cons_some n j f x xs e ∙ rw (a, l) refl) ∙ h))
            a (All-loosen f x.permits xs (ground (arith, l)) rest)
    ]
  ]
]

-- A checkout is refused at its choice exactly when no instance is active; the instance that it chooses
-- otherwise is an active one with the most free permits of the active ones.
pub choose-cases :
    (xs : List Instance)
    → ((choose 0 xs ≡ none) ↔ (count serving xs ≡ 0))
      × ((i free : ℕ) → choose 0 xs ≡ some (i, free) → IsBest 0 xs i free)
choose-cases xs = ((choose-some 0 xs, choose-none 0 xs), IsBest-choose 0 xs)
