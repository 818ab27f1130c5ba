-- ===== src/Browser/Security/Csp.antt =====
-- src/browser/security.rs: what the merged directives of a Content-Security-Policy say of its text.
pub mod Reading
use browser_headless.Base.{
  ◌≡◌, refl, sym, ap, ◌∙◌, inl, inr, ◌⊎◌, arith, Bool, true, false, not, ◌&&◌, ◌||◌, Option, none,
  some, List, [], ◌∷◌, ◌++◌, Text, codes, text_eq, eq_ignore_ascii_case, split, if◌then◌else◌,
  is_empty, is_some, unwrap_or, any, any-append, Bool-cases,
}
use browser_headless.Base.Dicts.{Dict, lookup, insert, lookup-insert}
use browser_headless.Browser.Security.{
  CspAnalysis, directive, sort, insert_sorted, extend, add_directive, add_directives, any_source,
  wildcards, contains_key, push_when, csp_analysis, parse_csp,
}

-- The sources of a piece of the text, and whether its directive has a name.
abbrev pub sources_of : Text → List Text
sources_of raw = elim (directive raw) [ none ↦ [] | some (name, sources) ↦ sources ]

abbrev pub is_named : Text → Text → Bool
is_named name raw = elim (directive raw) [
  | none ↦ false
  | some (given, sources) ↦ text_eq given name
]

or_swap : (a b c : Bool) → ((a || c) || b) ≡ ((a || b) || c)
or_swap true b c = refl
or_swap false true true = refl
or_swap false true false = refl
or_swap false false c = ground arith

or_false : (a : Bool) → a ≡ (a || false)
or_false true = refl
or_false false = refl

or_assoc : (a b c : Bool) → ((a || b) || c) ≡ (a || (b || c))
or_assoc true b c = refl
or_assoc false b c = refl

lookup-other :
    (name j : Text) (w : List Text) (m : Dict (List Text))
    → text_eq j name ≡ false
    → lookup name ((j, w) ∷ m) ≡ lookup name m
unfolding lookup
lookup-other name j w m e = rw (e) refl

extend-other :
    (name j : Text) (w sources : List Text) (m : Dict (List Text))
    → text_eq j name ≡ false
    → extend name sources ((j, w) ∷ m) ≡ (j, w) ∷ extend name sources m
unfolding extend insert
extend-other name j w sources m e =
    rw (e)
      (ap (λ o. (j, w) ∷ insert name (unwrap_or o [] ++ sources) m) (lookup-other name j w m e))

is_some-if :
    {V : Type 0} (b : Bool) (v : V) (o : Option V)
    → is_some (if b then some v else o) ≡ (is_some o || b)
is_some-if true v none = refl
is_some-if true v (some x) = refl
is_some-if false v none = refl
is_some-if false v (some x) = refl

any_source-insert :
    (p : Text → Bool) (name : Text) (sources : List Text) (m : Dict (List Text))
    → any_source p (extend name sources m) ≡ (any_source p m || any p sources)
unfolding any_source extend insert lookup
any_source-insert p name sources [] = ground arith
any_source-insert p name sources ((j, w) ∷ m) = elim (Bool-cases (text_eq j name)) [
  | inl e ↦ rw (e, any-append p w sources) (or_swap (any p w) (any_source p m) (any p sources))
  | inr e ↦
      ap (any_source p) (extend-other name j w sources m e)
      ∙ ap (λ b. any p w || b) (any_source-insert p name sources m)
      ∙ sym (or_assoc (any p w) (any_source p m) (any p sources))
]

extend-contains_key :
    (name given : Text) (sources : List Text) (m : Dict (List Text))
    → contains_key name (extend given sources m) ≡ (contains_key name m || text_eq given name)
unfolding extend contains_key
extend-contains_key name given sources m =
    rw (lookup-insert given name _ m) (is_some-if (text_eq given name) _ (lookup name m))

-- What a piece adds, by its directive.
any_source-step :
    (p : Text → Bool) (found : Option (Text × List Text)) (m : Dict (List Text))
    → any_source p (elim found as (λ _. Dict (List Text)) [
      | none ↦ m
      | some (name, sources) ↦ extend name sources m
    ])
      ≡ (any_source p m
          || any p (elim found as (λ _. List Text) [ none ↦ [] | some (name, sources) ↦ sources ]))
any_source-step p none m = or_false (any_source p m)
any_source-step p (some (name, sources)) m = any_source-insert p name sources m

contains_key-step :
    (name : Text) (found : Option (Text × List Text)) (m : Dict (List Text))
    → contains_key name (elim found as (λ _. Dict (List Text)) [
      | none ↦ m
      | some (given, sources) ↦ extend given sources m
    ])
      ≡ (contains_key name m || (elim found as (λ _. Bool) [
        | none ↦ false
        | some (given, sources) ↦ text_eq given name
      ]))
contains_key-step name none m = or_false (contains_key name m)
contains_key-step name (some (given, sources)) m = extend-contains_key name given sources m

add_directives-any_source :
    (p : Text → Bool) (pieces : List Text) (m : Dict (List Text))
    → any_source p (add_directives pieces m)
      ≡ (any_source p m || any (λ raw. any p (sources_of raw)) pieces)
unfolding add_directives add_directive
add_directives-any_source p [] m = or_false (any_source p m)
add_directives-any_source p (raw ∷ pieces) m =
    add_directives-any_source p pieces (add_directive raw m)
    ∙ ap (λ b. b || any (λ raw. any p (sources_of raw)) pieces)
        (any_source-step p (directive raw) m)
    ∙ or_assoc (any_source p m) (any p (sources_of raw))
        (any (λ raw. any p (sources_of raw)) pieces)

add_directives-contains_key :
    (name : Text) (pieces : List Text) (m : Dict (List Text))
    → contains_key name (add_directives pieces m)
      ≡ (contains_key name m || any (is_named name) pieces)
unfolding add_directives add_directive
add_directives-contains_key name [] m = or_false (contains_key name m)
add_directives-contains_key name (raw ∷ pieces) m =
    add_directives-contains_key name pieces (add_directive raw m)
    ∙ ap (λ b. b || any (is_named name) pieces) (contains_key-step name (directive raw) m)
    ∙ or_assoc (contains_key name m) (is_named name raw) (any (is_named name) pieces)

is_empty-insert :
    (name : Text) (v : List Text) (m : Dict (List Text)) → is_empty (insert name v m) ≡ false
unfolding insert
is_empty-insert name v [] = refl
is_empty-insert name v ((j, w) ∷ m) = ground arith

is_empty-step :
    (found : Option (Text × List Text)) (m : Dict (List Text))
    → is_empty (elim found as (λ _. Dict (List Text)) [
      | none ↦ m
      | some (name, sources) ↦ extend name sources m
    ])
      ≡ (is_empty m && not (is_some found))
unfolding extend
is_empty-step none [] = refl
is_empty-step none (x ∷ m) = refl
is_empty-step (some (name, sources)) [] = is_empty-insert name _ []
is_empty-step (some (name, sources)) (x ∷ m) = is_empty-insert name _ (x ∷ m)

and_not : (a b c : Bool) → ((a && not b) && not c) ≡ (a && not (b || c))
and_not true true c = refl
and_not true false c = refl
and_not false b c = refl

and_true : (a : Bool) → a ≡ (a && not false)
and_true true = refl
and_true false = refl

add_directives-is_empty :
    (pieces : List Text) (m : Dict (List Text))
    → is_empty (add_directives pieces m)
      ≡ (is_empty m && not (any (λ raw. is_some (directive raw)) pieces))
unfolding add_directives add_directive
add_directives-is_empty [] m = and_true (is_empty m)
add_directives-is_empty (raw ∷ pieces) m =
    add_directives-is_empty pieces (add_directive raw m)
    ∙ ap (λ b. b && not (any (λ raw. is_some (directive raw)) pieces))
        (is_empty-step (directive raw) m)
    ∙ and_not (is_empty m) (is_some (directive raw)) (any (λ raw. is_some (directive raw)) pieces)
