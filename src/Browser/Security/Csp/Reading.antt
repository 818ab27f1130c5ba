-- ===== src/Browser/Security/Csp/Reading.antt =====
-- src/browser/security.rs: the analysis of a Content-Security-Policy, read off its text.
use browser_headless.Base.{
  ◌≡◌, refl, ap, ◌∙◌, inl, inr, ◌⊎◌, arith, Bool, true, false, not, ◌&&◌, none, some, List, [], ◌∷◌,
  Text, codes, text_eq, eq_ignore_ascii_case, split, is_empty, is_some, any, Bool-cases,
}
use browser_headless.Base.Dicts.{Dict, lookup}
use browser_headless.Browser.Security.{
  CspAnalysis, directive, sort, insert_sorted, add_directives, any_source, wildcards, contains_key,
  push_when, csp_analysis, parse_csp,
}
use browser_headless.Browser.Security.Csp.{
  sources_of, is_named, add_directives-any_source, add_directives-contains_key,
  add_directives-is_empty,
}

is_empty-sort : (xs : List Text) → is_empty (sort xs) ≡ is_empty xs
unfolding sort insert_sorted
is_empty-sort [] = refl
is_empty-sort (x ∷ xs) = inserted x (sort xs)
  where
    inserted : (y : Text) (ys : List Text) → is_empty (insert_sorted y ys) ≡ false
    inserted y [] = refl
    inserted y (z ∷ ys) = ground arith

abbrev pub is_star : Text → Bool
is_star s = text_eq s (codes "*")

is_empty-wildcards : (m : Dict (List Text)) → is_empty (wildcards m) ≡ not (any_source is_star m)
unfolding wildcards any_source
is_empty-wildcards [] = refl
is_empty-wildcards ((name, sources) ∷ m) = elim (Bool-cases (any is_star sources)) [
  | inl e ↦ rw (e) refl
  | inr e ↦ rw (e) (is_empty-wildcards m)
]

is_empty-push_when :
    (b : Bool) (code : Text) (w : List Text) → is_empty (push_when b code w) ≡ (not b && is_empty w)
unfolding push_when
is_empty-push_when true code [] = refl
is_empty-push_when true code (x ∷ w) = refl
is_empty-push_when false code w = refl

-- The six codes pushed in turn: none of them, if no flag is set.
push_when-all :
    (a b c d e f : Bool) (u v w x y z : Text)
    → is_empty (
        push_when a u
          (push_when b v (push_when c w (push_when d x (push_when e y (push_when f z []))))))
      ≡ (not a && (not b && (not c && (not d && (not e && (not f && true))))))
push_when-all a b c d e f u v w x y z =
    is_empty-push_when a u _
    ∙ ap (λ r. not a && r)
        (is_empty-push_when b v _
          ∙ ap (λ r. not b && r)
              (is_empty-push_when c w _
                ∙ ap (λ r. not c && r)
                    (is_empty-push_when d x _
                      ∙ ap (λ r. not d && r)
                          (is_empty-push_when e y _
                            ∙ ap (λ r. not e && r) (is_empty-push_when f z [])))))

-- Whether some piece of the policy has a source that passes the test, and whether some piece is the directive.
abbrev pub declares_source : (Text → Bool) → Text → Bool
declares_source p value = any (λ raw. any p (sources_of raw)) (split b';' value)

abbrev pub declares : Text → Text → Bool
declares name value = any (is_named name) (split b';' value)

abbrev pub is_inline : Text → Bool
is_inline s = eq_ignore_ascii_case s (codes "'unsafe-inline'")

abbrev pub is_eval : Text → Bool
is_eval s = eq_ignore_ascii_case s (codes "'unsafe-eval'")

-- The analysis in terms of the policy's text.
abbrev pub Reads : Text → CspAnalysis → Type 0
Reads value a =
    (a.unsafe_inline ≡ declares_source is_inline value)
    × (a.unsafe_eval ≡ declares_source is_eval value)
    × (is_empty a.wildcard_directives ≡ not (declares_source is_star value))
    × (a.missing_object_src
        ≡ (not (declares (codes "object-src") value) && not (declares (codes "default-src") value)))
    × (a.missing_base_uri ≡ not (declares (codes "base-uri") value))
    × (a.missing_frame_ancestors ≡ not (declares (codes "frame-ancestors") value))
    × (is_empty a.weaknesses ≡ (
        not a.missing_frame_ancestors
        && (not a.missing_base_uri
            && (not a.missing_object_src
                && (not (not (is_empty a.wildcard_directives))
                    && (not a.unsafe_eval && (not a.unsafe_inline && true)))))))

csp_analysis-Reads :
    (value : Text) → Reads value (csp_analysis (add_directives (split b';' value) []))
unfolding csp_analysis any_source contains_key lookup
csp_analysis-Reads value =
    let pieces = split b';' value in
    let a = csp_analysis (add_directives pieces []) in
    let has = λ (name : Text). add_directives-contains_key name pieces [] in
    (
      add_directives-any_source is_inline pieces [],
      add_directives-any_source is_eval pieces [],
      is_empty-sort (wildcards (add_directives pieces []))
          ∙ is_empty-wildcards (add_directives pieces [])
          ∙ ap not (add_directives-any_source is_star pieces []),
      ap (λ b. not b && not (contains_key (codes "default-src") (add_directives pieces [])))
            (has (codes "object-src"))
          ∙ ap (λ b. not (declares (codes "object-src") value) && not b)
              (has (codes "default-src")),
      ap not (has (codes "base-uri")),
      ap not (has (codes "frame-ancestors")),
      push_when-all a.missing_frame_ancestors a.missing_base_uri a.missing_object_src
          (not (is_empty a.wildcard_directives)) a.unsafe_eval a.unsafe_inline
          (codes "missing-frame-ancestors") (codes "missing-base-uri") (codes "missing-object-src")
          (codes "wildcard-source") (codes "unsafe-eval") (codes "unsafe-inline"),
    )

-- A policy of which no piece between semicolons names a directive has no analysis. Any other has one. It finds
-- `unsafe-inline` and `unsafe-eval` exactly where some piece has them as a source, in any case, and a
-- wildcard where some piece has the source `*`; the missing directives are those that no piece names, in any case (with
-- `default-src` serving for `object-src`); and there are no weaknesses exactly where none of these six
-- is found.
pub parse_csp-Reads :
    (value : Text)
    → ((parse_csp value ≡ none) × (any (λ raw. is_some (directive raw)) (split b';' value) ≡ false))
      ⊎ ((a : CspAnalysis) × (parse_csp value ≡ some a)
          × (any (λ raw. is_some (directive raw)) (split b';' value) ≡ true)
          × Reads value a)
unfolding parse_csp
parse_csp-Reads value =
    let filled = add_directives-is_empty (split b';' value) [] in
    elim (Bool-cases (any (λ raw. is_some (directive raw)) (split b';' value))) [
      | inl e ↦
          let full = filled ∙ ap not e in
          inr (
            csp_analysis (add_directives (split b';' value) []),
            rw (full, parse_csp) refl,
            e,
            csp_analysis-Reads value,
          )
      | inr e ↦ let empty = filled ∙ ap not e in inl (rw (empty, parse_csp) refl, e)
    ]
