-- ===== src/Browser/Security/Cors.antt =====
-- src/browser/security.rs: which resources the CORS findings report.
pub mod Report
use browser_headless.Base.{
  ◌≤◌, ◌<◌, ◌≡◌, refl, sym, ap, ◌∙◌, inl, inr, ◌⊎◌, arith, Bool, true, false, ◌&&◌, ◌||◌, none,
  some, List, [], ◌∷◌, ◌++◌, Text, text_eq, text_eq_refl, text_eq_sym, is_some, any, any-append,
  length, length-append, leb, leb→le, All, Bool-cases, Option-cases, none-ne-some,
}
use mathlib.Core.Option.{some-injective}
use browser_headless.Browser.Resource.{WebPageResource}
use browser_headless.Browser.Security.{
  CorsIssue, open_origin, new_issue, cors_loop, build_cors_issues,
}

-- Whether a URL is among those of the issues.
abbrev pub reported : Text → List CorsIssue → Bool
reported url issues = any (λ i. text_eq url i.url) issues

-- No URL is reported twice, counting from the end of the list.
abbrev pub Distinct : List CorsIssue → Type 0
Distinct [] = Unit
Distinct (i ∷ issues) = (reported i.url issues ≡ false) × Distinct issues

-- The issue is one of an open resource of the list.
abbrev pub IsFrom : List WebPageResource → CorsIssue → Type 0
IsFrom resources i = any (λ r. text_eq r.url i.url && is_some (open_origin r)) resources ≡ true

new_issue-none :
    (seen : List Text) (r : WebPageResource)
    → new_issue seen r ≡ none
    → (is_some (open_origin r) ≡ false) ⊎ (any (text_eq r.url) seen ≡ true)
unfolding new_issue
new_issue-none seen r e = elim (Option-cases (open_origin r)) [
  | inl h ↦ inl (ap is_some h)
  | inr (origin, h) ↦ elim (Bool-cases (any (text_eq r.url) seen)) [
    | inl s ↦ inr s
    | inr s ↦ absurd (none-ne-some (sym (rw (new_issue, h, s) at e)))
  ]
]

new_issue-some :
    (seen : List Text) (r : WebPageResource) (i : CorsIssue)
    → new_issue seen r ≡ some i
    → (i.url ≡ r.url) × (is_some (open_origin r) ≡ true) × (any (text_eq r.url) seen ≡ false)
unfolding new_issue
new_issue-some seen r i e = elim (Option-cases (open_origin r)) [
  | inl h ↦ absurd (none-ne-some (rw (new_issue, h) at e))
  | inr (origin, h) ↦ elim (Bool-cases (any (text_eq r.url) seen)) [
    | inl s ↦ absurd (none-ne-some (rw (new_issue, h, s) at e))
    | inr s ↦
        (sym (ap (λ x. x.url) (some-injective _ i (rw (new_issue, h, s) at e))), ap is_some h, s)
  ]
]

-- The rounds of the loop, from the resources left, the URLs seen and the issues so far to the result.
data Loop : List WebPageResource → List Text → List CorsIssue → List CorsIssue → Type 0 where
  finished : (seen : List Text) (out : List CorsIssue) → Loop [] seen out out
  skipped :
      (r : WebPageResource) (rs : List WebPageResource) (seen : List Text)
      (out res : List CorsIssue)
      → new_issue seen r ≡ none
      → Loop rs seen out res
      → Loop (r ∷ rs) seen out res
  stopped :
      (r : WebPageResource) (rs : List WebPageResource) (seen : List Text) (out : List CorsIssue)
      (i : CorsIssue)
      → new_issue seen r ≡ some i
      → 20 ≤ length (out ++ (i ∷ []))
      → Loop (r ∷ rs) seen out (out ++ (i ∷ []))
  pushed :
      (r : WebPageResource) (rs : List WebPageResource) (seen : List Text)
      (out res : List CorsIssue) (i : CorsIssue)
      → new_issue seen r ≡ some i
      → length (out ++ (i ∷ [])) < 20
      → Loop rs (r.url ∷ seen) (out ++ (i ∷ [])) res
      → Loop (r ∷ rs) seen out res

cors_loop-Loop :
    (rs : List WebPageResource) (seen : List Text) (out : List CorsIssue)
    → Loop rs seen out (cors_loop rs seen out)
unfolding cors_loop
cors_loop-Loop [] seen out = finished seen out
cors_loop-Loop (r ∷ rs) seen out = elim (Option-cases (new_issue seen r)) [
  | inl e ↦ rw (e, cors_loop) (skipped r rs seen out _ e (cors_loop-Loop rs seen out))
  | inr (i, e) ↦ elim (Bool-cases (leb 20 (length (out ++ (i ∷ []))))) [
    | inl full ↦ rw (e, full, cors_loop) (stopped r rs seen out i e (leb→le _ _ full))
    | inr more ↦
        rw (e, more, cors_loop)
          (pushed r rs seen out _ i e (ground arith)
            (cors_loop-Loop rs (r.url ∷ seen) (out ++ (i ∷ []))))
  ]
]

Loop-length :
    (rs : List WebPageResource) (seen : List Text) (out res : List CorsIssue)
    → Loop rs seen out res
    → length out < 20
    → length res ≤ 20
Loop-length _ _ _ _ (finished seen out) h = omega (arith, h)
Loop-length _ _ _ _ (skipped r rs seen out res e l) h = Loop-length rs seen out res l h
Loop-length _ _ _ _ (stopped r rs seen out i e full) h =
    omega (arith, h, length-append out (i ∷ []))
Loop-length _ _ _ _ (pushed r rs seen out res i e more l) h = Loop-length rs _ _ res l more

-- The URLs seen are those reported.
abbrev Same : List Text → List CorsIssue → Type 0
Same seen out = (url : Text) → any (text_eq url) seen ≡ reported url out

reported-snoc :
    (url : Text) (out : List CorsIssue) (i : CorsIssue)
    → reported url (out ++ (i ∷ [])) ≡ (text_eq url i.url || reported url out)
reported-snoc url out i =
    any-append (λ j. text_eq url j.url) out (i ∷ [])
    ∙ swapped (reported url out) (text_eq url i.url)
  where
    swapped : (a b : Bool) → (a || (b || false)) ≡ (b || a)
    swapped true true = refl
    swapped true false = refl
    swapped false true = refl
    swapped false false = refl

Same-push :
    (seen : List Text) (out : List CorsIssue) (i : CorsIssue) (r : WebPageResource)
    → i.url ≡ r.url
    → Same seen out
    → Same (r.url ∷ seen) (out ++ (i ∷ []))
Same-push seen out i r e s url =
    ap (λ b. text_eq url r.url || b) (s url)
    ∙ sym (ap (λ u. text_eq url u || reported url out) e)
    ∙ sym (reported-snoc url out i)

or-false : (a b : Bool) → (a || b) ≡ false → (a ≡ false) × (b ≡ false)
or-false true b h = cc
or-false false b h = (refl, h)

Distinct-snoc :
    (out : List CorsIssue) (i : CorsIssue)
    → reported i.url out ≡ false
    → Distinct out
    → Distinct (out ++ (i ∷ []))
Distinct-snoc [] i h d = (refl, tt)
Distinct-snoc (j ∷ out) i h d =
    let (ne, h') = or-false (text_eq i.url j.url) (reported i.url out) h in
    (
      reported-snoc j.url out i
          ∙ ap (λ b. b || reported j.url out) (text_eq_sym i.url j.url ne)
          ∙ d.0,
      Distinct-snoc out i h' d.1,
    )

Loop-Distinct :
    (rs : List WebPageResource) (seen : List Text) (out res : List CorsIssue)
    → Loop rs seen out res
    → Same seen out
    → Distinct out
    → Distinct res
Loop-Distinct _ _ _ _ (finished seen out) s d = d
Loop-Distinct _ _ _ _ (skipped r rs seen out res e l) s d = Loop-Distinct rs seen out res l s d
Loop-Distinct _ _ _ _ (stopped r rs seen out i e full) s d =
    let (same, _, fresh) = new_issue-some seen r i e in
    Distinct-snoc out i (ap (λ u. reported u out) same ∙ sym (s r.url) ∙ fresh) d
Loop-Distinct _ _ _ _ (pushed r rs seen out res i e more l) s d =
    let (same, _, fresh) = new_issue-some seen r i e in
    Loop-Distinct rs _ _ res l (Same-push seen out i r same s)
      (Distinct-snoc out i (ap (λ u. reported u out) same ∙ sym (s r.url) ∙ fresh) d)

-- What is reported stays so.
Loop-reported :
    (rs : List WebPageResource) (seen : List Text) (out res : List CorsIssue) (url : Text)
    → Loop rs seen out res
    → reported url out ≡ true
    → reported url res ≡ true
Loop-reported _ _ _ _ url (finished seen out) h = h
Loop-reported _ _ _ _ url (skipped r rs seen out res e l) h = Loop-reported rs seen out res url l h
Loop-reported _ _ _ _ url (stopped r rs seen out i e full) h =
    reported-snoc url out i ∙ ground (arith, h)
Loop-reported _ _ _ _ url (pushed r rs seen out res i e more l) h =
    Loop-reported rs _ _ res url l (reported-snoc url out i ∙ ground (arith, h))
