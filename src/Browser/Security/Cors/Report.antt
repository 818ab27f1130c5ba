-- ===== src/Browser/Security/Cors/Report.antt =====
-- src/browser/security.rs: the CORS report is sound and complete.
use browser_headless.Base.{
  ◌≤◌, ◌≡◌, refl, sym, ap, ◌∙◌, inl, inr, ◌⊎◌, arith, Bool, true, false, ◌&&◌, ◌||◌, List, [], ◌∷◌,
  ◌++◌, Text, text_eq, text_eq_refl, is_some, any, length, All,
}
use browser_headless.Browser.Resource.{WebPageResource}
use browser_headless.Browser.Security.{CorsIssue, open_origin, build_cors_issues}
use browser_headless.Browser.Security.Cors.{
  reported, Distinct, IsFrom, new_issue-none, new_issue-some, Loop, finished, skipped, stopped,
  pushed, cors_loop-Loop, Loop-length, Same, Same-push, reported-snoc, Loop-Distinct, Loop-reported,
}

-- Every open resource is reported, unless the report is full.
abbrev pub Complete : List WebPageResource → List CorsIssue → Type 0
Complete rs res =
    (20 ≤ length res)
    ⊎ All (λ r. (is_some (open_origin r) ≡ false) ⊎ (reported r.url res ≡ true)) rs

Complete-cons :
    (r : WebPageResource) (rs : List WebPageResource) (res : List CorsIssue)
    → (is_some (open_origin r) ≡ false) ⊎ (reported r.url res ≡ true)
    → Complete rs res
    → Complete (r ∷ rs) res
Complete-cons r rs res h (inl full) = inl full
Complete-cons r rs res h (inr every) = inr (h, every)

Loop-Complete :
    (rs : List WebPageResource) (seen : List Text) (out res : List CorsIssue)
    → Loop rs seen out res
    → Same seen out
    → Complete rs res
Loop-Complete _ _ _ _ (finished seen out) s = inr tt
Loop-Complete _ _ _ _ (skipped r rs seen out res e l) s =
    Complete-cons r rs res
      (elim (new_issue-none seen r e) [
        | inl closed ↦ inl closed
        | inr old ↦ inr (Loop-reported rs seen out res r.url l (sym (s r.url) ∙ old))
      ])
      (Loop-Complete rs seen out res l s)
Loop-Complete _ _ _ _ (stopped r rs seen out i e full) s = inl full
Loop-Complete _ _ _ _ (pushed r rs seen out res i e more l) s =
    let (same, _, _) = new_issue-some seen r i e in
    Complete-cons r rs res
      (inr (
        Loop-reported rs _ _ res r.url l (
          reported-snoc r.url out i
          ∙ ap (λ u. text_eq r.url u || reported r.url out) same
          ∙ ap (λ b. b || reported r.url out) (text_eq_refl r.url))))
      (Loop-Complete rs _ _ res l (Same-push seen out i r same s))

-- An issue with the URL of an open resource of the list is taken from it.
abbrev Known : List WebPageResource → WebPageResource → Type 0
Known whole r = (i : CorsIssue) → i.url ≡ r.url → is_some (open_origin r) ≡ true → IsFrom whole i

All-Known :
    (rs whole : List WebPageResource)
    → ((i : CorsIssue) → IsFrom rs i → IsFrom whole i)
    → All (Known whole) rs
All-Known [] whole h = tt
All-Known (r ∷ rs) whole h = (
  λ i same opened. h i (head_from r rs i same opened),
  All-Known rs whole (λ i from. h i (or_right _ _ from)),
)
  where
    or_right : (a b : Bool) → b ≡ true → (a || b) ≡ true
    or_right true b e = refl
    or_right false b e = e

    head_from :
        (r : WebPageResource) (rs : List WebPageResource) (i : CorsIssue)
        → i.url ≡ r.url
        → is_some (open_origin r) ≡ true
        → IsFrom (r ∷ rs) i
    head_from r rs i same opened =
        let others = any (λ x. text_eq x.url i.url && is_some (open_origin x)) rs in
        ap (λ b. (b && is_some (open_origin r)) || others)
          (ap (text_eq r.url) same ∙ text_eq_refl r.url)
        ∙ ap (λ b. b || others) opened

All-snoc :
    (P : CorsIssue → Type 0) (out : List CorsIssue) (i : CorsIssue)
    → All P out
    → P i
    → All P (out ++ (i ∷ []))
All-snoc P [] i h p = (p, tt)
All-snoc P (j ∷ out) i h p = (h.0, All-snoc P out i h.1 p)

Loop-IsFrom :
    (whole rs : List WebPageResource) (seen : List Text) (out res : List CorsIssue)
    → Loop rs seen out res
    → All (Known whole) rs
    → All (IsFrom whole) out
    → All (IsFrom whole) res
Loop-IsFrom whole _ _ _ _ (finished seen out) k h = h
Loop-IsFrom whole _ _ _ _ (skipped r rs seen out res e l) k h =
    Loop-IsFrom whole rs seen out res l k.1 h
Loop-IsFrom whole _ _ _ _ (stopped r rs seen out i e full) k h =
    let (same, opened, _) = new_issue-some seen r i e in
    All-snoc (IsFrom whole) out i h (k.0 i same opened)
Loop-IsFrom whole _ _ _ _ (pushed r rs seen out res i e more l) k h =
    let (same, opened, _) = new_issue-some seen r i e in
    Loop-IsFrom whole rs _ _ res l k.1 (All-snoc (IsFrom whole) out i h (k.0 i same opened))

-- The CORS findings are at most 20, for distinct URLs, each that of a resource that allows every origin (or `null`)
-- together with credentials; and unless there are 20, every such resource's URL is among them.
pub build_cors_issues-Complete :
    (resources : List WebPageResource)
    → let issues = build_cors_issues resources in
      (length issues ≤ 20)
      × Distinct issues
      × All (IsFrom resources) issues
      × Complete resources issues
unfolding build_cors_issues
build_cors_issues-Complete resources =
    let loop = cors_loop-Loop resources [] [] in
    (
      Loop-length resources [] [] _ loop (omega arith),
      Loop-Distinct resources [] [] _ loop (λ url. refl) tt,
      Loop-IsFrom resources resources [] [] _ loop (All-Known resources resources (λ i from. from))
          tt,
      Loop-Complete resources [] [] _ loop (λ url. refl),
    )
