-- ===== src/Browser/Session/Guarded.antt =====
-- What stands before the navigation of a capture of src/browser/mod.rs.
use browser_headless.Base.{
  ◌≡◌, ◌⊎◌, refl, ap, ◌∙◌, inl, inr, arith, Bool, true, false, ◌||◌, List, [], ◌∷◌, ◌++◌, map, Text,
  if◌then◌else◌, any, any-append, All, get_elem?, ℕ, suc, subst, Result, ok, some, Result-cases,
}
use browser_headless.Error.{BrowserError}
use browser_headless.Capture.Request.{SummaryRequest}
use browser_headless.Browser.Intercept.{ResourceType, blocked_types, patterns}
use browser_headless.Browser.Collect.Finish.{WebPageStat}
use browser_headless.Browser.Session.Commands.{
  Setting, interception, settings, earlier_settings, later_settings, apply_request_interception,
  Command, create_context, new_page, apply, goto, Ran, after, ◌>>=◌,
}
use browser_headless.Browser.Session.Format.{Site, collect_summary}
use browser_headless.Browser.Session.Capture.{apply_all, on_page, capture}

abbrev pub is_goto : {F : Type 0} → Command F → Bool
is_goto (goto url) = true
is_goto _ = false

-- The commands before the first navigation.
unfoldable pub until_goto : {F : Type 0} → List (Command F) → List (Command F)
until_goto [] = []
until_goto (c ∷ log) = let rest = c ∷ until_goto log in if is_goto c then [] else rest

-- Nothing navigates, or these commands stand first, and more is known.
abbrev Prepared : {F : Type 0} → Type 0 → List (Command F) → List (Command F) → Type 0
Prepared known first log = (any is_goto log ≡ false) ⊎ ((until_goto log ≡ first) × known)

Prepared-cons :
    {F : Type 0} (known : Type 0) (c : Command F) (first log : List (Command F))
    → is_goto c ≡ false
    → Prepared known first log
    → Prepared known (c ∷ first) (c ∷ log)
unfolding until_goto
Prepared-cons known c first log h (inl e) = inl (ground arith)
Prepared-cons known c first log h (inr (e, k)) = inr (rw h (ap (◌∷◌ c) e), k)

Prepared-map :
    {F : Type 0} (known more : Type 0) (first log : List (Command F))
    → (known → more)
    → Prepared known first log
    → Prepared more first log
Prepared-map known more first log f (inl e) = inl e
Prepared-map known more first log f (inr (e, k)) = inr (e, f k)

module _ {F Doc : Type 0} (site : Site F Doc) where
  no_goto : (ss : List (Setting F)) → any is_goto (apply_all site ss).0 ≡ false
  unfolding apply_all
  no_goto [] = refl
  no_goto (s ∷ ss) = no_goto ss

  no_goto-append : (ss : List (Setting F)) → any is_goto ((apply_all site ss).0 ++ []) ≡ false
  no_goto-append ss =
      any-append is_goto (apply_all site ss).0 [] ∙ ap (λ b. b || false) (no_goto ss)

  -- The browser took every one of the overrides.
  abbrev AllTaken : List (Setting F) → Type 0
  AllTaken ss = All (λ s. site.apply s ≡ ok tt) ss

  -- After the overrides the rest of the log follows only if all were taken.
  apply_all-Prepared :
      (ss : List (Setting F)) (first : List (Command F)) {A : Type 0} (f : Unit {0} → Ran F A)
      → Prepared (Unit {0}) first (f tt).0
      → Prepared (AllTaken ss) (map apply ss ++ first) (apply_all site ss >>= f).0
  unfolding apply_all ◌>>=◌ after
  apply_all-Prepared [] first f h = h
  apply_all-Prepared (s ∷ ss) first f h = elim (Result-cases (site.apply s)) [
    | inl (u, e) ↦ rw e (
        Prepared-map (AllTaken ss)
          (◌≡◌ {A = Result (Unit {0}) BrowserError} (ok u) (ok tt) × AllTaken ss) _ _
          (λ k. (refl, k))
          (Prepared-cons (AllTaken ss) (apply s) _ _ refl (apply_all-Prepared ss first f h)))
    | inr (x, e) ↦ rw e (inl (no_goto-append ss))
  ]

  collect-Prepared :
      {A : Type 0} (req : SummaryRequest F) (f : WebPageStat Doc → Ran F A)
      → Prepared (Unit {0}) [] (collect_summary site req >>= f).0
  unfolding collect_summary ◌>>=◌ after until_goto
  collect-Prepared req f = elim (Result-cases site.enable) [
    | inl (u, e) ↦ rw e (inr (refl, tt))
    | inr (x, e) ↦ rw e (inl refl)
  ]

  module _ (default_scale : F) (above_one : F → Bool) (default_user_agent : Text) where
    on_page-Prepared :
        (req : SummaryRequest F) (ctx : Text)
        → Prepared
            (AllTaken (settings default_scale above_one default_user_agent req))
            (map apply (settings default_scale above_one default_user_agent req) ++ [])
            (on_page site default_scale above_one default_user_agent req ctx).0
    unfolding on_page
    on_page-Prepared req ctx =
        apply_all-Prepared (settings default_scale above_one default_user_agent req) [] _
          (collect-Prepared req _)

    capture-Prepared :
        (req : SummaryRequest F)
        → Prepared
            (AllTaken (settings default_scale above_one default_user_agent req))
            (create_context
              ∷ new_page
              ∷ (map apply (settings default_scale above_one default_user_agent req) ++ []))
            (capture site default_scale above_one default_user_agent req).0
    unfolding capture ◌>>=◌ after
    capture-Prepared req = elim (Result-cases site.create_context) [
      | inr (x, e) ↦ rw e (inl refl)
      | inl (ctx, e) ↦ elim (Result-cases site.new_page) [
        | inr (x, f) ↦ rw (e, f) (inl refl)
        | inl (u, f) ↦
            rw (e, f)
              (Prepared-cons _ create_context _ _ refl
                (Prepared-cons _ new_page _ _ refl (on_page-Prepared req ctx)))
      ]
    ]

guard-patterns :
    (types : List ResourceType)
    → (some_types : List ResourceType) × (patterns types true ≡ some some_types)
unfolding patterns
guard-patterns [] = (_, refl)
guard-patterns (t ∷ types) = (_, refl)

module _ {F : Type 0} where
  sent_at :
      (x : Setting F) (xs ys : List (Setting F))
      → (i : ℕ) × (get_elem? (map apply (xs ++ (x ∷ ys)) ++ []) i ≡ some (apply x))
  sent_at x [] ys = (0, refl)
  sent_at x (y ∷ xs) ys = let (i, e) = sent_at x xs ys in (suc i, e)

  All-middle :
      (P : Setting F → Type 0) (x : Setting F) (xs ys : List (Setting F))
      → All P (xs ++ (x ∷ ys))
      → P x
  All-middle P x [] ys h = h.0
  All-middle P x (y ∷ xs) ys h = All-middle P x xs ys h.1

  settings-split :
      (default_scale : F) (above_one : F → Bool) (default_user_agent : Text)
      (req : SummaryRequest F) (types : List ResourceType)
      → patterns (blocked_types req.block_resource_types) req.ssrf_guard ≡ some types
      → settings default_scale above_one default_user_agent req
        ≡ earlier_settings default_scale above_one default_user_agent req
          ++ (interception types ∷ later_settings default_scale above_one default_user_agent req)
  unfolding settings apply_request_interception
  settings-split default_scale above_one default_user_agent req types e = rw e refl

  -- The interception of these types was sent before the first navigation, and the browser took it.
  abbrev pub TookInterception :
      {Doc : Type 0} → Site F Doc → List (Command F) → List ResourceType → Type 0
  TookInterception site log types =
      (site.apply (interception types) ≡ ok tt)
      × ((i : ℕ) × (get_elem? (until_goto log) i ≡ some (apply (interception types))))

  settings-Took :
      {Doc : Type 0} (site : Site F Doc) (ss xs ys : List (Setting F)) (types : List ResourceType)
      (log : List (Command F))
      → ss ≡ xs ++ (interception types ∷ ys)
      → until_goto log ≡ create_context ∷ new_page ∷ (map apply ss ++ [])
      → All (λ s. site.apply s ≡ ok tt) ss
      → TookInterception site log types
  settings-Took site ss xs ys types log split first taken =
      let (i, e) = sent_at (interception types) xs ys in
      (
        All-middle (λ s. site.apply s ≡ ok tt) (interception types) xs ys
            (subst (All (λ s. site.apply s ≡ ok tt)) split taken),
        (suc (suc i), rw (first, split) e),
      )

-- With the SSRF guard on, a capture either never navigates, or, before the first navigation, has sent the
-- interception of the requests that the guard is to see, and the browser has taken it.
pub capture-intercepts :
    {F Doc : Type 0} (site : Site F Doc) (default_scale : F) (above_one : F → Bool)
    (default_user_agent : Text) (req : SummaryRequest F)
    → req.ssrf_guard ≡ true
    → (any is_goto (capture site default_scale above_one default_user_agent req).0 ≡ false)
      ⊎ ((types : List ResourceType) × (patterns (blocked_types req.block_resource_types) true
            ≡ some types)
          × TookInterception site
              (capture site default_scale above_one default_user_agent req).0
              types)
capture-intercepts site default_scale above_one default_user_agent req on =
    elim (capture-Prepared site default_scale above_one default_user_agent req) [
      | inl still ↦ inl still
      | inr (first, taken) ↦
          let (types, e) = guard-patterns (blocked_types req.block_resource_types) in
          inr (
            types,
            e,
            settings-Took site (settings default_scale above_one default_user_agent req)
                (earlier_settings default_scale above_one default_user_agent req)
                (later_settings default_scale above_one default_user_agent req) types _
                (settings-split default_scale above_one default_user_agent req types
                  (ap (patterns (blocked_types req.block_resource_types)) on ∙ e))
                first taken,
          )
    ]
