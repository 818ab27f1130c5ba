-- ===== src/Capture/Safety.antt =====
-- What `capture_one` of src/capture.rs lets reach the pool and the browser.
use browser_headless.Base.{
  ℕ, zero, suc, ◌+◌, ◌≤◌, ◌<◌, ◌≡◌, refl, sym, subst, ◌∙◌, ◌⊎◌, inl, inr, Bool, true, false, ◌&&◌,
  ◌||◌, not, none, some, List, [], ◌∷◌, arith, Text, codes, text_eq, is_some, get_elem?, Result, ok,
  err, err, guarded_ok, ok-injective, Result-cases, Option-cases, if◌then◌else◌,
}
use browser_headless.Config.{Env, disable_script, deadline_buffer_ms, clamp_timeout_ms}
use browser_headless.Config.Knobs.{clamp_timeout_ms_pos}
use browser_headless.Error.{CaptureError, status_u16, kind_status}
use browser_headless.Ssrf.Guard.{IsReachable, check_url_iff}
use browser_headless.Capture.Query.{SummaryQuery, apply_profile, apply_clamps}
use browser_headless.Capture.Request.{SummaryRequest, build_request}
use browser_headless.Capture.Engine.{
  Effect, take_slot, browse, release_slot, Captured, timeout, World, validate_url, check_ssrf,
  admit, acquire_slot, with_slot, prepare, capture_one_unmetered,
}

module _ {F Url Stat : Type 0} (env : Env) (w : World F Url Stat) where
  abbrev pub IsHttp : Url → Type 0
  IsHttp url =
      (text_eq (w.net.scheme url) (codes "http") || text_eq (w.net.scheme url) (codes "https"))
      ≡ true

  validate_url-ok :
      (raw : Text) (url : Url)
      → validate_url env w raw ≡ ok url
      → (w.net.parse raw ≡ ok url) × IsHttp url
  unfolding validate_url
  validate_url-ok raw url e = (ground arith, ground arith)

  check_ssrf-ok : (url : Url) → check_ssrf env w url ≡ ok tt → IsReachable w.net url
  unfolding check_ssrf
  check_ssrf-ok url e = (check_url_iff w.net url).0 (ground arith)

  admit-ok :
      (q : SummaryQuery F) (allow : Bool)
      → admit env w q allow ≡ ok tt
      → (url : Url) × (validate_url env w q.url ≡ ok url)
        × ((if allow then ok tt else check_ssrf env w url) ≡ ok tt)
        × ((disable_script env && is_some q.script) ≡ false)
  unfolding admit
  admit-ok q allow e = guarded_ok _ _ (validate_url env w q.url) _ tt e

  -- The pool gives a slot, and in time: a wait of 0 is not bounded.
  abbrev pub GetsSlot : ℕ → Type 0
  GetsSlot wait = (w.checkout.answer ≡ true) × ((wait ≡ 0) ⊎ (w.checkout.after_ms ≤ wait))

  -- The pool refuses, or is too late.
  abbrev pub GetsNoSlot : ℕ → Type 0
  GetsNoSlot wait = (w.checkout.answer ≡ false) ⊎ ((0 < wait) × (wait < w.checkout.after_ms))

  acquire_slot-GetsSlot : (wait : ℕ) → acquire_slot env w wait ≡ some true → GetsSlot wait
  unfolding acquire_slot timeout
  acquire_slot-GetsSlot wait e = ground arith

  acquire_slot-refused : (wait : ℕ) → acquire_slot env w wait ≡ some false → GetsNoSlot wait
  unfolding acquire_slot timeout
  acquire_slot-refused wait e = ground arith

  acquire_slot-late : (wait : ℕ) → acquire_slot env w wait ≡ none → GetsNoSlot wait
  unfolding acquire_slot timeout
  acquire_slot-late wait e = ground arith

  -- The effects and the answer of a capture, case by case.
  abbrev pub Effects :
      SummaryQuery F → Bool → ℕ → List (Effect F) × Result (Captured Stat) CaptureError → Type 0
  Effects q allow wait (es, answer) =
      ((x : CaptureError) × (admit env w (prepare env w q) allow ≡ err x)
        × (es ≡ [])
        × (answer ≡ err x))
      ⊎ ((admit env w (prepare env w q) allow ≡ ok tt)
          × GetsNoSlot wait
          × (es ≡ take_slot wait ∷ [])
          × ((x : CaptureError) × (answer ≡ err x) × (status_u16 x ≡ 503)))
      ⊎ ((admit env w (prepare env w q) allow ≡ ok tt)
          × GetsSlot wait
          × (es
              ≡ take_slot wait
                ∷ browse (build_request w.hundred (prepare env w q) allow)
                    ((prepare env w q).timeout_ms + deadline_buffer_ms env)
                ∷ release_slot
                ∷ []))

  with_slot-Effects :
      (q : SummaryQuery F) (allow : Bool) (wait : ℕ)
      → admit env w (prepare env w q) allow ≡ ok tt
      → Effects q allow wait (with_slot env w (prepare env w q) allow wait)
  unfolding with_slot status_u16 kind_status
  with_slot-Effects q allow wait a = elim (Option-cases (acquire_slot env w wait)) [
    | inl e ↦ rw (e, with_slot) (inr (inl (a, acquire_slot-late wait e, refl, (_, refl, refl))))
    | inr (true, e) ↦ rw (e, with_slot) (inr (inr (a, acquire_slot-GetsSlot wait e, refl)))
    | inr (false, e) ↦
        rw (e, with_slot) (inr (inl (a, acquire_slot-refused wait e, refl, (_, refl, refl))))
  ]

  pub capture-admitted :
      (q : SummaryQuery F) (allow : Bool) (wait : ℕ)
      → admit env w (prepare env w q) allow ≡ ok tt
      → capture_one_unmetered env w q allow wait ≡ with_slot env w (prepare env w q) allow wait
  unfolding capture_one_unmetered
  capture-admitted q allow wait e = rw (e, capture_one_unmetered)

  pub capture-refused :
      (q : SummaryQuery F) (allow : Bool) (wait : ℕ) (x : CaptureError)
      → admit env w (prepare env w q) allow ≡ err x
      → capture_one_unmetered env w q allow wait ≡ ([], err x)
  unfolding capture_one_unmetered
  capture-refused q allow wait x e = rw (e, capture_one_unmetered)

  -- A capture that fails a check has no effect and answers with its error. One that passes them takes one page
  -- slot; if the pool has none for it in time, it answers with 503 and the browser is not run, and if the pool
  -- gives one, the browser is run once, on the prepared request, and the slot is given back.
  pub capture_one_unmetered-Effects :
      (q : SummaryQuery F) (allow : Bool) (wait : ℕ)
      → Effects q allow wait (capture_one_unmetered env w q allow wait)
  capture_one_unmetered-Effects q allow wait =
      elim (Result-cases (admit env w (prepare env w q) allow)) [
        | inl (_, e) ↦
            subst (Effects q allow wait) (sym (capture-admitted q allow wait e))
              (with_slot-Effects q allow wait e)
        | inr (x, e) ↦
            subst (Effects q allow wait) (sym (capture-refused q allow wait x e))
              (inl (x, e, refl, refl))
      ]

  browse_at :
      (wait d d' : ℕ) (r req : SummaryRequest F) (i : ℕ)
      → get_elem? (take_slot wait ∷ browse r d ∷ release_slot ∷ []) i ≡ some (browse req d')
      → (r ≡ req) × (d ≡ d')
  browse_at wait d d' r req zero e = cc
  browse_at wait d d' r req (suc zero) e = (cc, cc)
  browse_at wait d d' r req (suc (suc zero)) e = cc
  browse_at wait d d' r req (suc (suc (suc i))) e = cc

  no_browse :
      (wait d : ℕ) (req : SummaryRequest F) (i : ℕ)
      → get_elem? (take_slot wait ∷ []) i ≡ some (browse req d)
      → ⊥
  no_browse wait d req zero e = cc
  no_browse wait d req (suc i) e = cc

  no_effect :
      (d : ℕ) (req : SummaryRequest F) (i : ℕ)
      → get_elem? {A = Effect F} [] i ≡ some (browse req d)
      → ⊥
  no_effect d req i e = cc

  browse-prepared :
      (q : SummaryQuery F) (allow : Bool) (wait i d : ℕ) (req : SummaryRequest F)
      → get_elem? (capture_one_unmetered env w q allow wait).0 i ≡ some (browse req d)
      → (admit env w (prepare env w q) allow ≡ ok tt)
        × (build_request w.hundred (prepare env w q) allow ≡ req)
        × ((prepare env w q).timeout_ms + deadline_buffer_ms env ≡ d)
  browse-prepared q allow wait i d req e = elim (capture_one_unmetered-Effects q allow wait) [
    | inl (x, a, f, _) ↦ absurd (no_effect d req i (rw f at e))
    | inr (inl (a, _, f, _)) ↦ absurd (no_browse wait d req i (rw f at e))
    | inr (inr (a, _, f)) ↦
        let (same, due) = browse_at wait _ d _ req i (rw f at e) in (a, same, due)
  ]

  prepare-url : (q : SummaryQuery F) → (prepare env w q).url ≡ q.url
  unfolding prepare apply_clamps apply_profile
  prepare-url q = ground arith

  prepare-timeout_ms :
      (q : SummaryQuery F) → (prepare env w q).timeout_ms ≡ clamp_timeout_ms env q.timeout_ms
  unfolding prepare apply_clamps apply_profile
  prepare-timeout_ms q = ground arith

  -- Whatever reaches the browser has an http or https URL that parsed, the timeout clamped and at
  -- least 1 ms, the deadline that much later than the buffer, no script where scripts are disabled,
  -- and the redirect guard set unless private addresses are allowed.
  pub browse-checked :
      (q : SummaryQuery F) (allow : Bool) (wait i d : ℕ) (req : SummaryRequest F)
      → get_elem? (capture_one_unmetered env w q allow wait).0 i ≡ some (browse req d)
      → (url : Url) × (w.net.parse req.url ≡ ok url)
        × IsHttp url
        × (req.url ≡ q.url)
        × (req.timeout ≡ clamp_timeout_ms env q.timeout_ms)
        × (1 ≤ req.timeout)
        × (d ≡ req.timeout + deadline_buffer_ms env)
        × ((disable_script env && is_some req.script) ≡ false)
        × (req.ssrf_guard ≡ not allow)
  unfolding build_request
  browse-checked q allow wait i d req e =
      let (a, same, due) = browse-prepared q allow wait i d req e in
      let (url, v, _, script) = admit-ok (prepare env w q) allow a in
      let (parsed, http) = validate_url-ok (prepare env w q).url url v in
      (
        url,
        subst (λ r. w.net.parse r.url ≡ ok url) same parsed,
        http,
        subst (λ r. r.url ≡ q.url) same (prepare-url q),
        subst (λ r. r.timeout ≡ clamp_timeout_ms env q.timeout_ms) same (prepare-timeout_ms q),
        subst (λ r. 1 ≤ r.timeout) same
            (rw (prepare-timeout_ms q) (clamp_timeout_ms_pos env q.timeout_ms)),
        subst (λ r. d ≡ r.timeout + deadline_buffer_ms env) same (sym due),
        subst (λ r. (disable_script env && is_some r.script) ≡ false) same script,
        subst (λ r. r.ssrf_guard ≡ not allow) same refl,
      )

  -- Unless private addresses are allowed, what reaches the browser has a host whose addresses were all
  -- known at the check, with none of them blocked.
  pub browse-IsReachable :
      (q : SummaryQuery F) (wait i d : ℕ) (req : SummaryRequest F) (url : Url)
      → get_elem? (capture_one_unmetered env w q false wait).0 i ≡ some (browse req d)
      → w.net.parse req.url ≡ ok url
      → IsReachable w.net url
  unfolding build_request
  browse-IsReachable q wait i d req url e p =
      let (a, same, _) = browse-prepared q false wait i d req e in
      let (url', v, checked, _) = admit-ok (prepare env w q) false a in
      let parsed : w.net.parse req.url ≡ ok url' =
        subst (λ r. w.net.parse r.url ≡ ok url') same
          (validate_url-ok (prepare env w q).url url' v).0 in
      subst (IsReachable w.net) (ok-injective (sym parsed ∙ p)) (check_ssrf-ok url' checked)
