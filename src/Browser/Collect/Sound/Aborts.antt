-- ===== src/Browser/Collect/Sound/Aborts.antt =====
-- The suppression of quick aborts of src/browser/mod.rs, which needs the requests' events.
use browser_headless.Base.{
  ℕ, ◌+◌, ◌≡◌, refl, sym, ap, ◌∙◌, subst, inl, inr, arith, Bool, true, false, Option, List, [], ◌∷◌,
  Text, is_empty, length, length-append, to_ℕ, All, ok, ok-injective, err-ne-ok, Bool-cases,
  Result-cases, Option-cases,
}
use browser_headless.Base.Dicts.{lookup, AllValues-lookup}
use browser_headless.Browser.Resource.{ParsedUrl}
use browser_headless.Browser.Collect.State.{
  CollectCaptures, ResponseReceived, LoadingFailed, Event, lifecycle, response, loading_finished,
  exception, console, request, loading_failed, style_sheet, Collect, start_collect,
}
use browser_headless.Browser.Collect.Facts.{is_real_resource}
use browser_headless.Browser.Collect.Handlers.{
  full_pattern, note_final_url, note_http, note_security_headers, add_tls, note_tls, received,
  on_response, on_loading_finished, on_exception, on_style_sheet, failed_url, is_quick_abort,
  record_failure, on_loading_failed, handle, is_subscribed,
}
use browser_headless.Browser.Collect.Sound.{
  IsReal, IsSound, is_real_resource-nil, handle-IsSound, start_collect-IsSound,
}
use browser_headless.Browser.Collect.Loop.Rounds.{collect_loop-first}
use browser_headless.Browser.Collect.Loop.{
  slept, closed, arrived, Round, running, collect_loop, run_full,
}

-- No request was seen, nothing is suppressed, and so many failures are recorded.
record Recorded (n : ℕ) (c : Collect) : Type 0 where
  no_ids : c.quick_abort_ids ≡ []
  no_sends : c.request_sent_at ≡ []
  recorded : length c.http_network_failures ≡ n

on_loading_failed-slow :
    (ev : LoadingFailed) (c : Collect)
    → is_real_resource (failed_url ev c) ≡ true
    → is_quick_abort ev c ≡ false
    → on_loading_failed ev c ≡ record_failure ev c
unfolding on_loading_failed
on_loading_failed-slow ev c real slow = elim (Bool-cases (is_empty (failed_url ev c))) [
  | inl e ↦ rw e (rw slow refl)
  | inr e ↦ rw e (rw real (rw slow refl))
]

module _ (n : ℕ) where
  note_http-Recorded :
      (captures : CollectCaptures) (ev : ResponseReceived) (c : Collect)
      → Recorded n c
      → Recorded n (note_http captures ev c)
  unfolding note_http note_final_url
  note_http-Recorded captures ev c h = ground arith

  note_security_headers-Recorded :
      (ev : ResponseReceived) (c : Collect) → Recorded n c → Recorded n (note_security_headers ev c)
  unfolding note_security_headers
  note_security_headers-Recorded ev c h = ground arith

  -- The URL of a resource that was kept is real, and that of an unknown one is empty.
  failed_url-IsReal :
      (ev : LoadingFailed) (c : Collect) → IsSound c → is_real_resource (failed_url ev c) ≡ true
  unfolding failed_url
  failed_url-IsReal ev c h = elim (Option-cases (lookup ev.request_id c.resources)) [
    | inl e ↦ rw (e, failed_url) is_real_resource-nil
    | inr (r, e) ↦ rw (e, failed_url) (AllValues-lookup IsReal ev.request_id r c.resources h.real e)
  ]

  not_quick : (ev : LoadingFailed) (c : Collect) → Recorded n c → is_quick_abort ev c ≡ false
  unfolding is_quick_abort lookup
  not_quick ev c h = rw h.no_sends (ground arith)

  record_failure-Recorded :
      (ev : LoadingFailed) (c : Collect) → Recorded n c → Recorded (n + 1) (record_failure ev c)
  unfolding record_failure
  record_failure-Recorded ev c h = record {
    no_ids = h.no_ids;
    no_sends = h.no_sends;
    recorded = length-append c.http_network_failures _ ∙ ap (λ (m : ℕ). m + 1) h.recorded;
  }

  -- Without the requests no abort is quick.
  on_loading_failed-Recorded :
      (ev : LoadingFailed) (c : Collect)
      → IsSound c
      → Recorded n c
      → Recorded (n + 1) (on_loading_failed ev c)
  on_loading_failed-Recorded ev c sound h =
      subst (Recorded (n + 1))
        (sym (on_loading_failed-slow ev c (failed_url-IsReal ev c sound) (not_quick ev c h)))
        (record_failure-Recorded ev c h)

module _ (parse : Text → Option ParsedUrl) (now_secs : ℕ) (captures : CollectCaptures) where
  note_tls-Recorded :
      (n : ℕ) (ev : ResponseReceived) (c : Collect)
      → Recorded n c
      → Recorded n (note_tls parse now_secs captures ev c)
  unfolding note_tls add_tls
  note_tls-Recorded n ev c h = ground arith

  on_response-Recorded :
      (n : ℕ) (ev : ResponseReceived) (c d : Collect)
      → on_response parse now_secs captures ev c ≡ ok d
      → Recorded n c
      → Recorded n d
  unfolding on_response received
  on_response-Recorded n ev c d e h = elim (Bool-cases (is_real_resource ev.url)) [
    | inr pseudo ↦ subst (Recorded n) (ok-injective (rw pseudo at e)) h
    | inl real ↦ elim (Result-cases (full_pattern ev.status ev.url c.progress.pending_patterns)) [
      | inr (x, f) ↦ absurd (err-ne-ok (rw f at (rw real at e)))
      | inl (pending, f) ↦
          let c0 = received parse now_secs captures ev pending c in
          let c1 = note_http captures ev c0 in
          let c2 = note_security_headers ev c1 in
          subst (Recorded n) (ok-injective (rw f at (rw real at e))) (
            note_tls-Recorded n ev c2 (
              note_security_headers-Recorded n ev c1 (
                note_http-Recorded n captures ev c0
                  (record { no_ids = h.no_ids; no_sends = h.no_sends; recorded = h.recorded }))))
    ]
  ]

abbrev pub is_failure : Event → Bool
is_failure (loading_failed ev) = true
is_failure _ = false

abbrev pub failures : List (Round Event) → ℕ
failures [] = 0
failures (r ∷ rs) =
    (elim r.arrival [ arrived at ev ↦ to_ℕ (is_failure ev) | slept ↦ 0 | closed ↦ 0 ]) + failures rs

-- The loop listens to what the round brings.
abbrev pub IsHeard : CollectCaptures → Round Event → Type 0
IsHeard captures r = elim r.arrival [
  | arrived at ev ↦ is_subscribed captures ev ≡ true
  | slept ↦ Unit {0}
  | closed ↦ Unit {0}
]

Recorded-eq : (n m : ℕ) (c : Collect) → n ≡ m → Recorded n c → Recorded m c
Recorded-eq n m c e h = subst (λ k. Recorded k c) e h

-- A state with the same aborts and failures.
Recorded-same :
    (n : ℕ) (c d : Collect)
    → (d.quick_abort_ids ≡ c.quick_abort_ids)
      × (d.request_sent_at ≡ c.request_sent_at)
      × (d.http_network_failures ≡ c.http_network_failures)
    → Recorded n c
    → Recorded (n + 0) d
Recorded-same n c d (e, f, g) h = record {
  no_ids = e ∙ h.no_ids;
  no_sends = f ∙ h.no_sends;
  recorded = ap length g ∙ h.recorded ∙ omega arith;
}

module _ (parse : Text → Option ParsedUrl) (now_secs : ℕ) (captures : CollectCaptures)
    (off : captures.initiators ≡ false) where
  handle-Recorded :
      (n at : ℕ) (ev : Event) (c d : Collect)
      → handle parse now_secs captures at ev c ≡ ok d
      → is_subscribed captures ev ≡ true
      → IsSound c
      → Recorded n c
      → Recorded (n + to_ℕ (is_failure ev)) d
  unfolding handle is_subscribed on_exception on_loading_finished on_style_sheet
  handle-Recorded n at (request ev) c d e on sound h = absurd (cc)
  handle-Recorded n at (loading_failed ev) c d e on sound h =
      subst (Recorded (n + 1)) (ok-injective e) (on_loading_failed-Recorded n ev c sound h)
  handle-Recorded n at (response ev) c d e on sound h =
      Recorded-eq n (n + 0) d (omega arith)
        (on_response-Recorded parse now_secs captures n ev c d e h)
  handle-Recorded n at (lifecycle ts name) c d e on sound h =
      subst (Recorded (n + 0)) (ok-injective e) (Recorded-same n c _ (refl, refl, refl) h)
  handle-Recorded n at (loading_finished id size) c d e on sound h =
      subst (Recorded (n + 0)) (ok-injective e) (Recorded-same n c _ (refl, refl, refl) h)
  handle-Recorded n at (exception ev) c d e on sound h =
      subst (Recorded (n + 0)) (ok-injective e) (Recorded-same n c _ (refl, refl, refl) h)
  handle-Recorded n at (console level args) c d e on sound h =
      subst (Recorded (n + 0)) (ok-injective e) (Recorded-same n c _ (refl, refl, refl) h)
  handle-Recorded n at (style_sheet id url size) c d e on sound h =
      subst (Recorded (n + 0)) (ok-injective e) (Recorded-same n c _ (refl, refl, refl) h)

  loop-Recorded :
      (stop : ℕ → Collect → ℕ) (rs : List (Round Event)) (n : ℕ) (c d : Collect)
      → collect_loop (handle parse now_secs captures) stop rs c ≡ running d
      → All (IsHeard captures) rs
      → IsSound c
      → Recorded n c
      → Recorded (n + failures rs) d
  unfolding collect_loop
  loop-Recorded stop [] n c d e heard sound h =
      Recorded-eq n (n + 0) d (omega arith) (subst (Recorded n) (running-injective e) h)
    where
      running-injective : {a b : Collect} → running a ≡ running b → a ≡ b
      running-injective q = cc
  loop-Recorded stop (r ∷ rs) n c d e heard sound h =
      let (at, ev, t, came, done, rest) =
        collect_loop-first (handle parse now_secs captures) stop r rs c d e in
      Recorded-eq ((n + to_ℕ (is_failure ev)) + failures rs) (n + failures (r ∷ rs)) d
        (rw came (omega arith))
        (loop-Recorded stop rs (n + to_ℕ (is_failure ev)) t d rest heard.1
          (handle-IsSound parse now_secs captures at ev c t done sound)
          (handle-Recorded n at ev c t done (rw came at heard.0) sound h))

-- As long as the loop runs without capturing initiators, no abort is suppressed, however soon it came, and every
-- failed loading that the loop heard of is recorded.
pub run_full-unsuppressed :
    (parse : Text → Option ParsedUrl) (now_secs : ℕ) (captures : CollectCaptures) (url : Text)
    (deadline : ℕ) (wait_for_request : List Text) (wait_until_load : Bool)
    (rounds : List (Round Event)) (c : Collect)
    → captures.initiators ≡ false
    → All (IsHeard captures) rounds
    → run_full parse now_secs captures url deadline wait_for_request wait_until_load rounds
      ≡ running c
    → (c.quick_abort_ids ≡ []) × (length c.http_network_failures ≡ failures rounds)
unfolding run_full
run_full-unsuppressed parse now_secs captures url deadline wait_for_request wait_until_load rounds c
      off heard e =
    let h =
      loop-Recorded parse now_secs captures off _ rounds 0 (start_collect url wait_for_request) c e
        heard (start_collect-IsSound url wait_for_request)
        (record { no_ids = refl; no_sends = refl; recorded = refl }) in
    (h.no_ids, omega (arith, h.recorded))
