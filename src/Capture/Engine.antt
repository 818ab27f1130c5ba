-- ===== src/Capture/Engine.antt =====
-- `capture_one` of src/capture.rs: validate, take a page slot, run the browser under the deadline,
-- shape the result. Metrics and logs are left out. What runs outside this file (the page slot and the
-- browser) is recorded as a list of effects, in order.
use browser_headless.Base.{
  ℕ, ◌+◌, ◌*◌, ◌%◌, Bool, true, false, ◌&&◌, ◌||◌, Option, none, some, List, [], ◌∷◌, ◌++◌, Text,
  codes, text_eq, show_ℕ, leb, ◌==◌, if◌then◌else◌, is_some, length, Result, ok, err, ◌>>=◌,
  map_err,
}
use browser_headless.Config.{
  Env, u64_bound, disable_script, deadline_buffer_ms, checkout_wait_ms, job_ttl,
}
use browser_headless.Error.{
  CaptureError, capture_error, bad_request, forbidden, service_unavailable, gateway_timeout,
  BrowserError, from_browser,
}
use browser_headless.Ssrf.{Net, SsrfError, no_host, dns_failed, blocked, ssrf_message, check_url}
use browser_headless.Capture.Query.{SummaryQuery, apply_profile, apply_clamps}
use browser_headless.Capture.Request.{SummaryRequest, build_request}

pub record ContentResponse : Type 0 where
  pub status : ℕ
  pub final_url : Text
  pub char_count : ℕ
  pub body : Text

-- `WebPageStat` is a parameter, of which `document_timing` and `data` are read.
pub data Captured (Stat : Type 0) : Type 0 where
  content : ContentResponse → Captured Stat
  full : Stat → Captured Stat

pub data Effect (F : Type 0) : Type 0 where
  take_slot : ℕ → Effect F
  browse : SummaryRequest F → ℕ → Effect F
  release_slot : Effect F

-- An answer, and how many milliseconds it took.
pub record Timed (A : Type 0) : Type 0 where
  pub after_ms : ℕ
  pub answer : A

-- What one capture meets: the network, the pool (whether a slot could be had), and the browser.
pub record World (F Url Stat : Type 0) : Type 0 where
  pub net : Net Url
  pub hundred : F
  pub checkout : Timed Bool
  pub capture : SummaryRequest F → Timed (Result Stat BrowserError)
  pub document_timing : Stat → Option (ℕ × Text)
  pub stat_data : Stat → Text

-- `tokio::time::timeout`: the answer, if it comes in time.
unfoldable pub timeout {ℓ} : {A : Type ℓ} → ℕ → ℕ → A → Option A
timeout limit after_ms answer = if leb after_ms limit then some answer else none

module _ {F Url Stat : Type 0} (env : Env) (w : World F Url Stat) where
  unfoldable pub validate_url : Text → Result Url CaptureError
  validate_url raw = do
    url ← map_err (λ e. capture_error bad_request (codes "invalid URL: " ++ e)) (w.net.parse raw)
    if text_eq (w.net.scheme url) (codes "http") || text_eq (w.net.scheme url) (codes "https")
        then ok url
        else err (
            capture_error bad_request
              (codes "scheme `" ++ (w.net.scheme url ++ codes "` not allowed; only http/https")))

  unfoldable pub ssrf_status : SsrfError → CaptureError
  ssrf_status no_host = capture_error bad_request (ssrf_message no_host)
  ssrf_status (dns_failed m) = capture_error bad_request (ssrf_message (dns_failed m))
  ssrf_status (blocked m) = capture_error forbidden (ssrf_message (blocked m))

  unfoldable pub check_ssrf : Url → Result (Unit {0}) CaptureError
  unfolding ssrf_status
  check_ssrf url = map_err ssrf_status (check_url w.net url)

  -- The checks before the pool is touched.
  unfoldable pub admit : SummaryQuery F → Bool → Result (Unit {0}) CaptureError
  admit q allow_private_ips =
      if disable_script env && is_some q.script
      then err (
          capture_error forbidden
            (codes "script parameter disabled by BROWSER_HEADLESS_DISABLE_SCRIPT"))
      else (validate_url q.url >>= λ url. if allow_private_ips then ok tt else check_ssrf url)

  -- A wait of 0 is not bounded.
  unfoldable pub acquire_slot : ℕ → Option Bool
  unfolding timeout
  acquire_slot wait_ms =
      if wait_ms == 0
      then some w.checkout.answer
      else timeout wait_ms w.checkout.after_ms w.checkout.answer

  unfoldable pub shape : SummaryQuery F → Stat → Captured Stat
  shape q stat =
      if q.content_only
      then elim (w.document_timing stat) [
        | some (status, url) ↦ content (record {
          status = status;
          final_url = url;
          char_count = length (w.stat_data stat);
          body = w.stat_data stat;
        })
        | none ↦ content (record {
          status = 0;
          final_url = q.url;
          char_count = length (w.stat_data stat);
          body = w.stat_data stat;
        })
      ]
      else full stat

  -- The browser under the hard deadline `timeout_ms + buffer`.
  unfoldable pub run_browser :
      SummaryQuery F → SummaryRequest F → Result (Captured Stat) CaptureError
  unfolding timeout shape
  run_browser q req =
      let deadline = q.timeout_ms + deadline_buffer_ms env in
      elim (timeout deadline (w.capture req).after_ms (w.capture req).answer) [
        | none ↦ err (
            capture_error gateway_timeout (
              codes "total request deadline "
              ++ (show_ℕ deadline
                  ++ (codes "ms exceeded (timeout_ms="
                      ++ (show_ℕ q.timeout_ms
                          ++ (codes " + "
                              ++ (show_ℕ (deadline_buffer_ms env) ++ codes "ms buffer)")))))))
        | some done ↦ map_err from_browser done >>= λ stat. ok (shape q stat)
      ]

  unfoldable pub with_slot :
      SummaryQuery F → Bool → ℕ → List (Effect F) × Result (Captured Stat) CaptureError
  unfolding acquire_slot run_browser
  with_slot q allow_private_ips wait_ms = elim (acquire_slot wait_ms) [
    | none ↦ (
      take_slot wait_ms ∷ [],
      err (
          capture_error service_unavailable (
            codes "browser pool saturated; no slot within "
            ++ (show_ℕ wait_ms ++ codes "ms, retry shortly"))),
    )
    | some false ↦ (
      take_slot wait_ms ∷ [],
      err (capture_error service_unavailable (codes "browser pool unavailable; retry shortly")),
    )
    | some true ↦
        let req = build_request w.hundred q allow_private_ips in
        (
          take_slot wait_ms
              ∷ browse req (q.timeout_ms + deadline_buffer_ms env)
              ∷ release_slot
              ∷ [],
          run_browser q req,
        )
  ]

  unfoldable pub prepare : SummaryQuery F → SummaryQuery F
  prepare q = apply_clamps env (apply_profile q)

  unfoldable pub capture_one_unmetered :
      SummaryQuery F → Bool → ℕ → List (Effect F) × Result (Captured Stat) CaptureError
  unfolding prepare
  capture_one_unmetered q allow_private_ips checkout_wait =
      elim (admit (prepare q) allow_private_ips) [
        | err e ↦ ([], err e)
        | ok _ ↦ with_slot (prepare q) allow_private_ips checkout_wait
      ]

  unfoldable pub capture_one :
      SummaryQuery F → Bool → List (Effect F) × Result (Captured Stat) CaptureError
  capture_one q allow_private_ips = capture_one_unmetered q allow_private_ips (checkout_wait_ms env)

  -- The job TTL in milliseconds, cut to a u64.
  unfoldable pub capture_one_queued :
      SummaryQuery F → Bool → List (Effect F) × Result (Captured Stat) CaptureError
  capture_one_queued q allow_private_ips =
      capture_one_unmetered q allow_private_ips ((job_ttl env * 1000) % u64_bound)
