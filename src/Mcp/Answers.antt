-- ===== src/Mcp/Answers.antt =====
-- src/mcp.rs: what a tool call answers.
use browser_headless.Base.{
  ℕ, ◌+◌, ◌≤◌, ◌<◌, ◌≡◌, refl, sym, ap, ◌∙◌, subst, inl, inr, ◌⊎◌, arith, Bool, true, false, Option,
  none, some, [], ◌++◌, Text, codes, leb, length, take, length-take, take-all, leb→le, Bool-cases,
  Option-cases, Result-cases, Result, ok, err, err-ne-ok, ok-injective,
}
use browser_headless.Config.{Env, deadline_buffer_ms, checkout_wait_ms}
use browser_headless.Error.{CaptureError}
use browser_headless.RateLimit.{RateLimiter, try_acquire}
use browser_headless.Capture.Query.{SummaryQuery, apply_profile, apply_clamps}
use browser_headless.Capture.Request.{SummaryRequest}
use browser_headless.Capture.Engine.{
  ContentResponse, Captured, content, full, World, capture_one, admit, acquire_slot, timeout,
  prepare, with_slot, run_browser, shape,
}
use browser_headless.Capture.Safety.{capture-admitted, capture-refused}
use browser_headless.Mcp.{
  capture_error, ToolCall, fetch_page, page_signals, screenshot, page_audit, ToolAnswer, tool_error,
  protocol_error, Shown, tool_query, tool_answer, with_timeout, call_tool, show_shot,
  resolve_max_chars, build_query, truncate_chars, format_fetch_page_result, meta_header,
  max_chars_hard_cap,
}

truncate-fits :
    (s : Text) (limit : ℕ) → leb (length s) limit ≡ true → truncate_chars s limit ≡ (s, false)
unfolding truncate_chars
truncate-fits s limit e = rw (e, truncate_chars)

truncate-long :
    (s : Text) (limit : ℕ)
    → leb (length s) limit ≡ false
    → truncate_chars s limit ≡ (take limit s, true)
unfolding truncate_chars
truncate-long s limit e = rw (e, truncate_chars)

-- The header and body, from what `truncate_chars` gives.
format-truncated :
    (url : Text) (c : ContentResponse) (limit : ℕ) (body : Text) (truncated : Bool)
    → truncate_chars c.body limit ≡ (body, truncated)
    → format_fetch_page_result url c limit ≡ meta_header url c limit truncated ++ body
unfolding format_fetch_page_result
format-truncated url c limit body truncated e = rw (e, format_fetch_page_result) refl

-- What `fetch_page` returns is the header and a prefix of the page's text: the whole text where the header says
-- that it is not truncated, and otherwise the first `max_chars` characters of a longer text;
-- `max_chars` is between 1 and 200,000.
pub format_fetch_page_result-take :
    (url : Text) (c : ContentResponse) (requested : Option ℕ)
    → let limit = resolve_max_chars requested in
      (1 ≤ limit)
      × (limit ≤ max_chars_hard_cap)
      × ((truncated : Bool) × (format_fetch_page_result url c limit
            ≡ meta_header url c limit truncated ++ take limit c.body)
          × (((truncated ≡ false) × (take limit c.body ≡ c.body))
              ⊎ ((truncated ≡ true)
                  × (length (take limit c.body) ≡ limit)
                  × (limit < length c.body))))
unfolding resolve_max_chars
format_fetch_page_result-take url c requested =
    let limit = resolve_max_chars requested in
    (
      ground arith,
      ground arith,
      elim (Bool-cases (leb (length c.body) limit)) [
        | inl e ↦
            let whole = take-all limit c.body (leb→le (length c.body) limit e) in
            (
              false,
              format-truncated url c limit c.body false (truncate-fits c.body limit e)
                  ∙ ap (λ b. meta_header url c limit false ++ b) (sym whole),
              inl (refl, whole),
            )
        | inr e ↦
            let longer : limit < length c.body = ground arith in
            (
              true,
              format-truncated url c limit (take limit c.body) true (truncate-long c.body limit e),
              inr (refl, omega (arith, length-take limit c.body, longer), longer),
            )
      ],
    )

abbrev pub is_protocol_error : ToolAnswer → Bool
is_protocol_error (protocol_error m) = true
is_protocol_error _ = false

abbrev expects_content : ToolCall → Bool
expects_content (fetch_page args) = true
expects_content _ = false

abbrev is_content : {Stat : Type 0} → Captured Stat → Bool
is_content (content c) = true
is_content (full stat) = false

show_shot-answers : (shot : Option (Text × Text)) → is_protocol_error (show_shot shot) ≡ false
unfolding show_shot
show_shot-answers none = refl
show_shot-answers (some shot) = refl

module _ {F Url Stat : Type 0} (env : Env) (w : World F Url Stat) (allow_private_ips : Bool)
    (shown : Shown Stat) where
  abbrev IsShaped : SummaryQuery F → Result (Captured Stat) CaptureError → Type 0
  IsShaped q r = (c : Captured Stat) → r ≡ ok c → (stat : Stat) × (shape env w q stat ≡ c)

  run_browser-IsShaped :
      (q : SummaryQuery F) (req : SummaryRequest F) → IsShaped q (run_browser env w q req)
  unfolding run_browser
  run_browser-IsShaped q req c h =
      elim (Option-cases (
        timeout (q.timeout_ms + deadline_buffer_ms env) (w.capture req).after_ms
          (w.capture req).answer)) [
            | inl e ↦ absurd (err-ne-ok (rw (e, run_browser) at h))
            | inr (err x, e) ↦ absurd (err-ne-ok (rw (e, run_browser) at h))
            | inr (ok stat, e) ↦ (stat, ok-injective (rw (e, run_browser) at h))
          ]

  with_slot-IsShaped :
      (q : SummaryQuery F) (wait : ℕ) → IsShaped q (with_slot env w q allow_private_ips wait).1
  unfolding with_slot
  with_slot-IsShaped q wait c h = elim (Option-cases (acquire_slot env w wait)) [
    | inl e ↦ absurd (err-ne-ok (rw (e, with_slot) at h))
    | inr (false, e) ↦ absurd (err-ne-ok (rw (e, with_slot) at h))
    | inr (true, e) ↦ run_browser-IsShaped q _ c (rw (e, with_slot) at h)
  ]

  capture_one-IsShaped :
      (q : SummaryQuery F) → IsShaped (prepare env w q) (capture_one env w q allow_private_ips).1
  unfolding capture_one
  capture_one-IsShaped q = elim (Result-cases (admit env w (prepare env w q) allow_private_ips)) [
    | inl (_, e) ↦
        subst (λ r. IsShaped (prepare env w q) r.1)
          (sym (capture-admitted env w q allow_private_ips (checkout_wait_ms env) e))
          (with_slot-IsShaped (prepare env w q) (checkout_wait_ms env))
    | inr (x, e) ↦ λ c h. absurd (
        err-ne-ok (
          sym (ap (λ r. r.1) (capture-refused env w q allow_private_ips (checkout_wait_ms env) x e))
          ∙ h))
  ]

  tool_query-content_only :
      (call : ToolCall) → (prepare env w (tool_query env call)).content_only ≡ expects_content call
  unfolding prepare tool_query apply_profile apply_clamps with_timeout
  tool_query-content_only (fetch_page args) = ground arith
  tool_query-content_only (page_signals args) = ground arith
  tool_query-content_only (screenshot args) = ground arith
  tool_query-content_only (page_audit args) = ground arith

  shape-is_content :
      (q : SummaryQuery F) (stat : Stat) → is_content (shape env w q stat) ≡ q.content_only
  unfolding shape
  shape-is_content q stat = ground arith

  tool_answer-answers :
      (call : ToolCall) (r : Result (Captured Stat) CaptureError)
      → ((c : Captured Stat) → r ≡ ok c → is_content c ≡ expects_content call)
      → is_protocol_error (tool_answer env w allow_private_ips shown call r) ≡ false
  unfolding tool_answer capture_error
  tool_answer-answers call (err e) h = ground arith
  tool_answer-answers (fetch_page args) (ok (content c)) h = refl
  tool_answer-answers (fetch_page args) (ok (full stat)) h = cc (h (full stat) refl)
  tool_answer-answers (page_signals args) (ok (content c)) h = cc (h (content c) refl)
  tool_answer-answers (page_signals args) (ok (full stat)) h = refl
  tool_answer-answers (screenshot args) (ok (content c)) h = cc (h (content c) refl)
  tool_answer-answers (screenshot args) (ok (full stat)) h =
      show_shot-answers (shown.screenshot stat)
  tool_answer-answers (page_audit args) (ok (content c)) h = cc (h (content c) refl)
  tool_answer-answers (page_audit args) (ok (full stat)) h = refl

  module _ (from_value : SummaryQuery F → Result (SummaryQuery F) Text) (limiter : RateLimiter)
      (poisoned : Bool) (now : ℕ) (call : ToolCall) where
    call_tool-allowed :
        (q : SummaryQuery F)
        → (try_acquire limiter poisoned now).1 ≡ true
        → from_value (tool_query env call) ≡ ok q
        → call_tool env w allow_private_ips shown from_value limiter poisoned now call ≡ (
          (try_acquire limiter poisoned now).0,
          (capture_one env w q allow_private_ips).0,
          tool_answer env w allow_private_ips shown call (capture_one env w q allow_private_ips).1,
        )
    unfolding call_tool build_query
    call_tool-allowed q e f = rw (e, f, call_tool, build_query) refl

    call_tool-unread :
        (m : Text)
        → (try_acquire limiter poisoned now).1 ≡ true
        → from_value (tool_query env call) ≡ err m
        → call_tool env w allow_private_ips shown from_value limiter poisoned now call ≡ (
          (try_acquire limiter poisoned now).0,
          [],
          protocol_error (codes "failed to build capture query: " ++ m),
        )
    unfolding call_tool build_query
    call_tool-unread m e f = rw (e, f, call_tool, build_query) refl

    call_tool-refused :
        (try_acquire limiter poisoned now).1 ≡ false
        → call_tool env w allow_private_ips shown from_value limiter poisoned now call ≡ (
          (try_acquire limiter poisoned now).0,
          [],
          tool_error (codes "rate limit exceeded (HTTP 429): retry later"),
        )
    unfolding call_tool
    call_tool-refused e = rw (e, call_tool) refl

    -- A call whose query is read back is never answered with a protocol error.
    capture-answers :
        is_protocol_error (
          tool_answer env w allow_private_ips shown call
            (capture_one env w (tool_query env call) allow_private_ips).1)
        ≡ false
    capture-answers =
        tool_answer-answers call (capture_one env w (tool_query env call) allow_private_ips).1
          (λ c h.
            let (stat, shaped) = capture_one-IsShaped (tool_query env call) c h in
            ap is_content (sym shaped)
            ∙ shape-is_content (prepare env w (tool_query env call)) stat
            ∙ tool_query-content_only call)

  -- Where serde reads a tool's fields back as the query that they state, or fails: a tool call that the limiter
  -- refuses has no effect and answers with a tool error; one that it allows has no effect and answers with a
  -- protocol error if the fields are not read, and otherwise has the effects of the capture of the tool's
  -- query and does not end in a protocol error.
  pub call_tool-answers :
      (from_value : SummaryQuery F → Result (SummaryQuery F) Text) (limiter : RateLimiter)
      (poisoned : Bool) (now : ℕ) (call : ToolCall)
      → ((q : SummaryQuery F) → from_value (tool_query env call) ≡ ok q → q ≡ tool_query env call)
      → let (limiter', effects, answer) =
          call_tool env w allow_private_ips shown from_value limiter poisoned now call in
        let (asked, allowed) = try_acquire limiter poisoned now in
        (limiter' ≡ asked)
        × (((allowed ≡ false) × (effects ≡ []) × ((m : Text) × (answer ≡ tool_error m)))
            ⊎ ((allowed ≡ true)
                × ((m : Text) × (from_value (tool_query env call) ≡ err m)
                    × (effects ≡ [])
                    × (answer ≡ protocol_error (codes "failed to build capture query: " ++ m))))
            ⊎ ((allowed ≡ true)
                × (from_value (tool_query env call) ≡ ok (tool_query env call))
                × (effects ≡ (capture_one env w (tool_query env call) allow_private_ips).0)
                × (is_protocol_error answer ≡ false)))
  call_tool-answers from_value limiter poisoned now call faithful =
      elim (Bool-cases (try_acquire limiter poisoned now).1) [
        | inr e ↦
            let same = call_tool-refused from_value limiter poisoned now call e in
            (ap (λ r. r.0) same, inl (e, ap (λ r. r.1) same, (_, ap (λ r. r.2) same)))
        | inl e ↦ elim (Result-cases (from_value (tool_query env call))) [
          | inr (m, f) ↦
              let same = call_tool-unread from_value limiter poisoned now call m e f in
              (ap (λ r. r.0) same, inr (inl (e, (m, f, ap (λ r. r.1) same, ap (λ r. r.2) same))))
          | inl (q, f) ↦
              let read = f ∙ ap ok (faithful q f) in
              let same =
                call_tool-allowed from_value limiter poisoned now call (tool_query env call) e
                  read in
              (
                ap (λ r. r.0) same,
                inr (
                    inr (
                      e,
                      read,
                      ap (λ r. r.1) same,
                      ap (λ r. is_protocol_error r.2) same
                          ∙ capture-answers from_value limiter poisoned now call,
                    )),
              )
        ]
      ]
