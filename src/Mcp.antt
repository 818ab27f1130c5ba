-- ===== src/Mcp.antt =====
-- src/mcp.rs: the tools that an agent calls. What the tools read of a page snapshot beside its body is
-- a parameter.
pub mod Answers
use browser_headless.Base.{
  map_err, ℕ, ◌+◌, Bool, true, false, not, Option, none, some, List, [], ◌∷◌, ◌++◌, Text, codes,
  text_eq, show_ℕ, ltb, leb, ◌==◌, if◌then◌else◌, min, max, unwrap_or, length, take, Result, ok,
  err,
}
use browser_headless.Config.{Env}
use browser_headless.Error.{CaptureError, status_u16}
use browser_headless.RateLimit.{RateLimiter, try_acquire}
use browser_headless.Capture.Query.{
  SummaryQuery, default_query, DataFormat, html_data, text_data, markdown_data, Lang, en, zh, audit,
}
use browser_headless.Capture.Engine.{
  ContentResponse, Captured, content, full, Effect, World, capture_one,
}

abbrev pub default_max_chars : ℕ
default_max_chars = 30_000

abbrev pub max_chars_hard_cap : ℕ
max_chars_hard_cap = 200_000

pub data PageFormat : Type 0 where
  markdown text html : PageFormat

-- The name that serde reads back as the query's `data_format`.
unfoldable pub data_format_of : PageFormat → DataFormat
data_format_of markdown = markdown_data
data_format_of text = text_data
data_format_of html = html_data

pub data AuditLang : Type 0 where
  audit_en audit_zh : AuditLang

pub record FetchPageArgs : Type 0 where
  pub url : Text
  pub format : Option PageFormat
  pub timeout_ms : Option ℕ
  pub wait_for_element : Option Text
  pub wait_for_network_idle : Option Bool
  pub max_chars : Option ℕ

pub record ScreenshotArgs : Type 0 where
  pub url : Text
  pub width : Option ℕ
  pub height : Option ℕ
  pub timeout_ms : Option ℕ

pub record PageAuditArgs : Type 0 where
  pub url : Text
  pub lang : Option AuditLang
  pub timeout_ms : Option ℕ

pub record PageSignalsArgs : Type 0 where
  pub url : Text
  pub timeout_ms : Option ℕ
  pub wait_for_network_idle : Option Bool

-- A tool's result, a tool-level error, or a protocol error.
pub data ToolAnswer : Type 0 where
  text_block : Text → ToolAnswer
  image_block : Text → Text → ToolAnswer
  tool_error : Text → ToolAnswer
  protocol_error : Text → ToolAnswer

unfoldable pub resolve_max_chars : Option ℕ → ℕ
resolve_max_chars requested = max 1 (min (unwrap_or requested default_max_chars) max_chars_hard_cap)

unfoldable pub truncate_chars : Text → ℕ → Text × Bool
truncate_chars s limit = if leb (length s) limit then (s, false) else (take limit s, true)

unfoldable pub show_bool : Bool → Text
show_bool true = codes "true"
show_bool false = codes "false"

abbrev pub line_end : Text
line_end = 10 ∷ []

unfoldable pub note_when : Bool → Text → Text
note_when true note = note ++ line_end
note_when false note = []

-- The header of `format_fetch_page_result`, up to and with the empty line.
unfoldable pub meta_header : Text → ContentResponse → ℕ → Bool → Text
unfolding show_bool note_when
meta_header requested_url c limit truncated =
    codes "status: "
    ++ (show_ℕ c.status
        ++ (line_end
            ++ (codes "final_url: "
                ++ (c.final_url
                    ++ (line_end
                        ++ (codes "char_count: "
                            ++ (show_ℕ c.char_count
                                ++ (line_end
                                    ++ (codes "truncated: "
                                        ++ (show_bool truncated
                                            ++ (line_end
                                                ++ (note_when truncated (
                                                      codes "truncated_note: body truncated to "
                                                      ++ (show_ℕ limit
                                                          ++ (codes " Unicode scalars (of "
                                                            ++ (show_ℕ c.char_count
                                                            ++ (codes "); raise max_chars (cap "
                                                            ++ (show_ℕ max_chars_hard_cap
                                                            ++ codes
                                                            ") or re-fetch a narrower page section with wait_for_element if needed"))))))
                                                    ++ (note_when (not (c.status == 200)) (
                                                          codes "warning: non-200 HTTP status "
                                                          ++ show_ℕ c.status)
                                                        ++ (note_when
                                                            (not
                                                            (text_eq c.final_url requested_url))
                                                            (codes
                                                            "warning: URL redirected (final_url differs from request)")
                                                            ++ (note_when (c.char_count == 0) (
                                                            codes
                                                            "warning: empty body — page may be blocked, bot-walled, or failed to render")
                                                            ++ line_end)))))))))))))))

unfoldable pub format_fetch_page_result : Text → ContentResponse → ℕ → Text
unfolding truncate_chars meta_header
format_fetch_page_result requested_url c limit =
    let (body, truncated) = truncate_chars c.body limit in
    meta_header requested_url c limit truncated ++ body

unfoldable pub capture_error : CaptureError → ToolAnswer
capture_error e =
    tool_error
      (codes "capture failed (HTTP " ++ (show_ℕ (status_u16 e) ++ (codes "): " ++ e.message)))

-- What the tools show of a snapshot: `build_page_signals_json` printed, the screenshot's data and MIME
-- type, and the report with the body replaced by a note.
pub record Shown (Stat : Type 0) : Type 0 where
  pub page_signals : Text → Stat → Text
  pub screenshot : Stat → Option (Text × Text)
  pub report_without_body : Lang → Stat → Text

unfoldable pub with_timeout : {F : Type 0} → Option ℕ → SummaryQuery F → SummaryQuery F
with_timeout none q = q
with_timeout (some t) q = record q { timeout_ms = t }

module _ {F : Type 0} (env : Env) where
  unfoldable pub fetch_page_query : FetchPageArgs → SummaryQuery F
  unfolding with_timeout default_query data_format_of
  fetch_page_query args = with_timeout args.timeout_ms (record (default_query env args.url) {
    content_only = true;
    data_format = data_format_of (unwrap_or args.format markdown);
    wait_until_load = not (unwrap_or args.wait_for_network_idle false);
    wait_for_element = args.wait_for_element;
  })

  unfoldable pub page_signals_query : PageSignalsArgs → SummaryQuery F
  unfolding with_timeout default_query
  page_signals_query args = with_timeout args.timeout_ms (record (default_query env args.url) {
    wait_until_load = not (unwrap_or args.wait_for_network_idle false);
    http_errors = true;
    web_vitals = true;
    metadata = true;
    metrics = true;
    data_format = text_data;
  })

  unfoldable pub screenshot_query : ScreenshotArgs → SummaryQuery F
  unfolding with_timeout default_query
  screenshot_query args = with_timeout args.timeout_ms (record (default_query env args.url) {
    screenshot = true;
    width = args.width;
    height = args.height;
  })

  unfoldable pub page_audit_query : PageAuditArgs → SummaryQuery F
  unfolding with_timeout default_query
  page_audit_query args =
      with_timeout args.timeout_ms (record (default_query env args.url) { profile = some audit })

pub data ToolCall : Type 0 where
  fetch_page : FetchPageArgs → ToolCall
  page_signals : PageSignalsArgs → ToolCall
  screenshot : ScreenshotArgs → ToolCall
  page_audit : PageAuditArgs → ToolCall

module _ {F : Type 0} (env : Env) where
  unfoldable pub tool_query : ToolCall → SummaryQuery F
  unfolding fetch_page_query page_signals_query screenshot_query page_audit_query
  tool_query (fetch_page args) = fetch_page_query env args
  tool_query (page_signals args) = page_signals_query env args
  tool_query (screenshot args) = screenshot_query env args
  tool_query (page_audit args) = page_audit_query env args

-- The tool's fields, read as a query; a failure ends the call with a protocol error.
unfoldable pub build_query :
    {F : Type 0}
    → (SummaryQuery F → Result (SummaryQuery F) Text)
    → SummaryQuery F
    → Result (SummaryQuery F) ToolAnswer
build_query from_value fields =
    map_err (λ e. protocol_error (codes "failed to build capture query: " ++ e)) (from_value fields)

unfoldable pub lang_of : Option AuditLang → Lang
lang_of none = en
lang_of (some audit_en) = en
lang_of (some audit_zh) = zh

unfoldable pub show_shot : Option (Text × Text) → ToolAnswer
show_shot none = tool_error (codes "page loaded but no screenshot was produced")
show_shot (some (image, mime_type)) = image_block image mime_type

module _ {F Url Stat : Type 0} (env : Env) (w : World F Url Stat) (allow_private_ips : Bool)
    (shown : Shown Stat) where
  -- The match on the capture's answer that ends each tool.
  unfoldable pub tool_answer : ToolCall → Result (Captured Stat) CaptureError → ToolAnswer
  unfolding format_fetch_page_result resolve_max_chars capture_error lang_of show_shot
  tool_answer call (err e) = capture_error e
  tool_answer (fetch_page args) (ok (content c)) =
      text_block (format_fetch_page_result args.url c (resolve_max_chars args.max_chars))
  tool_answer (fetch_page args) (ok (full stat)) =
      protocol_error (codes "unexpected full capture result for content-only query")
  tool_answer (page_signals args) (ok (full stat)) = text_block (shown.page_signals args.url stat)
  tool_answer (page_signals args) (ok (content c)) =
      protocol_error (codes "unexpected content-only result for page_signals query")
  tool_answer (screenshot args) (ok (full stat)) = show_shot (shown.screenshot stat)
  tool_answer (screenshot args) (ok (content c)) =
      protocol_error (codes "unexpected content-only result for screenshot query")
  tool_answer (page_audit args) (ok (full stat)) =
      text_block (shown.report_without_body (lang_of args.lang) stat)
  tool_answer (page_audit args) (ok (content c)) =
      protocol_error (codes "unexpected content-only result for audit query")

  -- A call of a tool: the limiter, the query read back by `from_value`, which is serde's, the capture's effects,
  -- and the answer.
  unfoldable pub call_tool :
      (SummaryQuery F → Result (SummaryQuery F) Text)
      → RateLimiter
      → Bool
      → ℕ
      → ToolCall
      → RateLimiter × List (Effect F) × ToolAnswer
  unfolding tool_query build_query tool_answer
  call_tool from_value limiter poisoned now call =
      let (limiter', allowed) = try_acquire limiter poisoned now in
      if allowed
      then (elim (build_query from_value (tool_query env call)) [
        | err answer ↦ (limiter', [], answer)
        | ok q ↦
            let (effects, answer) = capture_one env w q allow_private_ips in
            (limiter', effects, tool_answer call answer)
      ])
      else (limiter', [], tool_error (codes "rate limit exceeded (HTTP 429): retry later"))
