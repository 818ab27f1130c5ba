-- ===== src/Browser/Collect/Finish.antt =====
-- The end of `collect_summary` of src/browser/mod.rs: the snapshot from what the loop collected.
pub mod Stat
pub use browser_headless.Browser.Collect.Finish.Stat.{
  JsExceptionCount, JsExceptions, FailedRequest, HttpErrors, SecurityScan, WebPageStat,
}
use browser_headless.Base.{
  ℕ, ◌+◌, Bool, true, false, not, ◌&&◌, Option, none, some, List, [], map, Text, text_eq, leb, ltb,
  ◌==◌, if◌then◌else◌, is_empty, any, length, take, keep, sum, unwrap_or, Result, ok, err, ◌>>=◌,
}
use browser_headless.Base.Dicts.{Dict, lookup, retain}
use browser_headless.Base.Int.{le_ℤ}
use browser_headless.Base.Sorting.{sort_by, text_le}
use browser_headless.Error.{BrowserError}
use browser_headless.Browser.Resource.{ParsedUrl, WebPageResource, Cookie}
use browser_headless.Browser.Security.{CorsIssue}
use browser_headless.Browser.Security.Audit.{SecurityAudit, build_security_audit}
use browser_headless.Browser.Summary.Report.{ResourceSummary, no_summary, build_resource_summary}
use browser_headless.Browser.Coverage.{ScriptCoverage}
use browser_headless.Browser.Coverage.Report.{CssRuleUsage, CoverageReport, coverage_report}
use browser_headless.Browser.Collect.State.{
  CollectCaptures, TlsInfo, NetworkFailure, DocumentTiming, Progress, Collect,
}
use browser_headless.Browser.Collect.Lean.{lean_to_ms, to_ms}

-- The literal at the end of `collect_summary_lean`; `SecurityAudit::default()` is `none`.
unfoldable pub lean_stat : {Doc : Type 0} → Progress → WebPageStat Doc
unfolding lean_to_ms
lean_stat p = record {
  total_size = 0;
  resource_count = 0;
  fcp_time = lean_to_ms p.init_ts p.fcp_ts;
  dcl_time = lean_to_ms p.init_ts p.dcl_ts;
  load_time = lean_to_ms p.init_ts p.load_ts;
  body = [];
  exceptions = [];
  js_exceptions = record { total = 0; by_name = [] };
  console_messages = [];
  resources = [];
  cookies = [];
  screenshot = none;
  pdf = none;
  har = none;
  dom_snapshot = none;
  web_vitals = none;
  metrics = none;
  resource_summary = no_summary;
  metadata = none;
  render_blocking_resources = none;
  security_headers = none;
  security_audit = none;
  service_worker = none;
  tls_info = none;
  tls_certificates = [];
  image_sizing = none;
  image_audit = none;
  font_audit = none;
  security_scan = none;
  dom_mutations = none;
  http_errors = none;
  coverage = none;
  document_timing = p.document_timing;
}

unfoldable pub is_kept : List Text → WebPageResource → Bool
is_kept quick_abort_ids r = not (is_empty r.url) && not (any (text_eq r.request_id) quick_abort_ids)

-- `map.into_values().collect()`.
abbrev pub values {ℓ} : {V : Type ℓ} → Dict V → List V
values m = map (λ e. e.1) m

unfoldable pub kept_resources : Collect → List WebPageResource
unfolding is_kept
kept_resources c = values (retain (is_kept c.quick_abort_ids) c.resources)

-- By count, the most first, and then by name.
unfoldable pub exception_before : JsExceptionCount → JsExceptionCount → Bool
unfolding text_le
exception_before a b = if a.count == b.count then text_le a.name b.name else ltb b.count a.count

abbrev pub class_entry : Text × (ℕ × Option Text) → JsExceptionCount
class_entry e = record { name = e.0; count = (e.1).0; sample_message = (e.1).1 }

unfoldable pub build_js_exceptions : Collect → JsExceptions
unfolding exception_before sort_by
build_js_exceptions c = record {
  total = length c.exceptions;
  by_name = take 10 (sort_by exception_before (map class_entry c.exception_buckets));
}

unfoldable pub failed_request : Collect → WebPageResource → FailedRequest
failed_request c r = record {
  url = r.url;
  status = r.status;
  resource_type = unwrap_or (lookup r.request_id c.http_resource_types) [];
}

abbrev pub is_4xx : WebPageResource → Bool
is_4xx r = leb 400 r.status && ltb r.status 500

abbrev pub is_5xx : WebPageResource → Bool
is_5xx r = leb 500 r.status && ltb r.status 600

unfoldable pub build_http_errors : Collect → List WebPageResource → HttpErrors
unfolding failed_request
build_http_errors c resources =
    let failed_4xx = map (failed_request c) (keep is_4xx resources) in
    let failed_5xx = map (failed_request c) (keep is_5xx resources) in
    record {
      failed_count = length failed_4xx + length failed_5xx + length c.http_network_failures;
      failed_4xx = failed_4xx;
      failed_5xx = failed_5xx;
      network_failures = c.http_network_failures;
      final_url = c.http_final_url;
      redirect_count = c.http_redirect_count;
    }

-- The soonest to expire first, and then by host.
unfoldable pub expires_before : TlsInfo → TlsInfo → Bool
unfolding le_ℤ text_le
expires_before a b =
    if le_ℤ a.days_remaining b.days_remaining && le_ℤ b.days_remaining a.days_remaining
    then text_le a.host b.host
    else le_ℤ a.days_remaining b.days_remaining

-- What the browser answers after the loop.
pub record FinalReads (Doc : Type 0) : Type 0 where
  pub cookies : Result (List Cookie) BrowserError
  pub screenshot : Result Doc BrowserError
  pub js_coverage : Result (List ScriptCoverage) BrowserError
  pub css_coverage : Result (List CssRuleUsage) BrowserError

unfoldable pub read_when {ℓ} :
    {A : Type ℓ} → Bool → Result A BrowserError → Result (Option A) BrowserError
read_when false r = ok none
read_when true (ok a) = ok (some a)
read_when true (err e) = err e

unfoldable pub read_coverage :
    {Doc : Type 0} → Bool → FinalReads Doc → Collect → Result (Option CoverageReport) BrowserError
read_coverage false reads c = ok none
read_coverage true reads c = reads.js_coverage >>= λ scripts.
    (reads.css_coverage >>= λ rules. ok (some (coverage_report scripts rules c.stylesheet_meta)))

module _ {Doc : Type 0} (parse : Text → Option ParsedUrl) (captures : CollectCaptures)
    (url : Text) where
  unfoldable pub full_stat :
      Collect → List Cookie → Option Doc → Option CoverageReport → WebPageStat Doc
  unfolding to_ms kept_resources build_js_exceptions build_http_errors expires_before sort_by
  full_stat c cookies screenshot coverage =
      let resources = kept_resources c in
      let p = c.progress in
      record {
        total_size = sum (map (λ r. r.content_size) resources);
        resource_count = length resources;
        fcp_time = to_ms p.init_ts p.fcp_ts;
        dcl_time = to_ms p.init_ts p.dcl_ts;
        load_time = to_ms p.init_ts p.load_ts;
        body = [];
        exceptions = c.exceptions;
        js_exceptions = build_js_exceptions c;
        console_messages = c.console_messages;
        resources = if captures.free_resources then [] else resources;
        cookies = cookies;
        screenshot = screenshot;
        pdf = none;
        har = none;
        dom_snapshot = none;
        web_vitals = none;
        metrics = none;
        resource_summary = build_resource_summary parse resources url;
        metadata = none;
        render_blocking_resources = none;
        security_headers = c.security_headers;
        security_audit = some (build_security_audit c.security_headers cookies);
        service_worker = none;
        tls_info = c.tls_info;
        tls_certificates = sort_by expires_before (values c.tls_by_host);
        image_sizing = none;
        image_audit = none;
        font_audit = none;
        security_scan = none;
        dom_mutations = none;
        http_errors = if captures.http_errors then some (build_http_errors c resources) else none;
        coverage = coverage;
        document_timing = p.document_timing;
      }

  -- Cookies, screenshot and coverage are read in this order, each if it is asked for.
  unfoldable pub finish : FinalReads Doc → Collect → Result (WebPageStat Doc) BrowserError
  unfolding read_when read_coverage full_stat
  finish reads c = do
    cookies ← read_when captures.cookies reads.cookies
    screenshot ← read_when captures.screenshot reads.screenshot
    coverage ← read_coverage captures.coverage reads c
    ok (full_stat c (unwrap_or cookies []) screenshot coverage)
