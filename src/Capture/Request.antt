-- ===== src/Capture/Request.antt =====
-- `SummaryRequest` of src/browser/mod.rs, and how `capture_one_unmetered` of src/capture.rs fills it
-- in from the query.
use browser_headless.Base.{
  ℕ, Bool, true, ◌&&◌, ◌||◌, not, Option, none, some, List, [], Text, unwrap_or,
}
use browser_headless.Capture.Query.{SummaryQuery, DataFormat}
use browser_headless.Capture.Cookies.{parse_cookie_header}

pub record Geolocation (F : Type 0) : Type 0 where
  pub latitude : F
  pub longitude : F
  pub accuracy : F

-- Durations are in milliseconds.
pub record SummaryRequest (F : Type 0) : Type 0 where
  pub url : Text
  pub timeout : ℕ
  pub screenshot : Bool
  pub wait_for_request : List Text
  pub wait_until_load : Bool
  pub width : Option ℕ
  pub height : Option ℕ
  pub device_scale_factor : Option F
  pub user_agent : Option Text
  pub accept_language : Option Text
  pub cookies : List (Text × Text)
  pub timezone : Option Text
  pub locale : Option Text
  pub geolocation : Option (Geolocation F)
  pub cpu_throttle : Option F
  pub touch : Bool
  pub headers : List (Text × Text)
  pub block_urls : List Text
  pub block_resource_types : List Text
  pub ssrf_guard : Bool
  pub disable_cache : Bool
  pub wait_for_element : Option Text
  pub wait_for_function : Option Text
  pub settle : Option ℕ
  pub script : Option Text
  pub capture_element : Option Text
  pub data_format : DataFormat
  pub normalize_custom_elements : Bool
  pub disable_javascript : Bool
  pub pdf : Bool
  pub har : Bool
  pub save_dom_snapshot : Bool
  pub web_vitals : Bool
  pub metrics : Bool
  pub metadata : Bool
  pub render_blocking : Bool
  pub service_worker : Bool
  pub initiators : Bool
  pub console_messages : Bool
  pub image_sizing : Bool
  pub dom_mutations : Bool
  pub resources : Bool
  pub http_errors : Bool
  pub coverage : Bool
  pub resource_hints : Bool
  pub font_audit : Bool
  pub security_scan : Bool
  pub collect_cookies : Bool
  pub content_only : Bool

module _ {F : Type 0} (hundred : F) where
  -- Both coordinates are needed; the accuracy defaults to 100.0, which is `hundred`.
  unfoldable pub geolocation_of : SummaryQuery F → Option (Geolocation F)
  geolocation_of q = elim q.latitude [
    | none ↦ none
    | some lat ↦ elim q.longitude [
      | none ↦ none
      | some long ↦
          some
            (record { latitude = lat; longitude = long; accuracy = unwrap_or q.accuracy hundred })
    ]
  ]

  unfoldable pub build_request : SummaryQuery F → Bool → SummaryRequest F
  build_request q allow_private_ips =
      let lean = q.content_only in
      let analytical = λ (flag : Bool). not lean && (flag || q.all_metrics) in
      record {
        url = q.url;
        timeout = q.timeout_ms;
        screenshot = q.screenshot && not lean;
        wait_for_request = q.wait_for_request;
        wait_until_load = q.wait_until_load;
        width = q.width;
        height = q.height;
        device_scale_factor = q.device_scale_factor;
        user_agent = q.user_agent;
        accept_language = q.accept_language;
        cookies = elim q.cookie [ none ↦ [] | some header ↦ parse_cookie_header header ];
        timezone = q.timezone;
        locale = q.locale;
        geolocation = geolocation_of q;
        cpu_throttle = q.cpu_throttle;
        touch = q.touch;
        headers = q.headers;
        block_urls = q.block_urls;
        block_resource_types = q.block_resource_types;
        ssrf_guard = not allow_private_ips;
        disable_cache = q.disable_cache;
        wait_for_element = q.wait_for_element;
        wait_for_function = q.wait_for_function;
        settle = q.settle_ms;
        script = q.script;
        capture_element = q.capture_element;
        data_format = q.data_format;
        normalize_custom_elements = unwrap_or q.normalize_custom_elements true;
        disable_javascript = q.disable_javascript;
        pdf = q.pdf && not lean;
        har = q.har && not lean;
        save_dom_snapshot = q.save_dom_snapshot && not lean;
        web_vitals = analytical q.web_vitals;
        metrics = analytical q.metrics;
        metadata = analytical q.metadata;
        render_blocking = analytical q.render_blocking;
        service_worker = analytical q.service_worker;
        initiators = analytical q.initiators;
        console_messages = analytical q.console_messages;
        image_sizing = analytical q.image_sizing;
        dom_mutations = analytical q.dom_mutations;
        resources = analytical q.resources;
        http_errors = analytical q.http_errors;
        coverage = q.coverage && not lean;
        resource_hints = analytical q.resource_hints;
        font_audit = analytical q.font_audit;
        security_scan = analytical q.security_scan;
        collect_cookies = analytical q.cookies;
        content_only = lean;
      }
