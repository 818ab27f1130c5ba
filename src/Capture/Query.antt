-- ===== src/Capture/Query.antt =====
-- The request parameters of src/capture.rs, the named profiles and the clamps. The `f64` parameters
-- are only passed on, so their type is a parameter.
use browser_headless.Base.{
  ℕ, ◌≡◌, Bool, true, false, Option, none, some, List, [], arith, Text, ◌==◌, if◌then◌else◌, not,
}
use browser_headless.Config.{Env, default_timeout_ms, clamp_timeout_ms, clamp_settle_ms}

pub data ResponseFormat : Type 0 where
  json markdown : ResponseFormat

-- `DataFormat` and `Lang` of src/browser/mod.rs.
pub data DataFormat : Type 0 where
  html_data text_data markdown_data : DataFormat

pub data Lang : Type 0 where
  en zh : Lang

pub data CaptureProfile : Type 0 where
  content scrape audit lighthouse : CaptureProfile

pub record SummaryQuery (F : Type 0) : Type 0 where
  pub url : Text
  pub timeout_ms : ℕ
  pub screenshot : Bool
  pub data_format : DataFormat
  pub normalize_custom_elements : Option Bool
  pub width : Option ℕ
  pub height : Option ℕ
  pub device_scale_factor : Option F
  pub user_agent : Option Text
  pub accept_language : Option Text
  pub cookie : Option Text
  pub cpu_throttle : Option F
  pub touch : Bool
  pub timezone : Option Text
  pub locale : Option Text
  pub latitude : Option F
  pub longitude : Option F
  pub accuracy : Option F
  pub headers : List (Text × Text)
  pub block_urls : List Text
  pub block_resource_types : List Text
  pub disable_cache : Bool
  pub disable_javascript : Bool
  pub pdf : Bool
  pub har : Bool
  pub save_dom_snapshot : Bool
  pub web_vitals : Bool
  pub metrics : Bool
  pub metadata : Bool
  pub render_blocking : Bool
  pub service_worker : Bool
  pub initiators : Bool
  pub console_messages : Bool
  pub image_sizing : Bool
  pub dom_mutations : Bool
  pub resources : Bool
  pub http_errors : Bool
  pub coverage : Bool
  pub resource_hints : Bool
  pub font_audit : Bool
  pub cookies : Bool
  pub security_scan : Bool
  pub all_metrics : Bool
  pub content_only : Bool
  pub request_id : Option Text
  pub wait_for_element : Option Text
  pub wait_for_function : Option Text
  pub settle_ms : Option ℕ
  pub script : Option Text
  pub capture_element : Option Text
  pub wait_for_request : List Text
  pub wait_until_load : Bool
  pub format : ResponseFormat
  pub lang : Lang
  pub profile : Option CaptureProfile

-- What serde fills in for the fields that a request does not name.
unfoldable pub default_query : {F : Type 0} → Env → Text → SummaryQuery F
default_query env url = record {
  url = url;
  timeout_ms = default_timeout_ms env;
  screenshot = false;
  data_format = html_data;
  normalize_custom_elements = none;
  width = none;
  height = none;
  device_scale_factor = none;
  user_agent = none;
  accept_language = none;
  cookie = none;
  cpu_throttle = none;
  touch = false;
  timezone = none;
  locale = none;
  latitude = none;
  longitude = none;
  accuracy = none;
  headers = [];
  block_urls = [];
  block_resource_types = [];
  disable_cache = false;
  disable_javascript = false;
  pdf = false;
  har = false;
  save_dom_snapshot = false;
  web_vitals = false;
  metrics = false;
  metadata = false;
  render_blocking = false;
  service_worker = false;
  initiators = false;
  console_messages = false;
  image_sizing = false;
  dom_mutations = false;
  resources = false;
  http_errors = false;
  coverage = false;
  resource_hints = false;
  font_audit = false;
  cookies = false;
  security_scan = false;
  all_metrics = false;
  content_only = false;
  request_id = none;
  wait_for_element = none;
  wait_for_function = none;
  settle_ms = none;
  script = none;
  capture_element = none;
  wait_for_request = [];
  wait_until_load = false;
  format = json;
  lang = en;
  profile = none;
}

module _ {F : Type 0} where
  unfoldable pub expand_profile : CaptureProfile → SummaryQuery F → SummaryQuery F
  expand_profile content q = record q { content_only = true; wait_until_load = true }
  expand_profile scrape q = record q {
    content_only = true;
    disable_javascript = true;
    wait_until_load = true;
  }
  expand_profile audit q = record q { all_metrics = true }
  expand_profile lighthouse q = record q { all_metrics = true; coverage = true }

  unfoldable pub apply_profile : SummaryQuery F → SummaryQuery F
  unfolding expand_profile
  apply_profile q = elim q.profile [ none ↦ q | some profile ↦ expand_profile profile q ]

  unfoldable pub apply_clamps : Env → SummaryQuery F → SummaryQuery F
  apply_clamps env q =
      let t = clamp_timeout_ms env q.timeout_ms in
      let q' : SummaryQuery F =
        if not (t == q.timeout_ms) then record q { timeout_ms = t } else q in
      elim q'.settle_ms [
        | none ↦ q'
        | some s ↦
            let c = clamp_settle_ms env s in
            if not (c == s) then record q' { settle_ms = some c } else q'
      ]

  -- After the clamps the timeout and the settle time are the clamped values, whatever the branch.
  pub apply_clamps-fields :
      (env : Env) (q : SummaryQuery F)
      → ((apply_clamps env q).timeout_ms ≡ clamp_timeout_ms env q.timeout_ms)
        × ((apply_clamps env q).settle_ms
            ≡ elim q.settle_ms [ none ↦ none | some s ↦ some (clamp_settle_ms env s) ])
  unfolding apply_clamps
  apply_clamps-fields env q = (ground arith, ground arith)
