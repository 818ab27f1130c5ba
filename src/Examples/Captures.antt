-- ===== src/Examples/Captures.antt =====
-- Captures and batches at concrete inputs.
use browser_headless.Base.{
  ℕ, ◌+◌, ◌≤◌, ◌<◌, ◌≡◌, refl, arith, true, false, ◌&&◌, is_some, none, some, [], ◌∷◌, Text, codes,
  text_eq, get_elem?, Result, ok, any, ◌==◌,
}
use browser_headless.Config.{
  clamp_timeout_ms, deadline_buffer_ms, disable_script, env_bool, max_timeout_ms, env_u64,
}
use browser_headless.Ssrf.{check_url, check_host, is_blocked_ipv4}
use browser_headless.Ssrf.Guard.{IsReachable}
use browser_headless.Capture.Query.{
  SummaryQuery, json, html_data, en, audit, apply_profile, apply_clamps,
}
use browser_headless.Capture.Request.{SummaryRequest, build_request}
use browser_headless.Capture.Engine.{
  Captured, browse, World, prepare, capture_one_unmetered, admit, validate_url, check_ssrf,
  with_slot,
}
use browser_headless.Capture.Safety.{
  Effects, IsHttp, capture_one_unmetered-Effects, browse-checked, browse-IsReachable,
}
use browser_headless.Capture.Batch.{BatchQuery, batch_item, run_batch}
use browser_headless.Capture.Batch.Order.{items_from, run_batch-items_from}
use browser_headless.Examples.Network.{empty_env, small_net, public_url, internal_url}

-- A query with the defaults.
abbrev pub plain_query : Text → SummaryQuery ℕ
plain_query url = record {
  url = url;
  timeout_ms = 30000;
  screenshot = false;
  data_format = html_data;
  normalize_custom_elements = none;
  width = none;
  height = none;
  device_scale_factor = none;
  user_agent = none;
  accept_language = none;
  cookie = none;
  cpu_throttle = none;
  touch = false;
  timezone = none;
  locale = none;
  latitude = none;
  longitude = none;
  accuracy = none;
  headers = [];
  block_urls = [];
  block_resource_types = [];
  disable_cache = false;
  disable_javascript = false;
  pdf = false;
  har = false;
  save_dom_snapshot = false;
  web_vitals = false;
  metrics = false;
  metadata = false;
  render_blocking = false;
  service_worker = false;
  initiators = false;
  console_messages = false;
  image_sizing = false;
  dom_mutations = false;
  resources = false;
  http_errors = false;
  coverage = false;
  resource_hints = false;
  font_audit = false;
  cookies = false;
  security_scan = false;
  all_metrics = false;
  content_only = false;
  request_id = none;
  wait_for_element = none;
  wait_for_function = none;
  settle_ms = none;
  script = none;
  capture_element = none;
  wait_for_request = [];
  wait_until_load = false;
  format = json;
  lang = en;
  profile = none;
}

-- A pool with a free slot and a browser that answers at once.
abbrev pub small_world : World ℕ Text ℕ
small_world = record {
  net = small_net;
  hundred = 100;
  checkout = record { after_ms = 0; answer = true };
  capture = λ r. record { after_ms = 5; answer = ok r.timeout };
  document_timing = λ stat. none;
  stat_data = λ stat. [];
}

abbrev public_request : SummaryRequest ℕ
public_request = build_request 100 (prepare empty_env small_world (plain_query public_url)) false

capture_one_unmetered-Effects_example :
    Effects empty_env small_world
      (plain_query public_url)
      false
      1000
      (capture_one_unmetered empty_env small_world (plain_query public_url) false 1000)
capture_one_unmetered-Effects_example =
    capture_one_unmetered-Effects empty_env small_world (plain_query public_url) false 1000

browsed :
    get_elem? (capture_one_unmetered empty_env small_world (plain_query public_url) false 1000).0 1
    ≡ some (browse public_request (30000 + deadline_buffer_ms empty_env))
unfolding capture_one_unmetered with_slot admit disable_script env_bool validate_url text_eq codes
    check_ssrf check_url check_host apply_clamps clamp_timeout_ms max_timeout_ms env_u64
    apply_profile is_blocked_ipv4
browsed = refl

browse-checked_example :
    (url : Text) × (small_net.parse public_request.url ≡ ok url)
    × IsHttp empty_env small_world url
    × (public_request.url ≡ public_url)
    × (public_request.timeout ≡ clamp_timeout_ms empty_env 30000)
    × (1 ≤ public_request.timeout)
    × (30000 + deadline_buffer_ms empty_env ≡ public_request.timeout + deadline_buffer_ms empty_env)
    × ((disable_script empty_env && is_some public_request.script) ≡ false)
    × (public_request.ssrf_guard ≡ true)
browse-checked_example =
    browse-checked empty_env small_world (plain_query public_url) false 1000 1
      (30000 + deadline_buffer_ms empty_env) public_request browsed

browse-IsReachable_example : IsReachable small_net public_url
unfolding build_request prepare apply_clamps apply_profile codes clamp_timeout_ms max_timeout_ms
    env_u64
browse-IsReachable_example =
    browse-IsReachable empty_env small_world (plain_query public_url) 1000 1
      (30000 + deadline_buffer_ms empty_env) public_request public_url browsed refl

abbrev audit_query : SummaryQuery ℕ
audit_query = record (plain_query public_url) { profile = some audit }

abbrev pub two_urls : BatchQuery ℕ
two_urls = record { urls = internal_url ∷ public_url ∷ []; base = plain_query [] }

abbrev pub to_json : Captured ℕ → Result ℕ Text
to_json c = ok 1

run_batch-items_from_example :
    run_batch empty_env false (λ i. small_world) to_json two_urls (1 ∷ 0 ∷ [])
    ≡ some (
        items_from
          (batch_item empty_env false (λ i. small_world) to_json two_urls.base)
          0
          two_urls.urls)
run_batch-items_from_example =
    run_batch-items_from empty_env false (λ i. small_world) to_json two_urls (1 ∷ 0 ∷ []) both
  where
    both : (j : ℕ) → j < 2 → any (λ idx. idx == j) (1 ∷ 0 ∷ []) ≡ true
    both j h = ground arith
