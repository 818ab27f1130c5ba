-- ===== src/Examples/Serve.antt =====
-- The HTTP handlers and the MCP tools at concrete requests.
use browser_headless.Base.{
  ℕ, ◌≤◌, ◌<◌, ◌≡◌, ◌≢◌, refl, ap, to_ℕ, ◌⊎◌, arith, Bool, true, false, Option, none, some, [],
  ◌++◌, Text, codes, text_eq, text_eq_iff, length, take, Result, ok, err, sym, ok-injective,
}
use mathlib.Core.Option.{some-injective}
use browser_headless.RateLimit.{Bucket, try_acquire}
use browser_headless.Capture.Query.{Lang, SummaryQuery}
use browser_headless.Capture.Engine.{ContentResponse, capture_one}
use browser_headless.Mcp.{
  ToolCall, fetch_page, tool_error, protocol_error, Shown, resolve_max_chars, max_chars_hard_cap,
  format_fetch_page_result, meta_header, tool_query, call_tool,
}
use browser_headless.Mcp.Answers.{
  format_fetch_page_result-take, is_protocol_error, call_tool-answers,
}
use browser_headless.Http.{
  HeaderMap, AppState, Moment, ApiRequest, get_job, Handled, error_page, redis_jobs, handle,
}
use browser_headless.Http.Guards.{handle-unauthorized}
use browser_headless.Examples.Network.{empty_env, public_url}
use browser_headless.Examples.Captures.{small_world, to_json}
use browser_headless.Examples.Queues.{Server, small_redis, small_codec, small_config, fresh_client}

abbrev short_page : ContentResponse
short_page = record { status = 200; final_url = public_url; char_count = 5; body = codes "hello" }

format_fetch_page_result-take_example :
    (1 ≤ resolve_max_chars (some 3))
    × (resolve_max_chars (some 3) ≤ max_chars_hard_cap)
    × ((truncated : Bool) × (format_fetch_page_result public_url short_page
            (resolve_max_chars (some 3))
          ≡ meta_header public_url short_page (resolve_max_chars (some 3)) truncated
            ++ take (resolve_max_chars (some 3)) (codes "hello"))
        × (((truncated ≡ false)
              × (take (resolve_max_chars (some 3)) (codes "hello") ≡ codes "hello"))
            ⊎ ((truncated ≡ true)
                × (length (take (resolve_max_chars (some 3)) (codes "hello"))
                    ≡ resolve_max_chars (some 3))
                × (resolve_max_chars (some 3) < length (codes "hello")))))
format_fetch_page_result-take_example = format_fetch_page_result-take public_url short_page (some 3)

abbrev small_shown : Shown ℕ
small_shown = record {
  page_signals = λ url stat. [];
  screenshot = λ stat. none;
  report_without_body = λ lang stat. [];
}

-- One token left.
abbrev one_left : Bucket
one_left = record { tokens = 1000000000; capacity = 1000000000; refill_per_sec = 1; last = 0 }

abbrev empty_bucket : Bucket
empty_bucket = record { tokens = 0; capacity = 1000000000; refill_per_sec = 1; last = 0 }

abbrev fetch : ToolCall
fetch = fetch_page (record {
  url = public_url;
  format = none;
  timeout_ms = none;
  wait_for_element = none;
  wait_for_network_idle = none;
  max_chars = none;
})

call_tool-answers_example :
    ((call_tool empty_env small_world false small_shown (λ q. ok q) (some one_left) false 0 fetch).0
      ≡ (try_acquire (some one_left) false 0).0)
    × ((((try_acquire (some one_left) false 0).1 ≡ false)
          × ((call_tool empty_env small_world false small_shown
                (λ q. ok q)
                (some one_left)
                false
                0
                fetch).1
              ≡ [])
          × ((m : Text) × ((call_tool empty_env small_world false small_shown
                  (λ q. ok q)
                  (some one_left)
                  false
                  0
                  fetch).2
                ≡ tool_error m)))
        ⊎ (((try_acquire (some one_left) false 0).1 ≡ true)
            × ((m : Text) × (◌≡◌ {A = Result (SummaryQuery ℕ) Text}
                  (ok (tool_query empty_env fetch))
                  (err m))
                × ((call_tool empty_env small_world false small_shown
                      (λ q. ok q)
                      (some one_left)
                      false
                      0
                      fetch).1
                    ≡ [])
                × ((call_tool empty_env small_world false small_shown
                      (λ q. ok q)
                      (some one_left)
                      false
                      0
                      fetch).2
                    ≡ protocol_error (codes "failed to build capture query: " ++ m))))
        ⊎ (((try_acquire (some one_left) false 0).1 ≡ true)
            × (◌≡◌ {A = Result (SummaryQuery ℕ) Text}
                (ok (tool_query empty_env fetch))
                (ok (tool_query empty_env fetch)))
            × ((call_tool empty_env small_world false small_shown
                  (λ q. ok q)
                  (some one_left)
                  false
                  0
                  fetch).1
                ≡ (capture_one empty_env small_world (tool_query empty_env fetch) false).0)
            × (is_protocol_error
                  (call_tool empty_env small_world false small_shown
                    (λ q. ok q)
                    (some one_left)
                    false
                    0
                    fetch).2
                ≡ false)))
call_tool-answers_example =
    call_tool-answers empty_env small_world false small_shown (λ q. ok q) (some one_left) false 0
      fetch (λ q e. sym (ok-injective e))

abbrev secret : Text
secret = codes "s3cret"

-- The header of a caller that guesses.
abbrev guess : HeaderMap
guess name = some (codes "guess")

guess_wrong : guess (codes "x-api-key") ≢ some secret
unfolding text_eq codes
guess_wrong h = absurd (
    omega (
      arith,
      ap to_ℕ ((text_eq_iff (codes "guess") secret).1 (some-injective (codes "guess") secret h)),
    ))

abbrev state : Option Text → Bucket → AppState Server ℕ
state key bucket = record {
  api_key = key;
  rate_limiter = some bucket;
  jobs = some (redis_jobs fresh_client);
}

abbrev pub noon : Moment
noon = record { nanos = 0; millis = 0; poisoned = false; uuid = codes "a" }

abbrev pub soon : Moment
soon = record { nanos = 0; millis = 5; poisoned = false; uuid = codes "b" }

abbrev small_markdown : Lang → ℕ → Text
small_markdown lang stat = []

abbrev small_handle : AppState Server ℕ → HeaderMap → ApiRequest ℕ → Handled Server ℕ ℕ ℕ
small_handle st headers request =
    handle empty_env small_redis small_codec small_config text_eq false (λ i. small_world) to_json
      small_markdown st headers noon request

handle-unauthorized_example :
    (m : Text) × (small_handle (state (some secret) one_left) guess (get_job (codes "a"))
      ≡ (state (some secret) one_left, [], error_page 401 m))
handle-unauthorized_example =
    handle-unauthorized empty_env small_redis small_codec small_config text_eq false
      (λ i. small_world) to_json small_markdown text_eq_iff (state (some secret) one_left) secret
      guess noon (get_job (codes "a")) refl guess_wrong
