-- ===== src/Browser/Session/Commands.antt =====
-- The commands of a capture, in order, and the overrides that are applied before navigation (the `apply_*` functions,
-- `set_cookies` and `set_cache_disabled` of src/browser/mod.rs). Each override is the command that it sends, if any.
use browser_headless.Base.{
  ℕ, Bool, true, false, not, ◌||◌, Option, none, some, List, [], ◌∷◌, ◌++◌, map, Text, codes,
  is_empty, is_some, unwrap_or,
}
use browser_headless.Error.{BrowserError}
use browser_headless.Capture.Request.{SummaryRequest, Geolocation}
use browser_headless.Browser.Intercept.{ResourceType, blocked_types, patterns}

pub data Setting (F : Type 0) : Type 0 where
  viewport : ℕ → ℕ → F → Setting F
  touch_emulation : Setting F
  user_agent : Text → Option Text → Setting F
  extra_headers : List (Text × Text) → Setting F
  timezone : Text → Setting F
  locale : Text → Setting F
  geolocation : Geolocation F → Setting F
  cookies : List (Text × Text) → Text → Setting F
  cache_disabled : Setting F
  blocked_urls : List Text → Setting F
  interception : List ResourceType → Setting F
  javascript_disabled : Setting F
  cpu_throttle : F → Setting F
  observers : Bool → Bool → Setting F
  performance : Setting F
  coverage_tracking : Setting F

-- The reads of the format stage and of the end of collect.
pub data Part : Type 0 where
  html property text normalized pdf dom_snapshot web_vitals dom_mutations metrics metadata : Part
  render_blocking service_worker image_sizing resource_hints font_audit security_scan : Part

pub data Command (F : Type 0) : Type 0 where
  create_context new_page : Command F
  apply : Setting F → Command F
  goto : Text → Command F
  poll_element poll_function evaluate : Text → Command F
  sleep : ℕ → Command F
  read : Part → Command F
  close_page : Command F
  dispose_context : Text → Command F

-- Not finished yet, or an error, or an answer.
pub data Answer {ℓ} (A : Type ℓ) : Type ℓ where
  pending : Answer A
  failed : BrowserError → Answer A
  done : A → Answer A

-- The commands sent so far, and the answer.
abbrev pub Ran {ℓ} : Type 0 → Type ℓ → Type ℓ
Ran F A = List (Command F) × Answer A

unfoldable pub after {ℓ κ} :
    {F : Type 0} {A : Type ℓ} {B : Type κ} → Answer A → (A → Ran F B) → Ran F B
after pending next = ([], pending)
after (failed e) next = ([], failed e)
after (done a) next = next a

infixl 5 ◌>>=◌
unfoldable pub ◌>>=◌ {ℓ κ} :
    {F : Type 0} {A : Type ℓ} {B : Type κ} → Ran F A → (A → Ran F B) → Ran F B
unfolding after
(log, answer) >>= next = (log ++ (after answer next).0, (after answer next).1)

abbrev pub when {ℓ} : {A : Type ℓ} → Bool → A → List A
when true a = a ∷ []
when false a = []

abbrev pub from_option {ℓ κ} : {A : Type ℓ} {B : Type κ} → (A → B) → Option A → List B
from_option f none = []
from_option f (some a) = f a ∷ []

unfoldable pub apply_request_interception : {F : Type 0} → SummaryRequest F → List (Setting F)
apply_request_interception req =
    from_option interception (patterns (blocked_types req.block_resource_types) req.ssrf_guard)

-- Parameters: the f64 1.0 and the test `r > 1.0`.
module _ {F : Type 0} (default_scale : F) (above_one : F → Bool) (default_user_agent : Text) where
  unfoldable pub apply_viewport : SummaryRequest F → List (Setting F)
  apply_viewport req =
      when (is_some req.width || is_some req.height || is_some req.device_scale_factor) (
        viewport (unwrap_or req.width 1920) (unwrap_or req.height 1080)
          (unwrap_or req.device_scale_factor default_scale))

  -- Always sent.
  unfoldable pub apply_user_agent : SummaryRequest F → List (Setting F)
  apply_user_agent req =
      user_agent (unwrap_or req.user_agent default_user_agent) req.accept_language ∷ []

  unfoldable pub apply_cpu_throttle : Option F → List (Setting F)
  apply_cpu_throttle none = []
  apply_cpu_throttle (some r) = when (above_one r) (cpu_throttle r)

  unfoldable pub earlier_settings : SummaryRequest F → List (Setting F)
  unfolding apply_viewport apply_user_agent
  earlier_settings req =
      apply_viewport req
      ++ (when req.touch touch_emulation
          ++ (apply_user_agent req
              ++ (when (not (is_empty req.headers)) (extra_headers req.headers)
                  ++ (from_option timezone req.timezone
                      ++ (from_option locale req.locale
                          ++ (from_option geolocation req.geolocation
                              ++ (when (not (is_empty req.cookies)) (cookies req.cookies req.url)
                                  ++ (when req.disable_cache cache_disabled
                                      ++ when (not (is_empty req.block_urls)) (
                                          blocked_urls (
                                            map (λ p. codes "*" ++ (p ++ codes "*"))
                                              req.block_urls))))))))))

  unfoldable pub later_settings : SummaryRequest F → List (Setting F)
  unfolding apply_cpu_throttle
  later_settings req =
      when req.disable_javascript javascript_disabled
      ++ (apply_cpu_throttle req.cpu_throttle
          ++ (when (req.web_vitals || req.dom_mutations)
                (observers req.web_vitals req.dom_mutations)
              ++ (when req.metrics performance ++ when req.coverage coverage_tracking)))

  -- The joined overrides of stage 1.
  unfoldable pub settings : SummaryRequest F → List (Setting F)
  settings req = earlier_settings req ++ (apply_request_interception req ++ later_settings req)
