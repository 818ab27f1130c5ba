-- ===== src/Config.antt =====
-- src/config.rs: the knobs read from the environment. The environment is fixed for the process, so
-- each cached knob is a function of it; `none` stands for an unset (or undecodable) variable.
pub mod Knobs
use browser_headless.Base.{
  ℕ, ◌+◌, ◌*◌, ◌%◌, ◌^◌, ◌≤◌, ◌≡◌, ◌⊎◌, inl, inr, Bool, true, false, ◌||◌, Option, none, some, max,
  min, arith, Text, codes, text_eq, trim, is_empty, parse_uint, ltb, leb, ◌==◌, if◌then◌else◌,
  unwrap_or, not,
}

abbrev pub Env : Type 0
Env = Text → Option Text

abbrev pub u16_bound : ℕ
u16_bound = 2 ^ 16

abbrev pub u32_bound : ℕ
u32_bound = 2 ^ 32

abbrev pub u64_bound : ℕ
u64_bound = 2 ^ 64

-- `Option::filter`.
abbrev pub filter_some {ℓ} : {A : Type ℓ} → (A → Bool) → Option A → Option A
filter_some p none = none
filter_some p (some a) = if p a then some a else none

-- `.ok().and_then(|v| v.parse().ok())`.
unfoldable pub parsed : ℕ → Option Text → Option ℕ
parsed bound none = none
parsed bound (some v) = parse_uint bound v

unfoldable pub env_string : Env → Text → Text → Text
env_string env key default = unwrap_or (filter_some (λ s. not (is_empty s)) (env key)) default

unfoldable pub env_opt : Env → Text → Option Text
env_opt env key = filter_some (λ s. not (is_empty s)) (env key)

unfoldable pub is_truthy_word : Text → Bool
is_truthy_word v =
    text_eq v (codes "1")
    || text_eq v (codes "true")
    || text_eq v (codes "yes")
    || text_eq v (codes "on")

unfoldable pub env_bool : Env → Text → Bool → Bool
unfolding is_truthy_word
env_bool env key default = elim (env key) [ some v ↦ is_truthy_word v | none ↦ default ]

unfoldable pub env_u64 : Env → Text → ℕ → ℕ
unfolding parsed
env_u64 env key default = unwrap_or (parsed u64_bound (env key)) default

-- `usize` is 64 bits wide on the service's targets.
unfoldable pub env_usize : Env → Text → ℕ → ℕ
unfolding parsed
env_usize env key default = unwrap_or (parsed u64_bound (env key)) default

abbrev pub is_positive : ℕ → Bool
is_positive v = ltb 0 v

unfoldable pub default_timeout_ms : Env → ℕ
unfolding parsed
default_timeout_ms env =
    unwrap_or
      (filter_some is_positive
        (parsed u64_bound (env (codes "BROWSER_HEADLESS_DEFAULT_TIMEOUT_MS"))))
      30_000

unfoldable pub max_timeout_ms : Env → ℕ
max_timeout_ms env = env_u64 env (codes "BROWSER_HEADLESS_MAX_TIMEOUT_MS") 120_000

unfoldable pub max_settle_ms : Env → ℕ
max_settle_ms env = env_u64 env (codes "BROWSER_HEADLESS_MAX_SETTLE_MS") 30_000

-- `Ord::clamp`, whose bounds are in order wherever it is called here.
abbrev pub clamp : ℕ → ℕ → ℕ → ℕ
clamp lo hi x = if ltb x lo then lo else if ltb hi x then hi else x

unfoldable pub clamp_timeout_ms : Env → ℕ → ℕ
clamp_timeout_ms env requested =
    let limit = max_timeout_ms env in
    if limit == 0 then max requested 1 else clamp 1 limit requested

unfoldable pub clamp_settle_ms : Env → ℕ → ℕ
clamp_settle_ms env requested =
    let limit = max_settle_ms env in if limit == 0 then requested else min requested limit

unfoldable pub deadline_buffer_ms : Env → ℕ
unfolding parsed
deadline_buffer_ms env =
    unwrap_or (parsed u64_bound (env (codes "BROWSER_HEADLESS_DEADLINE_BUFFER_MS"))) 10_000

unfoldable pub max_batch_urls : Env → ℕ
unfolding parsed
max_batch_urls env =
    unwrap_or
      (filter_some is_positive (parsed u64_bound (env (codes "BROWSER_HEADLESS_MAX_BATCH_URLS"))))
      100

unfoldable pub checkout_wait_ms : Env → ℕ
unfolding parsed
checkout_wait_ms env =
    unwrap_or (parsed u64_bound (env (codes "BROWSER_HEADLESS_CHECKOUT_WAIT_MS"))) 30_000

unfoldable pub health_port : Env → ℕ
unfolding parsed
health_port env =
    unwrap_or
      (filter_some is_positive (parsed u16_bound (env (codes "BROWSER_HEADLESS_HEALTH_PORT")))) 3000

unfoldable pub max_body_bytes : Env → ℕ
max_body_bytes env =
    max (env_usize env (codes "BROWSER_HEADLESS_MAX_BODY_BYTES") (2 * 1024 * 1024)) 1024

-- The cast `as u32` keeps the low 32 bits.
unfoldable pub rate_limit_rps : Env → ℕ
rate_limit_rps env = env_u64 env (codes "BROWSER_HEADLESS_RATE_LIMIT_RPS") 0 % u32_bound

unfoldable pub rate_limit_burst : Env → ℕ
rate_limit_burst env =
    env_u64 env (codes "BROWSER_HEADLESS_RATE_LIMIT_BURST") (max (rate_limit_rps env) 1) % u32_bound

unfoldable pub disable_script : Env → Bool
disable_script env = env_bool env (codes "BROWSER_HEADLESS_DISABLE_SCRIPT") false

unfoldable pub disable_mcp : Env → Bool
disable_mcp env = env_bool env (codes "BROWSER_HEADLESS_DISABLE_MCP") false

unfoldable pub require_api_key : Env → Bool
require_api_key env = env_bool env (codes "BROWSER_HEADLESS_REQUIRE_API_KEY") false

unfoldable pub protect_metrics : Env → Bool
protect_metrics env = env_bool env (codes "BROWSER_HEADLESS_PROTECT_METRICS") false

pub data LogFormat : Type 0 where
  text json : LogFormat

unfoldable pub log_format : Env → LogFormat
log_format env =
    let word = unwrap_or (env (codes "BROWSER_HEADLESS_LOG_FORMAT")) (codes "text") in
    if text_eq (trim word) (codes "json") || text_eq (trim word) (codes "JSON") then json else text

-- Seconds; the source wraps it in a `Duration`.
unfoldable pub job_ttl : Env → ℕ
job_ttl env = max (env_u64 env (codes "BROWSER_HEADLESS_JOB_TTL_SECS") 3600) 1

unfoldable pub max_async_jobs : Env → ℕ
max_async_jobs env = max (env_usize env (codes "BROWSER_HEADLESS_MAX_ASYNC_JOBS") 256) 1

unfoldable pub jobs_drain_ms : Env → ℕ
jobs_drain_ms env = max (env_u64 env (codes "BROWSER_HEADLESS_JOBS_DRAIN_MS") 30_000) 1

unfoldable pub async_jobs_enabled : Env → Bool
async_jobs_enabled env = env_bool env (codes "BROWSER_HEADLESS_ASYNC_JOBS") true
