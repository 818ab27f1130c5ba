-- ===== src/Config/Knobs.antt =====
-- What the knobs of src/config.rs guarantee to the code that reads them.
use browser_headless.Base.{
  ℕ, ◌≤◌, ◌<◌, ◌≡◌, ◌⊎◌, Option, none, some, Text, codes, arith, parse_uint, parse_uint_lt,
  unwrap_or,
}
use browser_headless.Config.{
  Env, u16_bound, parsed, default_timeout_ms, max_timeout_ms, max_settle_ms, clamp_timeout_ms,
  clamp_settle_ms, max_batch_urls, health_port, max_body_bytes, job_ttl, max_async_jobs,
  jobs_drain_ms, filter_some, is_positive,
}

pub clamp_timeout_ms_pos : (env : Env) (requested : ℕ) → 1 ≤ clamp_timeout_ms env requested
unfolding clamp_timeout_ms
clamp_timeout_ms_pos env requested = ground arith

-- The effective timeout is at least 1 ms and, where a maximum is set, at most that; a request inside
-- these bounds keeps its timeout, and clamping again changes nothing.
pub clamp_timeout_ms_bounds :
    (env : Env) (requested : ℕ)
    → (1 ≤ clamp_timeout_ms env requested)
      × ((max_timeout_ms env ≡ 0) ⊎ (clamp_timeout_ms env requested ≤ max_timeout_ms env))
      × ((requested < 1)
          ⊎ ((0 < max_timeout_ms env) × (max_timeout_ms env < requested))
          ⊎ (clamp_timeout_ms env requested ≡ requested))
      × (clamp_timeout_ms env (clamp_timeout_ms env requested) ≡ clamp_timeout_ms env requested)
unfolding clamp_timeout_ms
clamp_timeout_ms_bounds env requested = (ground arith, ground arith, ground arith, ground arith)

-- The settle time never grows, and is at most the maximum where one is set.
pub clamp_settle_ms_bounds :
    (env : Env) (requested : ℕ)
    → (clamp_settle_ms env requested ≤ requested)
      × ((max_settle_ms env ≡ 0) ⊎ (clamp_settle_ms env requested ≤ max_settle_ms env))
unfolding clamp_settle_ms
clamp_settle_ms_bounds env requested = (ground arith, ground arith)

-- The knobs that the code relies on to be positive are, whatever the environment holds; the health
-- port is a port number and the body limit is at least a kilobyte.
pub knobs_pos :
    (env : Env)
    → (0 < default_timeout_ms env)
      × (0 < max_batch_urls env)
      × (0 < health_port env)
      × (health_port env < u16_bound)
      × (1024 ≤ max_body_bytes env)
      × (0 < job_ttl env)
      × (0 < max_async_jobs env)
      × (0 < jobs_drain_ms env)
unfolding default_timeout_ms max_batch_urls health_port max_body_bytes job_ttl max_async_jobs
    jobs_drain_ms
knobs_pos env = (
  ground arith,
  ground arith,
  ground arith,
  port_lt (env (codes "BROWSER_HEADLESS_HEALTH_PORT")),
  ground arith,
  ground arith,
  ground arith,
  ground arith,
)
  where
    port_lt :
        (v : Option Text)
        → unwrap_or (filter_some is_positive (parsed u16_bound v)) 3000 < u16_bound
    port_lt none = omega arith
    port_lt (some v) =
        ground (arith, parse_uint_lt u16_bound v (unwrap_or (parse_uint u16_bound v) 0))
