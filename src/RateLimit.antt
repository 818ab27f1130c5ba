-- ===== src/RateLimit.antt =====
-- src/rate_limit.rs: the process-wide token bucket. The source counts tokens and seconds in `f64`;
-- here time is in nanoseconds and the bucket in billionths of a token, so a refill of `rps` tokens
-- a second adds exactly `elapsed * rps`. The rounding of `f64` is not modelled.
pub mod Bound
use browser_headless.Base.{
  ℕ, ◌+◌, ◌-◌, ◌*◌, ◌≡◌, Bool, true, false, Option, none, some, min, max, leb, ◌==◌, if◌then◌else◌,
}
use browser_headless.Config.{Env, rate_limit_rps, rate_limit_burst}

pub record Bucket : Type 0 where
  pub tokens : ℕ
  pub capacity : ℕ
  pub refill_per_sec : ℕ
  pub last : ℕ

abbrev pub one_token : ℕ
one_token = 1_000_000_000

-- `None` means that rate limiting is off.
abbrev pub RateLimiter : Type 0
RateLimiter = Option Bucket

unfoldable pub from_env : Env → ℕ → RateLimiter
from_env env now =
    let rps = rate_limit_rps env in
    let capacity = max (rate_limit_burst env) 1 * one_token in
    if rps == 0
    then none
    else some (record { tokens = capacity; capacity = capacity; refill_per_sec = rps; last = now })

-- `Instant::duration_since` is zero when the clock has not advanced.
unfoldable pub refill : Bucket → ℕ → Bucket
refill b now = record b {
  tokens = min (b.tokens + (now - b.last) * b.refill_per_sec) b.capacity;
  last = now;
}

unfoldable pub take_token : Bucket → Bucket × Bool
take_token b =
    if leb one_token b.tokens
    then (record b { tokens = b.tokens - one_token }, true)
    else (b, false)

-- `poisoned` says whether the mutex was poisoned by a panic elsewhere.
unfoldable pub try_acquire : RateLimiter → Bool → ℕ → RateLimiter × Bool
unfolding refill take_token
try_acquire none poisoned now = (none, true)
try_acquire (some b) true now = (some b, true)
try_acquire (some b) false now = let (b', allowed) = take_token (refill b now) in (some b', allowed)
