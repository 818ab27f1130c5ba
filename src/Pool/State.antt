-- ===== src/Pool/State.antt =====
-- src/pool.rs: the configuration, an instance and its routing state, and the choice of an instance.
use browser_headless.Base.{
  ℕ, suc, ◌+◌, ◌-◌, ◌*◌, Bool, true, false, not, ◌&&◌, Option, none, some, List, [], ◌∷◌, codes,
  ltb, leb, if◌then◌else◌, max, replicate,
}
use browser_headless.Config.{Env, env_u64, env_usize}

-- Durations are in milliseconds.
pub record PoolConfig : Type 0 where
  pub pool_size : ℕ
  pub pages_per_instance : ℕ
  pub recycle_after_requests : ℕ
  pub recycle_after : Option ℕ
  pub drain_timeout : ℕ

unfoldable pub from_env : Env → PoolConfig
from_env env =
    let recycle_after_secs = env_u64 env (codes "BROWSER_HEADLESS_RECYCLE_AFTER_SECS") 0 in
    record {
      pool_size = max (env_usize env (codes "BROWSER_HEADLESS_POOL_SIZE") 1) 1;
      pages_per_instance = max (env_usize env (codes "BROWSER_HEADLESS_MAX_PAGES") 8) 1;
      recycle_after_requests = env_u64 env (codes "BROWSER_HEADLESS_RECYCLE_AFTER_REQUESTS") 0;
      recycle_after = if ltb 0 recycle_after_secs then some (recycle_after_secs * 1000) else none;
      drain_timeout = max (env_u64 env (codes "BROWSER_HEADLESS_DRAIN_TIMEOUT_MS") 30000) 1;
    }

pub data Status : Type 0 where
  active draining down : Status

unfoldable pub is_active : Status → Bool
is_active active = true
is_active draining = false
is_active down = false

pub data RecycleReason : Type 0 where
  crash age count : RecycleReason

-- Where the manager task of an instance stands: in `wait_for_trigger`, at the acquisition of the token,
-- in `drain`, or in `relaunch` with the next backoff in seconds.
pub data Phase : Type 0 where
  watching : Phase
  awaiting_token : RecycleReason → Phase
  waiting_drain : Phase
  relaunching : ℕ → Phase

-- `permits` is what is available of the semaphore; `notified` is the stored permit of
-- `recycle_notify`; `generation` counts the browsers that were swapped in.
pub record Instance : Type 0 where
  pub permits : ℕ
  pub in_flight : ℕ
  pub served : ℕ
  pub status : Status
  pub notified : Bool
  pub generation : ℕ
  pub phase : Phase

-- Where a request stands in `checkout`: at the head of the loop with the retries left, waiting for
-- a permit, past the check at the read of the handle, holding a `Checkout`, or done; `abandoned`
-- is a request that was cancelled at the read of the handle.
pub data Caller : Type 0 where
  picking : ℕ → Caller
  waiting : ℕ → ℕ → Caller
  reading : ℕ → Caller
  holding : ℕ → Caller
  abandoned : ℕ → Caller
  refused : Caller
  finished : Caller

-- `active_instances` is the gauge, `token` the permits of `recycle_token`.
pub record Pool : Type 0 where
  pub instances : List Instance
  pub callers : List Caller
  pub token : ℕ
  pub active_instances : ℕ

abbrev pub max_unavailable : ℕ
max_unavailable = 1

abbrev pub checkout_pick_retries : ℕ
checkout_pick_retries = 4

unfoldable pub new_instance : PoolConfig → Instance
new_instance config = record {
  permits = config.pages_per_instance;
  in_flight = 0;
  served = 0;
  status = active;
  notified = false;
  generation = 0;
  phase = watching;
}

unfoldable pub launch : PoolConfig → Pool
unfolding new_instance
launch config = record {
  instances = replicate config.pool_size (new_instance config);
  callers = [];
  token = max_unavailable;
  active_instances = config.pool_size;
}

unfoldable pub capacity : PoolConfig → ℕ
capacity config = config.pool_size * config.pages_per_instance

-- `.filter(active).max_by_key(available_permits)` from index `n` on: the last of the largest.
unfoldable pub choose : ℕ → List Instance → Option (ℕ × ℕ)
unfolding is_active
choose n [] = none
choose n (x ∷ xs) =
    let rest = choose (suc n) xs in
    if is_active x.status
    then elim rest [
      | none ↦ some (n, x.permits)
      | some (i, free) ↦ if leb x.permits free then some (i, free) else some (n, x.permits)
    ]
    else rest

-- The gauge after a status was swapped.
unfoldable pub gauge : Status → Status → ℕ → ℕ
unfolding is_active
gauge old new g =
    if is_active old && not (is_active new)
    then g - 1
    else if not (is_active old) && is_active new
    then g + 1
    else g

-- The first active instance, for the readiness probe.
unfoldable pub any_active_browser : ℕ → List Instance → Option ℕ
unfolding is_active
any_active_browser n [] = none
any_active_browser n (x ∷ xs) = if is_active x.status then some n else any_active_browser (suc n) xs
