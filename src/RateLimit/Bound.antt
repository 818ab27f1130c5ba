-- ===== src/RateLimit/Bound.antt =====
-- What the token bucket of src/rate_limit.rs admits over any series of calls.
use browser_headless.Base.{
  ℕ, ◌+◌, ◌-◌, ◌*◌, ◌≤◌, ◌<◌, ◌≡◌, refl, sym, ap, ◌∙◌, Bool, true, false, some, List, [], ◌∷◌,
  arith, to_ℕ,
}
use native.Mathlib.Nat.{add-mul}
use browser_headless.Config.{Env, rate_limit_rps}
use browser_headless.RateLimit.{
  Bucket, RateLimiter, one_token, from_env, refill, take_token, try_acquire,
}

-- One call of an enabled limiter, its mutex sound.
pub acquire : Bucket → ℕ → Bucket × Bool
unfolding refill take_token
acquire b now = take_token (refill b now)

-- The bucket and the number of calls let through, after calls at the given times.
pub acquire_all : Bucket → List ℕ → Bucket × ℕ
acquire_all b [] = (b, 0)
acquire_all b (t ∷ ts) =
    let (b', allowed) = acquire b t in let (b'', n) = acquire_all b' ts in (b'', to_ℕ allowed + n)

-- The clock does not go back.
abbrev pub Ascending : ℕ → List ℕ → Type 0
Ascending t [] = Unit {0}
Ascending t (u ∷ us) = (t ≤ u) × Ascending u us

abbrev pub last_time : ℕ → List ℕ → ℕ
last_time t [] = t
last_time t (u ∷ us) = last_time u us

last_time-le : (t : ℕ) (ts : List ℕ) → Ascending t ts → t ≤ last_time t ts
last_time-le t [] h = omega arith
last_time-le t (u ∷ us) h = omega (arith, last_time-le u us h.1)

-- What one call spends and adds.
acquire_balance :
    (b : Bucket) (t : ℕ)
    → b.last ≤ t
    → let (b', allowed) = acquire b t in
      (to_ℕ allowed * one_token + b'.tokens ≤ b.tokens + (t - b.last) * b.refill_per_sec)
      × (b'.last ≡ t)
      × (b'.refill_per_sec ≡ b.refill_per_sec)
      × (b'.capacity ≡ b.capacity)
unfolding acquire
acquire_balance b t h = ground arith

split_interval : (l t u r : ℕ) → l ≤ t → t ≤ u → (u - t) * r + (t - l) * r ≡ (u - l) * r
split_interval l t u r h k = sym (add-mul (u - t) (t - l) r) ∙ ap (λ x. x * r) (omega arith)

acquire_all_balance :
    (b : Bucket) (l r : ℕ) (ts : List ℕ)
    → b.last ≡ l
    → b.refill_per_sec ≡ r
    → Ascending l ts
    → (acquire_all b ts).1 * one_token + (acquire_all b ts).0.tokens
      ≤ b.tokens + (last_time l ts - l) * r
unfolding acquire_all
acquire_all_balance b l r [] e f h = omega arith
acquire_all_balance b l r (t ∷ ts) e f h =
    let (spent, now, rate, _) = acquire_balance b t (rw e h.0) in
    let cost : to_ℕ (acquire b t).1 * one_token + (acquire b t).0.tokens ≤ b.tokens + (t - l) * r =
      rw (← f, ← e) spent in
    let more = acquire_all_balance (acquire b t).0 t r ts now (rate ∙ f) h.1 in
    omega (arith, more, cost, split_interval l t (last_time t ts) r h.0 (last_time-le t ts h.1))

-- How many calls at the given times the limiter lets through.
pub admitted : RateLimiter → List ℕ → ℕ
admitted lim [] = 0
admitted lim (t ∷ ts) =
    let (lim', allowed) = try_acquire lim false t in to_ℕ allowed + admitted lim' ts

admitted-acquire_all : (b : Bucket) (ts : List ℕ) → admitted (some b) ts ≡ (acquire_all b ts).1
unfolding admitted acquire_all acquire try_acquire
admitted-acquire_all b [] = refl
admitted-acquire_all b (t ∷ ts) =
    ap (λ n. to_ℕ (acquire b t).1 + n) (admitted-acquire_all (acquire b t).0 ts)

-- While the clock does not go back, the calls that an enabled limiter lets through cost no more
-- than the tokens in the bucket and the refill between the bucket's last update and the last call.
pub admitted_bound :
    (b : Bucket) (ts : List ℕ)
    → Ascending b.last ts
    → admitted (some b) ts * one_token
      ≤ b.tokens + (last_time b.last ts - b.last) * b.refill_per_sec
admitted_bound b ts h =
    rw (admitted-acquire_all b ts)
      (omega (arith, acquire_all_balance b b.last b.refill_per_sec ts refl refl h))

-- A call is let through if the bucket can hold a token and the refill since its last update is worth
-- one; the bucket then never holds more than its capacity.
pub try_acquire_refilled :
    (b : Bucket) (now : ℕ)
    → one_token ≤ b.capacity
    → one_token ≤ (now - b.last) * b.refill_per_sec
    → (b' : Bucket) × (try_acquire (some b) false now ≡ (some b', true))
      × (b'.tokens < b.capacity)
      × (b'.last ≡ now)
unfolding try_acquire
try_acquire_refilled b now h k = (
  (acquire b now).0,
  unfold acquire in ground arith,
  unfold acquire in ground arith,
  unfold acquire in ground arith,
)

-- With no rate configured (a rate whose low 32 bits are 0), every call passes and nothing changes.
from_env_off :
    (env : Env) (start now : ℕ) (poisoned : Bool)
    → rate_limit_rps env ≡ 0
    → try_acquire (from_env env start) poisoned now ≡ (from_env env start, true)
unfolding from_env try_acquire
from_env_off env start now poisoned h = rw h
