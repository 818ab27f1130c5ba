-- ===== src/Pool/Token/Runs.antt =====
-- src/pool.rs: every step and every run of the pool keeps the token, the gauge and the status right.
use browser_headless.Base.{
  ℕ, ◌≡◌, refl, sym, subst, inl, inr, some, [], ◌∷◌, ◌++◌, arith, none-ne-some, get_elem?,
  Option-cases, All-replicate, count-replicate-true, count-replicate-false,
}
use mathlib.Core.Option.{some-injective}
use browser_headless.Pool.State.{PoolConfig, picking, Pool, launch, is_active, new_instance}
use browser_headless.Pool.Steps.{
  Event, call, pick, acquire, read_handle, drop_checkout, cancel, trigger, stale_wakeup, take_token,
  drained, relaunch_failed, relaunched, step_manager, step, at_caller, at_instance, put_managed,
  Reachable, start, next,
}
use browser_headless.Pool.Token.{
  serving, replacing, InStep, Serial, put_managed-Serial, step_caller-Serial,
}

at_caller-Serial :
    (config : PoolConfig) (e : Event) (c : ℕ) (p q : Pool)
    → at_caller config e c p ≡ some q
    → Serial p
    → Serial q
unfolding at_caller
at_caller-Serial config e c p q h s = elim (Option-cases (get_elem? p.callers c)) [
  | inl f ↦ absurd (none-ne-some (rw (at_caller, f) at h))
  | inr (k, f) ↦ step_caller-Serial config e k p q (rw (at_caller, f) at h) s
]

at_instance-Serial :
    (config : PoolConfig) (e : Event) (i : ℕ) (p q : Pool)
    → at_instance config e i p ≡ some q
    → Serial p
    → Serial q
unfolding at_instance
at_instance-Serial config e i p q h s = elim (Option-cases (get_elem? p.instances i)) [
  | inl f ↦ absurd (none-ne-some (rw (at_instance, f) at h))
  | inr (x, f) ↦ elim (Option-cases (step_manager config e x.phase x p.token p.active_instances)) [
    | inl u ↦ absurd (none-ne-some (rw (at_instance, f, u) at h))
    | inr (m, u) ↦
        subst Serial (some-injective (put_managed i m p) q (rw (at_instance, f, u) at h))
          (put_managed-Serial config e i p x m f u s)
  ]
]

step-Serial :
    (config : PoolConfig) (e : Event) (p q : Pool) → step config e p ≡ some q → Serial p → Serial q
unfolding step
step-Serial config call p q h s =
    subst Serial (some-injective (record p { callers = p.callers ++ (picking 4 ∷ []) }) q h) s
step-Serial config (pick c) p q h s = at_caller-Serial config (pick c) c p q h s
step-Serial config (acquire c) p q h s = at_caller-Serial config (acquire c) c p q h s
step-Serial config (read_handle c) p q h s = at_caller-Serial config (read_handle c) c p q h s
step-Serial config (drop_checkout c) p q h s = at_caller-Serial config (drop_checkout c) c p q h s
step-Serial config (cancel c) p q h s = at_caller-Serial config (cancel c) c p q h s
step-Serial config (trigger i r) p q h s = at_instance-Serial config (trigger i r) i p q h s
step-Serial config (stale_wakeup i) p q h s = at_instance-Serial config (stale_wakeup i) i p q h s
step-Serial config (take_token i) p q h s = at_instance-Serial config (take_token i) i p q h s
step-Serial config (drained i b) p q h s = at_instance-Serial config (drained i b) i p q h s
step-Serial config (relaunch_failed i) p q h s =
    at_instance-Serial config (relaunch_failed i) i p q h s
step-Serial config (relaunched i) p q h s = at_instance-Serial config (relaunched i) i p q h s

-- At every pool that events reach: the token is free or exactly one instance is being drained or
-- relaunched; the gauge is the number of active instances; and an instance is active exactly while
-- its manager waits for a trigger.
pub Reachable-Serial : (config : PoolConfig) (p : Pool) → Reachable config p → Serial p
unfolding launch new_instance is_active
Reachable-Serial config _ start = (
  omega (arith, count-replicate-false replacing config.pool_size (new_instance config) refl),
  sym (count-replicate-true serving config.pool_size (new_instance config) refl),
  All-replicate InStep config.pool_size (new_instance config) refl,
)
Reachable-Serial config _ (next e p q r h) =
    step-Serial config e p q h (Reachable-Serial config p r)
