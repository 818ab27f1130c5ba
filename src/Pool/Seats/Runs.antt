-- ===== src/Pool/Seats/Runs.antt =====
-- src/pool.rs: the managers' steps and every run of the pool keep the account of the page permits.
use browser_headless.Base.{
  ℕ, ◌+◌, ◌≡◌, refl, subst, inl, inr, some, [], ◌∷◌, ◌++◌, arith, none-ne-some, get_elem?,
  Option-cases, count-append, get_elem?-replicate,
}
use mathlib.Core.Option.{some-injective}
use browser_headless.Pool.State.{
  PoolConfig, picking, Pool, Instance, Phase, watching, awaiting_token, waiting_drain, relaunching,
  launch, new_instance,
}
use browser_headless.Pool.Steps.{
  Event, call, pick, acquire, read_handle, drop_checkout, cancel, trigger, stale_wakeup, take_token,
  drained, relaunch_failed, relaunched, step_manager, step, at_caller, at_instance, put_instance,
  put_managed, Managed, Reachable, start, next, triggered, swapped,
}
use browser_headless.Pool.Permits.{has_permit, is_counted, Balance-put_instance}
use browser_headless.Pool.Seats.{Seats, target, step_caller-Seats}

-- A manager's step changes neither the permits nor `in_flight`.
step_manager-keeps :
    (config : PoolConfig) (e : Event) (f : Phase) (x : Instance) (token g : ℕ) (m : Managed)
    → step_manager config e f x token g ≡ some m
    → (m.instance.permits ≡ x.permits) × (m.instance.in_flight ≡ x.in_flight)
unfolding step_manager triggered swapped
step_manager-keeps config (trigger i r) watching x token g m h = ground (arith)
step_manager-keeps config (stale_wakeup i) watching x token g m h = ground (arith)
step_manager-keeps config (take_token i) (awaiting_token r) x token g m h = ground (arith)
step_manager-keeps config (drained i expired) waiting_drain x token g m h = ground (arith)
step_manager-keeps config (relaunch_failed i) (relaunching b) x token g m h = ground (arith)
step_manager-keeps config (relaunched i) (relaunching b) x token g m h = ground (arith)
step_manager-keeps config _ _ x token g m h = absurd (none-ne-some h)

put_managed-Seats :
    (config : PoolConfig) (p : Pool) (i : ℕ) (x : Instance) (m : Managed)
    → get_elem? p.instances i ≡ some x
    → (m.instance.permits ≡ x.permits) × (m.instance.in_flight ≡ x.in_flight)
    → Seats config p
    → Seats config (put_managed i m p)
unfolding put_managed put_instance
put_managed-Seats config p i x m hx (l, r) (s, t) = (
  Balance-put_instance has_permit (λ x. x.permits) (λ x. config.pages_per_instance) p i x m.instance
      hx l refl s,
  Balance-put_instance is_counted (λ x. 0) (λ x. x.in_flight) p i x m.instance hx refl r t,
)

at_caller-Seats :
    (config : PoolConfig) (e : Event) (p q : Pool)
    → at_caller config e (target e) p ≡ some q
    → Seats config p
    → Seats config q
unfolding at_caller
at_caller-Seats config e p q h s = elim (Option-cases (get_elem? p.callers (target e))) [
  | inl f ↦ absurd (none-ne-some (rw (at_caller, f) at h))
  | inr (k, f) ↦ step_caller-Seats config e k p q f (rw (at_caller, f) at h) s
]

at_instance-Seats :
    (config : PoolConfig) (e : Event) (i : ℕ) (p q : Pool)
    → at_instance config e i p ≡ some q
    → Seats config p
    → Seats config q
unfolding at_instance
at_instance-Seats config e i p q h s = elim (Option-cases (get_elem? p.instances i)) [
  | inl f ↦ absurd (none-ne-some (rw (at_instance, f) at h))
  | inr (x, f) ↦ elim (Option-cases (step_manager config e x.phase x p.token p.active_instances)) [
    | inl u ↦ absurd (none-ne-some (rw (at_instance, f, u) at h))
    | inr (m, u) ↦
        subst (Seats config) (some-injective (put_managed i m p) q (rw (at_instance, f, u) at h)) (
          put_managed-Seats config p i x m f
            (step_manager-keeps config e x.phase x p.token p.active_instances m u) s)
  ]
]

step-Seats :
    (config : PoolConfig) (e : Event) (p q : Pool)
    → step config e p ≡ some q
    → Seats config p
    → Seats config q
unfolding step
step-Seats config call p q h (s, t) =
    subst (Seats config) (some-injective (record p { callers = p.callers ++ (picking 4 ∷ []) }) q h)
      (
        (λ i x e. omega (arith, s i x e, count-append (has_permit i) p.callers (picking 4 ∷ []))),
        (λ i x e. omega (arith, t i x e, count-append (is_counted i) p.callers (picking 4 ∷ []))),
      )
step-Seats config (pick c) p q h s = at_caller-Seats config (pick c) p q h s
step-Seats config (acquire c) p q h s = at_caller-Seats config (acquire c) p q h s
step-Seats config (read_handle c) p q h s = at_caller-Seats config (read_handle c) p q h s
step-Seats config (drop_checkout c) p q h s = at_caller-Seats config (drop_checkout c) p q h s
step-Seats config (cancel c) p q h s = at_caller-Seats config (cancel c) p q h s
step-Seats config (trigger i r) p q h s = at_instance-Seats config (trigger i r) i p q h s
step-Seats config (stale_wakeup i) p q h s = at_instance-Seats config (stale_wakeup i) i p q h s
step-Seats config (take_token i) p q h s = at_instance-Seats config (take_token i) i p q h s
step-Seats config (drained i b) p q h s = at_instance-Seats config (drained i b) i p q h s
step-Seats config (relaunch_failed i) p q h s =
    at_instance-Seats config (relaunch_failed i) i p q h s
step-Seats config (relaunched i) p q h s = at_instance-Seats config (relaunched i) i p q h s

-- At every pool that events reach, at every instance, the free permits and the requests that are
-- reading the handle or holding a checkout there make up `pages_per_instance`; and `in_flight`
-- is the number of those requests and of the requests that were cancelled at the read of the handle.
pub Reachable-Seats : (config : PoolConfig) (p : Pool) → Reachable config p → Seats config p
unfolding launch new_instance
Reachable-Seats config _ start = (
  λ i x e.
      subst (λ y. y.permits + 0 ≡ config.pages_per_instance)
        (get_elem?-replicate config.pool_size i (new_instance config) x e) (omega arith),
  λ i x e.
      subst (λ y. 0 ≡ y.in_flight)
        (get_elem?-replicate config.pool_size i (new_instance config) x e) refl,
)
Reachable-Seats config _ (next e p q r h) = step-Seats config e p q h (Reachable-Seats config p r)
