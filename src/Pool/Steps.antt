-- ===== src/Pool/Steps.antt =====
-- src/pool.rs: what each task does to the pool between two awaits: `checkout`, the drop of
-- a `Checkout`, `manage_instance`, `wait_for_trigger`, `drain` and `relaunch`.
use browser_headless.Base.{
  ℕ, zero, suc, ◌+◌, ◌-◌, ◌*◌, ◌≡◌, Bool, true, false, not, ◌&&◌, ◌||◌, Option, none, some, [], ◌∷◌,
  ◌++◌, ltb, leb, ◌==◌, if◌then◌else◌, min, get_elem?, set, is_some,
}
use browser_headless.Pool.State.{
  PoolConfig, Status, active, draining, down, is_active, RecycleReason, crash, age, count, Phase,
  watching, awaiting_token, waiting_drain, relaunching, Instance, Caller, picking, waiting, reading,
  holding, abandoned, refused, finished, Pool, choose, gauge, launch, checkout_pick_retries,
}

-- The number is the caller's or, for the managers' events, the instance's. `cancel` drops a request's
-- future, as its deadline does; `drained` says whether the drain's deadline has passed.
pub data Event : Type 0 where
  call : Event
  pick : ℕ → Event
  acquire : ℕ → Event
  read_handle : ℕ → Event
  drop_checkout : ℕ → Event
  cancel : ℕ → Event
  trigger : ℕ → RecycleReason → Event
  stale_wakeup : ℕ → Event
  take_token : ℕ → Event
  drained : ℕ → Bool → Event
  relaunch_failed : ℕ → Event
  relaunched : ℕ → Event

-- A task's step replaces its caller and the instance it is at.
unfoldable pub put_caller : ℕ → Caller → Pool → Pool
put_caller c k p = record p { callers = set p.callers c k }

unfoldable pub put_instance : ℕ → Instance → Pool → Pool
put_instance i x p = record p { instances = set p.instances i x }

-- The head of the loop: `picking 0` is the end of the loop.
unfoldable pub picked : ℕ → Option (ℕ × ℕ) → Caller
picked zero o = refused
picked (suc n) none = refused
picked (suc n) (some (i, free)) = waiting i n

-- A permit was granted: a request that finds its instance inactive gives the permit back at once.
unfoldable pub granted : ℕ → ℕ → Instance → Option (Instance × Caller)
unfolding is_active
granted i n x =
    if x.permits == 0
    then none
    else if is_active x.status
    then some (record x { permits = x.permits - 1; in_flight = x.in_flight + 1 }, reading i)
    else some (x, picking n)

-- `Checkout::drop`, and then the permit is released.
unfoldable pub dropped : PoolConfig → Instance → Instance
dropped config x =
    let served = x.served + 1 in
    record x {
      permits = x.permits + 1;
      in_flight = x.in_flight - 1;
      served = served;
      notified =
          x.notified
          || (ltb 0 config.recycle_after_requests && leb config.recycle_after_requests served);
    }

-- A future dropped at the read of the handle releases the permit; no `Checkout` was built, so
-- `in_flight` is not decremented.
unfoldable pub cancelled : Instance → Instance
cancelled x = record x { permits = x.permits + 1 }

unfoldable pub reaches_count : PoolConfig → Instance → Bool
reaches_count config x =
    ltb 0 config.recycle_after_requests && leb config.recycle_after_requests x.served

-- Whether `wait_for_trigger` can return the reason; the disconnect and the clock are the environment's.
unfoldable pub can_trigger : PoolConfig → RecycleReason → Instance → Bool
unfolding reaches_count
can_trigger config crash x = true
can_trigger config age x = is_some config.recycle_after
can_trigger config count x = x.notified && reaches_count config x

unfoldable pub status_after : RecycleReason → Status
status_after crash = down
status_after age = draining
status_after count = draining

unfoldable pub triggered : RecycleReason → Instance → Instance
unfolding status_after
triggered r x = record x {
  status = status_after r;
  notified = elim r [ count ↦ false | _ ↦ x.notified ];
  phase = awaiting_token r;
}

-- What the manager does with the token: a crashed browser is replaced without a drain.
unfoldable pub phase_after : RecycleReason → Phase
phase_after crash = relaunching 1
phase_after age = waiting_drain
phase_after count = waiting_drain

unfoldable pub swapped : Instance → Instance
swapped x = record x {
  served = 0;
  status = active;
  generation = x.generation + 1;
  phase = watching;
}

unfoldable pub next_backoff : ℕ → ℕ
next_backoff backoff = min (backoff * 2) 60

-- The steps of a request.
unfoldable pub step_caller : PoolConfig → Event → Caller → Pool → Option Pool
unfolding picked granted dropped cancelled put_caller put_instance choose
step_caller config (pick c) (picking n) p = some (put_caller c (picked n (choose 0 p.instances)) p)
step_caller config (acquire c) (waiting i n) p = elim (get_elem? p.instances i) [
  | none ↦ none
  | some x ↦ elim (granted i n x) [
    | none ↦ none
    | some (y, k) ↦ some (put_caller c k (put_instance i y p))
  ]
]
step_caller config (read_handle c) (reading i) p = some (put_caller c (holding i) p)
step_caller config (drop_checkout c) (holding i) p = elim (get_elem? p.instances i) [
  | none ↦ none
  | some x ↦ some (put_caller c finished (put_instance i (dropped config x) p))
]
step_caller config (cancel c) (waiting i n) p = some (put_caller c finished p)
step_caller config (cancel c) (reading i) p = elim (get_elem? p.instances i) [
  | none ↦ none
  | some x ↦ some (put_caller c (abandoned i) (put_instance i (cancelled x) p))
]
step_caller config _ _ p = none

-- What a manager's step writes: its instance, the token's permits and the gauge.
pub record Managed : Type 0 where
  pub instance : Instance
  pub token : ℕ
  pub active_instances : ℕ

-- The steps of a manager at its phase.
unfoldable pub step_manager : PoolConfig → Event → Phase → Instance → ℕ → ℕ → Option Managed
unfolding can_trigger reaches_count triggered phase_after swapped next_backoff gauge
step_manager config (trigger i r) watching x token g =
    if can_trigger config r x
    then some (record {
      instance = triggered r x;
      token = token;
      active_instances = gauge x.status (status_after r) g;
    })
    else none
step_manager config (stale_wakeup i) watching x token g =
    if x.notified && not (reaches_count config x)
    then some
        (record { instance = record x { notified = false }; token = token; active_instances = g })
    else none
step_manager config (take_token i) (awaiting_token r) x token g =
    if token == 0
    then none
    else some (record {
      instance = record x { phase = phase_after r };
      token = token - 1;
      active_instances = g;
    })
step_manager config (drained i expired) waiting_drain x token g =
    if (x.in_flight == 0) || expired
    then some (record {
      instance = record x { phase = relaunching 1 };
      token = token;
      active_instances = g;
    })
    else none
step_manager config (relaunch_failed i) (relaunching backoff) x token g = some (record {
  instance = record x { phase = relaunching (next_backoff backoff) };
  token = token;
  active_instances = g;
})
step_manager config (relaunched i) (relaunching backoff) x token g =
    some (record {
      instance = swapped x;
      token = token + 1;
      active_instances = gauge x.status active g;
    })
step_manager config _ _ x token g = none

unfoldable pub put_managed : ℕ → Managed → Pool → Pool
put_managed i m p = record p {
  instances = set p.instances i m.instance;
  token = m.token;
  active_instances = m.active_instances;
}

unfoldable pub at_caller : PoolConfig → Event → ℕ → Pool → Option Pool
unfolding step_caller
at_caller config e c p = elim (get_elem? p.callers c) [
  | none ↦ none
  | some k ↦ step_caller config e k p
]

unfoldable pub at_instance : PoolConfig → Event → ℕ → Pool → Option Pool
unfolding step_manager put_managed
at_instance config e i p = elim (get_elem? p.instances i) [
  | none ↦ none
  | some x ↦ elim (step_manager config e x.phase x p.token p.active_instances) [
    | none ↦ none
    | some m ↦ some (put_managed i m p)
  ]
]

-- An event that cannot happen is `none`.
unfoldable pub step : PoolConfig → Event → Pool → Option Pool
unfolding at_caller at_instance
step config call p = some (record p { callers = p.callers ++ (picking checkout_pick_retries ∷ []) })
step config (pick c) p = at_caller config (pick c) c p
step config (acquire c) p = at_caller config (acquire c) c p
step config (read_handle c) p = at_caller config (read_handle c) c p
step config (drop_checkout c) p = at_caller config (drop_checkout c) c p
step config (cancel c) p = at_caller config (cancel c) c p
step config (trigger i r) p = at_instance config (trigger i r) i p
step config (stale_wakeup i) p = at_instance config (stale_wakeup i) i p
step config (take_token i) p = at_instance config (take_token i) i p
step config (drained i expired) p = at_instance config (drained i expired) i p
step config (relaunch_failed i) p = at_instance config (relaunch_failed i) i p
step config (relaunched i) p = at_instance config (relaunched i) i p

-- What a run of events reaches from the launched pool.
pub data Reachable (config : PoolConfig) : Pool → Type 0 where
  start : Reachable config (launch config)
  next :
      (e : Event) (p q : Pool) → Reachable config p → step config e p ≡ some q → Reachable config q
