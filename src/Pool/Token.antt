-- ===== src/Pool/Token.antt =====
-- src/pool.rs: the recycle token, the gauge of active instances, and the status of an instance at
-- each step.
pub mod Runs
use browser_headless.Base.{
  ℕ, ◌+◌, ◌-◌, ◌≤◌, ◌≡◌, refl, sym, ap, ◌∙◌, subst, inl, inr, Bool, true, false, some, List, [],
  ◌∷◌, ◌++◌, arith, none-ne-some, get_elem?, Option-cases, Bool-cases, to_ℕ, ◌==◌, count, count-set,
  All, All-set, All-get_elem?, All-replicate, count_pos, count-replicate-true,
  count-replicate-false,
}
use mathlib.Core.Option.{some-injective}
use browser_headless.Pool.State.{
  PoolConfig, Caller, picking, waiting, reading, holding, abandoned, finished, Pool, Instance,
  Status, active, draining, down, RecycleReason, Phase, watching, awaiting_token, waiting_drain,
  relaunching, launch, is_active, new_instance, choose, gauge,
}
use browser_headless.Pool.Steps.{
  Event, call, pick, acquire, read_handle, drop_checkout, cancel, trigger, stale_wakeup, take_token,
  drained, relaunch_failed, relaunched, step_caller, step_manager, step, at_caller, at_instance,
  put_caller, Managed, put_managed, status_after, phase_after, put_instance, Reachable, start, next,
  granted, dropped, cancelled, picked, triggered, swapped,
}

abbrev pub is_watching : Phase → Bool
is_watching watching = true
is_watching _ = false

-- The managers that hold the token.
abbrev pub has_token : Phase → Bool
has_token waiting_drain = true
has_token (relaunching backoff) = true
has_token _ = false

abbrev pub replacing : Instance → Bool
replacing x = has_token x.phase

abbrev pub serving : Instance → Bool
serving x = is_active x.status

-- An instance is active exactly while its manager waits for a trigger.
abbrev pub InStep : Instance → Type 0
InStep x = serving x ≡ is_watching x.phase

abbrev pub Serial : Pool → Type 0
Serial p =
    (p.token + count replacing p.instances ≡ 1)
    × (p.active_instances ≡ count serving p.instances)
    × All InStep p.instances

gauge_lem :
    (old new : Status) (g rest : ℕ)
    → g ≡ to_ℕ (is_active old) + rest
    → gauge old new g ≡ to_ℕ (is_active new) + rest
unfolding gauge is_active
gauge_lem active active g rest h = ground arith
gauge_lem active draining g rest h = ground arith
gauge_lem active down g rest h = ground arith
gauge_lem draining active g rest h = ground arith
gauge_lem draining draining g rest h = ground arith
gauge_lem draining down g rest h = ground arith
gauge_lem down active g rest h = ground arith
gauge_lem down draining g rest h = ground arith
gauge_lem down down g rest h = ground arith

-- What a manager's step does to its instance, the token and the gauge.
step_manager-moves :
    (config : PoolConfig) (e : Event) (x : Instance) (f : Phase) (token g rest : ℕ) (m : Managed)
    → x.phase ≡ f
    → step_manager config e f x token g ≡ some m
    → InStep x
    → g ≡ to_ℕ (serving x) + rest
    → (m.token + to_ℕ (replacing m.instance) ≡ token + to_ℕ (replacing x))
      × (m.active_instances ≡ to_ℕ (serving m.instance) + rest)
      × InStep m.instance
unfolding step_manager triggered swapped is_active status_after phase_after
step_manager-moves config (trigger i RecycleReason.crash) x watching token g rest m hf h s v =
    ground (arith, gauge_lem x.status down g rest v)
step_manager-moves config (trigger i RecycleReason.age) x watching token g rest m hf h s v =
    ground (arith, gauge_lem x.status draining g rest v)
step_manager-moves config (trigger i RecycleReason.count) x watching token g rest m hf h s v =
    ground (arith, gauge_lem x.status draining g rest v)
step_manager-moves config (stale_wakeup i) x watching token g rest m hf h s v = ground (arith)
step_manager-moves config (take_token i) x (awaiting_token RecycleReason.crash) token g rest m hf h
      s v =
    ground arith
step_manager-moves config (take_token i) x (awaiting_token RecycleReason.age) token g rest m hf h s
      v =
    ground arith
step_manager-moves config (take_token i) x (awaiting_token RecycleReason.count) token g rest m hf h
      s v =
    ground arith
step_manager-moves config (drained i expired) x waiting_drain token g rest m hf h s v =
    ground (arith)
step_manager-moves config (relaunch_failed i) x (relaunching b) token g rest m hf h s v =
    ground (arith)
step_manager-moves config (relaunched i) x (relaunching b) token g rest m hf h s v =
    ground (arith, gauge_lem x.status active g rest v)
step_manager-moves config _ x _ token g rest m hf h s v = absurd (none-ne-some h)

-- An element that passes is counted.
count_ge :
    (test : Instance → Bool) (xs : List Instance) (i : ℕ) (x : Instance)
    → get_elem? xs i ≡ some x
    → to_ℕ (test x) ≤ count test xs
count_ge test xs i x h = elim (Bool-cases (test x)) [
  | inl e ↦ omega (arith, ap to_ℕ e, count_pos test xs i x h e)
  | inr e ↦ omega (arith, ap to_ℕ e)
]

pub put_managed-Serial :
    (config : PoolConfig) (e : Event) (i : ℕ) (p : Pool) (x : Instance) (m : Managed)
    → get_elem? p.instances i ≡ some x
    → step_manager config e x.phase x p.token p.active_instances ≡ some m
    → Serial p
    → Serial (put_managed i m p)
unfolding put_managed
put_managed-Serial config e i p x m hx h (one, gauged, instep) =
    let rest = count serving p.instances - to_ℕ (serving x) in
    let (moved, shown, kept) =
      step_manager-moves config e x x.phase p.token p.active_instances rest m refl h
        (All-get_elem? InStep p.instances i x instep hx)
        (omega (arith, gauged, count_ge serving p.instances i x hx)) in
    (
      omega (arith, one, moved, count-set replacing p.instances i x m.instance hx),
      omega (
        arith,
        shown,
        count_ge serving p.instances i x hx,
        count-set serving p.instances i x m.instance hx,
      ),
      All-set InStep p.instances i m.instance instep kept,
    )

-- A request moves no instance's phase or status.
put-Serial :
    (p : Pool) (c i : ℕ) (l : Caller) (x y : Instance)
    → get_elem? p.instances i ≡ some x
    → y.phase ≡ x.phase
    → y.status ≡ x.status
    → Serial p
    → Serial (put_caller c l (put_instance i y p))
unfolding put_caller put_instance
put-Serial p c i l x y hx f t (one, gauged, instep) = (
  omega (arith, one, ap (λ z. to_ℕ (has_token z)) f, count-set replacing p.instances i x y hx),
  omega (arith, gauged, ap (λ z. to_ℕ (is_active z)) t, count-set serving p.instances i x y hx),
  All-set InStep p.instances i y instep
      (ap is_active t ∙ (All-get_elem? InStep p.instances i x instep hx ∙ ap is_watching (sym f))),
)

granted-keeps :
    (i n : ℕ) (x y : Instance) (k : Caller)
    → granted i n x ≡ some (y, k)
    → (y.phase ≡ x.phase) × (y.status ≡ x.status)
unfolding granted
granted-keeps i n x y k h = elim (Bool-cases (x.permits == 0)) [
  | inl e ↦ absurd (none-ne-some (rw (granted, e) at h))
  | inr e ↦ elim (Bool-cases (is_active x.status)) [
    | inl a ↦
        let same =
          some-injective
            (record x { permits = x.permits - 1; in_flight = x.in_flight + 1 }, reading i) (y, k)
            (rw (granted, e, a) at h) in
        (sym (ap (λ s. s.0.phase) same), sym (ap (λ s. s.0.status) same))
    | inr a ↦
        let same = some-injective (x, picking n) (y, k) (rw (granted, e, a) at h) in
        (sym (ap (λ s. s.0.phase) same), sym (ap (λ s. s.0.status) same))
  ]
]

pub step_caller-Serial :
    (config : PoolConfig) (e : Event) (k : Caller) (p q : Pool)
    → step_caller config e k p ≡ some q
    → Serial p
    → Serial q
unfolding step_caller dropped cancelled put_caller
step_caller-Serial config (pick c) (picking n) p q h s =
    subst Serial (some-injective (put_caller c (picked n (choose 0 p.instances)) p) q h) s
step_caller-Serial config (read_handle c) (reading i) p q h s =
    subst Serial (some-injective (put_caller c (holding i) p) q h) s
step_caller-Serial config (cancel c) (waiting i n) p q h s =
    subst Serial (some-injective (put_caller c finished p) q h) s
step_caller-Serial config (cancel c) (reading i) p q h s =
    elim (Option-cases (get_elem? p.instances i)) [
      | inl e ↦ absurd (none-ne-some (rw (step_caller, e) at h))
      | inr (x, e) ↦
          subst Serial
            (some-injective (put_caller c (abandoned i) (put_instance i (cancelled x) p)) q
              (rw (step_caller, e) at h))
            (put-Serial p c i (abandoned i) x (cancelled x) e refl refl s)
    ]
step_caller-Serial config (acquire c) (waiting i n) p q h s =
    elim (Option-cases (get_elem? p.instances i)) [
      | inl e ↦ absurd (none-ne-some (rw (step_caller, e) at h))
      | inr (x, e) ↦ elim (Option-cases (granted i n x)) [
        | inl f ↦ absurd (none-ne-some (rw (step_caller, e, f) at h))
        | inr ((y, k), f) ↦
            let (u, v) = granted-keeps i n x y k f in
            subst Serial
              (some-injective (put_caller c k (put_instance i y p)) q (rw (step_caller, e, f) at h))
              (put-Serial p c i k x y e u v s)
      ]
    ]
step_caller-Serial config (drop_checkout c) (holding i) p q h s =
    elim (Option-cases (get_elem? p.instances i)) [
      | inl e ↦ absurd (none-ne-some (rw (step_caller, e) at h))
      | inr (x, e) ↦
          subst Serial
            (some-injective (put_caller c finished (put_instance i (dropped config x) p)) q
              (rw (step_caller, e) at h))
            (put-Serial p c i finished x (dropped config x) e refl refl s)
    ]
step_caller-Serial config _ _ p q h s = absurd (none-ne-some h)
