-- ===== src/Pool/Recycle.antt =====
-- src/pool.rs: what the triggers of the managers do to the pool's capacity.
use browser_headless.Base.{
  ℕ, ◌≡◌, refl, ap, ◌∙◌, some, List, [], ◌∷◌, ◌++◌, arith, get_elem?, set, length, count,
  count-append, length-replicate, append_nil, All, All-replicate, length-set,
}
use browser_headless.Pool.State.{
  PoolConfig, picking, refused, Pool, Instance, draining, RecycleReason, watching, launch,
  is_active, new_instance, gauge,
}
use browser_headless.Pool.Steps.{
  call, pick, trigger, step_caller, step_manager, step, at_caller, at_instance, put_caller, Managed,
  put_managed, Reachable, start, next, picked, can_trigger, triggered, status_after,
}
use browser_headless.Pool.Token.{serving}
use browser_headless.Pool.Choice.{choose-none}

step-aged :
    (config : PoolConfig) (d i : ℕ) (p : Pool) (x : Instance)
    → config.recycle_after ≡ some d
    → get_elem? p.instances i ≡ some x
    → x.phase ≡ watching
    → step config (trigger i RecycleReason.age) p
      ≡ some (
          put_managed i
            (record {
              instance = triggered RecycleReason.age x;
              token = p.token;
              active_instances = gauge x.status draining p.active_instances;
            })
            p)
unfolding step at_instance step_manager can_trigger status_after
step-aged config d i p x hd hx hw = rw (step, at_instance, hx, hw, can_trigger, hd) refl

get_elem?-middle :
    (xs ys : List Instance) (y : Instance) → get_elem? (xs ++ (y ∷ ys)) (length xs) ≡ some y
get_elem?-middle [] ys y = refl
get_elem?-middle (x ∷ xs) ys y = get_elem?-middle xs ys y

set-middle :
    (xs ys : List Instance) (y z : Instance)
    → set (xs ++ (y ∷ ys)) (length xs) z ≡ (xs ++ (z ∷ [])) ++ ys
set-middle [] ys y z = refl
set-middle (x ∷ xs) ys y z = ap (◌∷◌ x) (set-middle xs ys y z)

-- The triggers fire one after the other, before any manager takes the token.
reach_idle :
    (config : PoolConfig) (d : ℕ) (xs ys : List Instance) (p : Pool)
    → config.recycle_after ≡ some d
    → Reachable config p
    → p.instances ≡ xs ++ ys
    → p.callers ≡ []
    → count serving xs ≡ 0
    → All (λ y. y.phase ≡ watching) ys
    → (q : Pool) × Reachable config q
      × (length q.instances ≡ length p.instances)
      × (count serving q.instances ≡ 0)
      × (q.callers ≡ [])
unfolding put_managed triggered status_after is_active
reach_idle config d xs [] p hd r e ec idle w =
    (p, r, refl, ap (count serving) (e ∙ append_nil xs) ∙ idle, ec)
reach_idle config d xs (y ∷ ys) p hd r e ec idle w =
    let y' = triggered RecycleReason.age y in
    let i = length xs in
    let m : Managed = record {
      instance = y';
      token = p.token;
      active_instances = gauge y.status draining p.active_instances;
    } in
    let found : get_elem? p.instances i ≡ some y =
      ap (λ s. get_elem? s i) e ∙ get_elem?-middle xs ys y in
    let (q, s, len, none_left, ec') =
      reach_idle config d (xs ++ (y' ∷ [])) ys (put_managed i m p) hd
        (next (trigger i RecycleReason.age) p (put_managed i m p) r
          (step-aged config d i p y hd found w.0))
        (ap (λ s. set s i y') e ∙ set-middle xs ys y y') ec
        (count-append serving xs (y' ∷ []) ∙ omega (arith, idle)) w.1 in
    (q, s, len ∙ length-set p.instances i y', none_left, ec')

call_idle :
    (config : PoolConfig) (p : Pool)
    → p.callers ≡ []
    → step config call p ≡ some (record p { callers = picking 4 ∷ [] })
unfolding step
call_idle config p ec = ap (λ s. some (record p { callers = s ++ (picking 4 ∷ []) })) ec

pick_idle :
    (config : PoolConfig) (p : Pool)
    → count serving p.instances ≡ 0
    → step config (pick 0) (record p { callers = picking 4 ∷ [] })
      ≡ some (record p { callers = refused ∷ [] })
unfolding step at_caller step_caller put_caller picked
pick_idle config p idle =
    ap (λ o. some (record p { callers = picked 4 o ∷ [] })) (choose-none 0 p.instances idle)

-- A pool of any size whose configuration recycles by age has a run to a pool of that size with no
-- active instance, in which a checkout that begins is refused: the token that serializes the
-- replacements is only taken after an instance has been taken out of service.
pub recycle-refuses :
    (config : PoolConfig) (d : ℕ)
    → config.recycle_after ≡ some d
    → (q : Pool) × Reachable config q
      × (length q.instances ≡ config.pool_size)
      × (count serving q.instances ≡ 0)
      × (q.callers ≡ refused ∷ [])
unfolding launch new_instance
recycle-refuses config d hd =
    let (p, r, len, idle, ec) =
      reach_idle config d [] (launch config).instances (launch config) hd start refl refl refl
        (All-replicate (λ y. y.phase ≡ watching) config.pool_size (new_instance config) refl) in
    let called = record p { callers = picking 4 ∷ [] } in
    let q = record p { callers = refused ∷ [] } in
    (
      q,
      next (pick 0) called q (next call p called r (call_idle config p ec))
          (pick_idle config p idle),
      len ∙ length-replicate config.pool_size (new_instance config),
      idle,
      refl,
    )
