-- ===== src/Examples/Pools.antt =====
-- The pool at a concrete configuration: three instances of two pages, recycled by age.
use browser_headless.Base.{◌≡◌, refl, false, some, [], ◌∷◌, length, count}
use browser_headless.Pool.State.{
  PoolConfig, Pool, Instance, active, down, Phase, watching, picking, waiting, reading, refused,
  launch, choose, new_instance, RecycleReason, is_active,
}
use browser_headless.Pool.Steps.{
  call, pick, acquire, trigger, Reachable, start, next, step, at_caller, at_instance, step_caller,
  step_manager,
}
use browser_headless.Pool.Seats.{Seats}
use browser_headless.Pool.Seats.Runs.{Reachable-Seats}
use browser_headless.Pool.Token.{Serial, serving}
use browser_headless.Pool.Token.Runs.{Reachable-Serial}
use browser_headless.Pool.Recycle.{recycle-refuses}

abbrev small_config : PoolConfig
small_config = record {
  pool_size = 3;
  pages_per_instance = 2;
  recycle_after_requests = 0;
  recycle_after = some 60000;
  drain_timeout = 30000;
}

abbrev fresh_instance : Instance
fresh_instance = record {
  permits = 2;
  in_flight = 0;
  served = 0;
  status = active;
  notified = false;
  generation = 0;
  phase = watching;
}

-- A request has been granted a page of the third instance, and the first one has crashed.
abbrev busy_pool : Pool
busy_pool = record {
  instances =
      record fresh_instance { status = down; phase = Phase.awaiting_token RecycleReason.crash }
      ∷ fresh_instance
      ∷ record fresh_instance { permits = 1; in_flight = 1 }
      ∷ [];
  callers = reading 2 ∷ [];
  token = 1;
  active_instances = 2;
}

abbrev called_pool : Pool
called_pool = record {
  instances = fresh_instance ∷ fresh_instance ∷ fresh_instance ∷ [];
  callers = picking 4 ∷ [];
  token = 1;
  active_instances = 3;
}

busy_pool-Reachable : Reachable small_config busy_pool
unfolding launch new_instance step at_caller at_instance step_caller step_manager choose is_active
busy_pool-Reachable =
    let chosen = record called_pool { callers = waiting 2 3 ∷ [] } in
    let taken = record chosen {
      instances =
          fresh_instance
          ∷ fresh_instance
          ∷ record fresh_instance { permits = 1; in_flight = 1 }
          ∷ [];
      callers = reading 2 ∷ [];
    } in
    next (trigger 0 RecycleReason.crash) taken busy_pool
      (next (acquire 0) chosen taken
        (next (pick 0) called_pool chosen (next call (launch small_config) called_pool start refl)
          refl)
        refl)
      refl

Reachable-Seats_example : Seats small_config busy_pool
Reachable-Seats_example = Reachable-Seats small_config busy_pool busy_pool-Reachable

Reachable-Serial_example : Serial busy_pool
Reachable-Serial_example = Reachable-Serial small_config busy_pool busy_pool-Reachable

recycle-refuses_example :
    (q : Pool) × Reachable small_config q
    × (length q.instances ≡ 3)
    × (count serving q.instances ≡ 0)
    × (q.callers ≡ refused ∷ [])
recycle-refuses_example = recycle-refuses small_config 60000 refl
