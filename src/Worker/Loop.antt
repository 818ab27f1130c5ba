-- ===== src/Worker/Loop.antt =====
-- The read loop of `run` of src/worker.rs and its drain. A step is what the loop does with one answer, or the end of
-- one job's task; which event comes next is the choice of Redis, of the jobs and of the shutdown signal.
pub mod Flow
use browser_headless.Base.{
  ℕ, zero, suc, ◌+◌, ◌-◌, ◌*◌, ◌≡◌, Bool, true, false, Option, none, some, List, [], ◌∷◌, ◌++◌, ltb,
  leb, ◌==◌, if◌then◌else◌, length, min,
}

-- Waiting for a permit; reading up to so many entries with one permit held; reclaiming up to so many, with none;
-- spawning the entries, with the first permit still held or not; draining; and stopped, cleanly or not.
pub data LoopPhase (Entry : Type 0) : Type 0 where
  reserving : LoopPhase Entry
  reading : ℕ → LoopPhase Entry
  reclaiming : ℕ → LoopPhase Entry
  dispatching : Bool → List Entry → LoopPhase Entry
  draining : LoopPhase Entry
  stopped : Bool → LoopPhase Entry

-- `running` counts the tasks that hold a permit; `pulled` and `spawned` are the entries taken from Redis and those
-- given to a task, in order.
pub record ReadLoop (Entry : Type 0) : Type 0 where
  pub phase : LoopPhase Entry
  pub running : ℕ
  pub backoff : ℕ
  pub pulled : List Entry
  pub spawned : List Entry

pub data LoopEvent (Entry : Type 0) : Type 0 where
  reserve spawn finish shutdown drained drain_timeout : LoopEvent Entry
  read : List Entry → LoopEvent Entry
  read_no_group read_failed reclaim_failed : LoopEvent Entry
  reclaimed : List Entry → LoopEvent Entry

module _ {Entry : Type 0} where
  unfoldable pub held : LoopPhase Entry → ℕ
  held (reading want) = 1
  held (dispatching true entries) = 1
  held _ = 0

  -- `inflight.available_permits()`.
  unfoldable pub available_permits : ℕ → ReadLoop Entry → ℕ
  unfolding held
  available_permits capacity s = capacity - (s.running + held s.phase)

  abbrev pub started : ReadLoop Entry
  started = record { phase = reserving; running = 0; backoff = 1; pulled = []; spawned = [] }

  -- What is left to spawn decides the phase.
  unfoldable pub after_spawn : List Entry → LoopPhase Entry
  after_spawn [] = reserving
  after_spawn (e ∷ entries) = dispatching false (e ∷ entries)

  unfoldable pub spawn_one : Entry → List Entry → ReadLoop Entry → ReadLoop Entry
  unfolding after_spawn
  spawn_one e entries s = record s {
    phase = after_spawn entries;
    running = s.running + 1;
    spawned = s.spawned ++ (e ∷ []);
  }

  -- The entries of an answer: `COUNT` bounds them.
  unfoldable pub take_entries :
      ℕ → Bool → LoopPhase Entry → List Entry → ReadLoop Entry → Option (ReadLoop Entry)
  take_entries want first otherwise [] s = some (record s { phase = otherwise })
  take_entries want first otherwise (e ∷ entries) s =
      if leb (length (e ∷ entries)) want
      then some
          (record s { phase = dispatching first (e ∷ entries); pulled = s.pulled ++ (e ∷ entries) })
      else none

  unfoldable pub step_reading : ℕ → LoopEvent Entry → ReadLoop Entry → Option (ReadLoop Entry)
  unfolding take_entries
  step_reading want (read entries) s =
      take_entries want true (reclaiming want) entries (record s { backoff = 1 })
  step_reading want read_no_group s = some (record s { phase = reserving; backoff = 1 })
  step_reading want read_failed s =
      some (record s { phase = reserving; backoff = min (s.backoff * 2) 30 })
  step_reading want shutdown s = some (record s { phase = draining })
  step_reading want _ s = none

  unfoldable pub step_reclaiming : ℕ → LoopEvent Entry → ReadLoop Entry → Option (ReadLoop Entry)
  unfolding take_entries
  step_reclaiming want (reclaimed entries) s = take_entries want false reserving entries s
  step_reclaiming want reclaim_failed s = some (record s { phase = reserving })
  step_reclaiming want _ s = none

  -- The first entry takes over the permit that is held; the others acquire one.
  unfoldable pub step_dispatching :
      ℕ → LoopEvent Entry → Bool → List Entry → ReadLoop Entry → Option (ReadLoop Entry)
  unfolding spawn_one available_permits
  step_dispatching capacity spawn true (e ∷ entries) s = some (spawn_one e entries s)
  step_dispatching capacity spawn false (e ∷ entries) s =
      if ltb 0 (available_permits capacity s) then some (spawn_one e entries s) else none
  step_dispatching capacity _ first entries s = none

  unfoldable pub step_reserving : ℕ → LoopEvent Entry → ReadLoop Entry → Option (ReadLoop Entry)
  unfolding available_permits
  step_reserving capacity reserve s =
      if ltb 0 (available_permits capacity s)
      then some (record s { phase = reading (1 + (available_permits capacity s - 1)) })
      else none
  step_reserving capacity shutdown s = some (record s { phase = draining })
  step_reserving capacity _ s = none

  -- All permits are acquired, or the drain times out.
  unfoldable pub step_draining : ℕ → LoopEvent Entry → ReadLoop Entry → Option (ReadLoop Entry)
  unfolding available_permits
  step_draining capacity drained s =
      if leb capacity (available_permits capacity s)
      then some (record s { phase = stopped true })
      else none
  step_draining capacity drain_timeout s = some (record s { phase = stopped false })
  step_draining capacity _ s = none

  unfoldable pub step_loop :
      ℕ → LoopEvent Entry → ReadLoop Entry → LoopPhase Entry → Option (ReadLoop Entry)
  unfolding step_reserving step_reading step_reclaiming step_dispatching step_draining
  step_loop capacity event s reserving = step_reserving capacity event s
  step_loop capacity event s (reading want) = step_reading want event s
  step_loop capacity event s (reclaiming want) = step_reclaiming want event s
  step_loop capacity event s (dispatching first entries) =
      step_dispatching capacity event first entries s
  step_loop capacity event s draining = step_draining capacity event s
  step_loop capacity event s (stopped clean) = none

  -- A task ends in any phase and gives its permit back.
  unfoldable pub step : ℕ → LoopEvent Entry → ReadLoop Entry → Option (ReadLoop Entry)
  unfolding step_loop
  step capacity finish s =
      if ltb 0 s.running then some (record s { running = s.running - 1 }) else none
  step capacity event s = step_loop capacity event s s.phase

-- The runs of the loop from its start.
pub data Reached {Entry : Type 0} (capacity : ℕ) : ReadLoop Entry → Type 0 where
  at_start : Reached capacity started
  after :
      (s t : ReadLoop Entry) (event : LoopEvent Entry)
      → Reached capacity s
      → step capacity event s ≡ some t
      → Reached capacity t
