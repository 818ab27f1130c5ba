-- ===== src/Worker/Loop/Flow.antt =====
-- src/worker.rs: over every run of the read loop, the permits are enough and no entry is lost on the way to its task.
use browser_headless.Base.{
  ℕ, ◌+◌, ◌-◌, ◌≤◌, ◌<◌, ◌≡◌, refl, sym, ap, ◌∙◌, subst, inl, inr, ◌⊎◌, arith, Bool, true, false,
  none, some, List, [], ◌∷◌, ◌++◌, leb, if◌then◌else◌, length, is_some, none-ne-some, append_nil,
}
use mathlib.Core.Option.{some-injective}
use browser_headless.Worker.Loop.{
  LoopPhase, reserving, reading, reclaiming, dispatching, draining, stopped, ReadLoop, LoopEvent,
  reserve, spawn, finish, shutdown, drained, drain_timeout, read, read_no_group, read_failed,
  reclaim_failed, reclaimed, held, available_permits, after_spawn, spawn_one, take_entries,
  step_reading, step_reclaiming, step_dispatching, step_reserving, step_draining, step_loop, step,
  Reached, at_start, after,
}

-- A guard that let its step through.
guard_some :
    {A : Type 0} (b : Bool) (u t : A) → (if b then some u else none) ≡ some t → (b ≡ true) × (u ≡ t)
guard_some true u t e = (refl, some-injective u t e)
guard_some false u t e = absurd (none-ne-some e)

module _ {Entry : Type 0} where
  -- The permits that a phase counts on are there.
  abbrev pub Fits : ℕ → ℕ → LoopPhase Entry → Type 0
  Fits capacity running reserving = Unit
  Fits capacity running (reading want) = (1 ≤ want) × (running + want ≤ capacity)
  Fits capacity running (reclaiming want) = running + want ≤ capacity
  Fits capacity running (dispatching first entries) =
      (1 ≤ length entries) × (running + length entries ≤ capacity)
  Fits capacity running draining = Unit
  Fits capacity running (stopped true) = running ≡ 0
  Fits capacity running (stopped false) = Unit

  abbrev pub left : LoopPhase Entry → List Entry
  left (dispatching first entries) = entries
  left _ = []

  -- At most so many tasks run, the phase's permits are there, the reconnect waits 1 to 30 seconds, and what was
  -- pulled is what was spawned and then what is left to spawn.
  abbrev pub Flows : ℕ → ReadLoop Entry → Type 0
  Flows capacity s =
      (s.running ≤ capacity)
      × Fits capacity s.running s.phase
      × (1 ≤ s.backoff)
      × (s.backoff ≤ 30)
      × (s.pulled ≡ s.spawned ++ left s.phase)

  take_entries-Flows :
      (capacity want : ℕ) (first : Bool) (otherwise : LoopPhase Entry) (entries : List Entry)
      (s t : ReadLoop Entry)
      → s.running + want ≤ capacity
      → 1 ≤ s.backoff
      → s.backoff ≤ 30
      → s.pulled ≡ s.spawned ++ []
      → Fits capacity s.running otherwise
      → left otherwise ≡ []
      → take_entries want first otherwise entries s ≡ some t
      → Flows capacity t
  unfolding take_entries
  take_entries-Flows capacity want first otherwise [] s t h b b' p f l e =
      subst (Flows capacity) (some-injective _ t e)
        (omega (arith, h), f, b, b', p ∙ ap (λ r. s.spawned ++ r) (sym l))
  take_entries-Flows capacity want first otherwise (x ∷ entries) s t h b b' p f l e =
      let (fits, same) = guard_some (leb (length (x ∷ entries)) want) _ t e in
      subst (Flows capacity) same (
        omega (arith, h),
        (ground arith, ground (arith, fits, h)),
        b,
        b',
        ap (λ r. r ++ (x ∷ entries)) (p ∙ append_nil s.spawned),
      )

  snoc : (xs ys : List Entry) (e : Entry) → xs ++ (e ∷ ys) ≡ (xs ++ (e ∷ [])) ++ ys
  snoc [] ys e = refl
  snoc (x ∷ xs) ys e = ap (◌∷◌ x) (snoc xs ys e)

  spawn_one-Flows :
      (capacity : ℕ) (first : Bool) (e : Entry) (entries : List Entry) (s : ReadLoop Entry)
      → Fits capacity s.running (dispatching first (e ∷ entries))
      → 1 ≤ s.backoff
      → s.backoff ≤ 30
      → s.pulled ≡ s.spawned ++ (e ∷ entries)
      → Flows capacity (spawn_one e entries s)
  unfolding spawn_one after_spawn
  spawn_one-Flows capacity first e [] s f b b' p =
      (ground (arith, f.1), tt, b, b', p ∙ sym (append_nil (s.spawned ++ (e ∷ []))))
  spawn_one-Flows capacity first e (x ∷ entries) s f b b' p = (
    ground (arith, f.1),
    (ground arith, ground (arith, f.1)),
    b,
    b',
    p ∙ snoc s.spawned (x ∷ entries) e,
  )

  -- One step of the loop, from what its phase counts on.
  step_loop-Flows :
      (capacity : ℕ) (event : LoopEvent Entry) (s t : ReadLoop Entry) (phase : LoopPhase Entry)
      → s.running ≤ capacity
      → Fits capacity s.running phase
      → 1 ≤ s.backoff
      → s.backoff ≤ 30
      → s.pulled ≡ s.spawned ++ left phase
      → step_loop capacity event s phase ≡ some t
      → Flows capacity t
  unfolding step_loop step_reserving step_reading step_reclaiming step_dispatching step_draining
      available_permits
  step_loop-Flows capacity reserve s t reserving r f b b' p e =
      let (free, same) = guard_some _ _ t e in
      subst (Flows capacity) same (r, (ground arith, ground (arith, free)), b, b', p)
  step_loop-Flows capacity shutdown s t reserving r f b b' p e =
      subst (Flows capacity) (some-injective _ t e) (r, tt, b, b', p)
  step_loop-Flows capacity (read entries) s t (reading want) r f b b' p e =
      take_entries-Flows capacity want true (reclaiming want) entries (record s { backoff = 1 }) t
        f.1 (omega arith) (omega arith) p f.1 refl e
  step_loop-Flows capacity read_no_group s t (reading want) r f b b' p e =
      subst (Flows capacity) (some-injective _ t e) (r, tt, omega arith, omega arith, p)
  step_loop-Flows capacity read_failed s t (reading want) r f b b' p e =
      subst (Flows capacity) (some-injective _ t e) (r, tt, omega (arith, b), omega arith, p)
  step_loop-Flows capacity shutdown s t (reading want) r f b b' p e =
      subst (Flows capacity) (some-injective _ t e) (r, tt, b, b', p)
  step_loop-Flows capacity (reclaimed entries) s t (reclaiming want) r f b b' p e =
      take_entries-Flows capacity want false reserving entries s t f b b' p tt refl e
  step_loop-Flows capacity reclaim_failed s t (reclaiming want) r f b b' p e =
      subst (Flows capacity) (some-injective _ t e) (r, tt, b, b', p)
  step_loop-Flows capacity spawn s t (dispatching true (x ∷ entries)) r f b b' p e =
      subst (Flows capacity) (some-injective _ t e)
        (spawn_one-Flows capacity true x entries s f b b' p)
  step_loop-Flows capacity spawn s t (dispatching false (x ∷ entries)) r f b b' p e =
      let (free, same) = guard_some _ _ t e in
      subst (Flows capacity) same (spawn_one-Flows capacity false x entries s f b b' p)
  step_loop-Flows capacity spawn s t (dispatching true []) r f b b' p e = absurd (none-ne-some e)
  step_loop-Flows capacity spawn s t (dispatching false []) r f b b' p e = absurd (none-ne-some e)
  step_loop-Flows capacity drained s t draining r f b b' p e =
      let (free, same) = guard_some _ _ t e in
      subst (Flows capacity) same (r, ground (arith, free, r), b, b', p)
  step_loop-Flows capacity drain_timeout s t draining r f b b' p e =
      subst (Flows capacity) (some-injective _ t e) (r, tt, b, b', p)
  step_loop-Flows capacity finish s t reserving r f b b' p e = absurd (none-ne-some e)
  step_loop-Flows capacity finish s t (reading want) r f b b' p e = absurd (none-ne-some e)
  step_loop-Flows capacity finish s t (reclaiming want) r f b b' p e = absurd (none-ne-some e)
  step_loop-Flows capacity finish s t (dispatching first entries) r f b b' p e =
      absurd (none-ne-some e)
  step_loop-Flows capacity finish s t draining r f b b' p e = absurd (none-ne-some e)
  step_loop-Flows capacity finish s t (stopped clean) r f b b' p e = absurd (none-ne-some e)
  step_loop-Flows capacity event s t phase r f b b' p e = absurd (none-ne-some e)

  -- A step is the loop's, or the end of a task.
  step-cases :
      (capacity : ℕ) (event : LoopEvent Entry) (s t : ReadLoop Entry)
      → step capacity event s ≡ some t
      → ((0 < s.running) × (record s { running = s.running - 1 } ≡ t))
        ⊎ (step_loop capacity event s s.phase ≡ some t)
  unfolding step
  step-cases capacity finish s t e =
      let (busy, same) = guard_some _ _ t e in inl (ground (arith, busy), same)
  step-cases capacity _ s t e = inr e

  Fits-fewer :
      (capacity running fewer : ℕ) (phase : LoopPhase Entry)
      → fewer ≤ running
      → Fits capacity running phase
      → Fits capacity fewer phase
  Fits-fewer capacity running fewer reserving h f = tt
  Fits-fewer capacity running fewer (reading want) h f = (f.0, omega (arith, h, f.1))
  Fits-fewer capacity running fewer (reclaiming want) h f = omega (arith, h, f)
  Fits-fewer capacity running fewer (dispatching first entries) h f = (f.0, omega (arith, h, f.1))
  Fits-fewer capacity running fewer draining h f = tt
  Fits-fewer capacity running fewer (stopped true) h f = omega (arith, h, f)
  Fits-fewer capacity running fewer (stopped false) h f = tt

  Reached-Flows : (capacity : ℕ) (s : ReadLoop Entry) → Reached capacity s → Flows capacity s
  Reached-Flows capacity _ at_start = (omega arith, tt, omega arith, omega arith, refl)
  Reached-Flows capacity t (after s _ event before e) =
      let (r, f, b, b', p) = Reached-Flows capacity s before in
      elim (step-cases capacity event s t e) [
        | inl (busy, same) ↦ subst (Flows capacity) same (
          omega (arith, r),
          Fits-fewer capacity s.running (s.running - 1) s.phase (omega arith) f,
          b,
          b',
          p,
        )
        | inr looped ↦ step_loop-Flows capacity event s t s.phase r f b b' p looped
      ]

  -- The entry next to spawn never waits for a permit.
  spawn-ready :
      (capacity : ℕ) (s : ReadLoop Entry) (first : Bool) (entries : List Entry)
      → Fits capacity s.running (dispatching first entries)
      → s.phase ≡ dispatching first entries
      → is_some (step capacity spawn s) ≡ true
  unfolding step step_loop step_dispatching available_permits held
  spawn-ready capacity s first [] f e = absurd (omega (arith, f.0))
  spawn-ready capacity s true (x ∷ entries) f e = rw e refl
  spawn-ready capacity s false (x ∷ entries) f e = rw e (ground (arith, f.1))

  -- What a phase promises: a spawn that is possible, and no task after a clean drain.
  abbrev pub Due : ℕ → ReadLoop Entry → LoopPhase Entry → Type 0
  Due capacity s (dispatching first entries) = is_some (step capacity spawn s) ≡ true
  Due capacity s (stopped true) = s.running ≡ 0
  Due capacity s _ = Unit

  due :
      (capacity : ℕ) (s : ReadLoop Entry) (phase : LoopPhase Entry)
      → s.phase ≡ phase
      → Fits capacity s.running phase
      → Due capacity s phase
  due capacity s reserving e f = tt
  due capacity s (reading want) e f = tt
  due capacity s (reclaiming want) e f = tt
  due capacity s (dispatching first entries) e f = spawn-ready capacity s first entries f e
  due capacity s draining e f = tt
  due capacity s (stopped true) e f = f
  due capacity s (stopped false) e f = tt

  -- Over every run of the read loop, at most `capacity` tasks run; an entry that was pulled has been given to one
  -- task, in the order of the pull, or is next, and then a permit for it is free; the wait before a
  -- reconnect is 1 to 30 seconds; and a drain that ends cleanly leaves no task running.
  pub Reached-Flow :
      (capacity : ℕ) (s : ReadLoop Entry)
      → Reached capacity s
      → (s.running ≤ capacity)
        × (s.pulled ≡ s.spawned ++ left s.phase)
        × (1 ≤ s.backoff)
        × (s.backoff ≤ 30)
        × Due capacity s s.phase
  Reached-Flow capacity s reached =
      let (r, f, b, b', p) = Reached-Flows capacity s reached in
      (r, p, b, b', due capacity s s.phase refl f)
