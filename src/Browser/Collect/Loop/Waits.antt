-- ===== src/Browser/Collect/Loop/Waits.antt =====
-- When the collect loop of src/browser/mod.rs stops: the deadline, the grace after the gate, and the quiet time.
use browser_headless.Base.{
  ℕ, ◌+◌, ◌≤◌, ◌<◌, ◌≡◌, ◌⊎◌, refl, sym, ◌∙◌, subst, inl, inr, arith, Bool, true, false, not, none,
  some, List, [], ◌∷◌, ◌++◌, Text, is_empty, min, max, ok, ok-injective,
}
use browser_headless.Browser.Collect.State.{ResponseReceived, Progress, start_progress}
use browser_headless.Browser.Collect.Lean.{
  get_or_insert, on_lifecycle, match_pattern, lean_response, collect_stop_at, gate_at, stop_at,
  post_idle_grace, quiet_grace,
}
use browser_headless.Browser.Collect.Loop.Rounds.{
  collect_loop-keeps, collect_loop-next, collect_loop-stops, collect_loop-waits,
}
use browser_headless.Browser.Collect.Loop.{
  Round, Outcome, running, stopped, take_arrival, after_event, collect_loop, LeanEvent,
  lean_lifecycle, lean_received, lean_handle, run_lean,
}

-- The gate fired at `t`, and no pattern is pending.
abbrev pub IsReady : Bool → ℕ → Progress → Type 0
IsReady wait_until_load t p = (gate_at wait_until_load p ≡ some t) × (p.pending_patterns ≡ [])

on_lifecycle-IsReady :
    (wait_until_load : Bool) (t at ts : ℕ) (name : Text) (p : Progress)
    → IsReady wait_until_load t p
    → IsReady wait_until_load t (on_lifecycle at ts name p)
unfolding on_lifecycle get_or_insert gate_at
on_lifecycle-IsReady true t at ts name p h = ground arith
on_lifecycle-IsReady false t at ts name p h = ground arith

lean_response-IsReady :
    (wait_until_load : Bool) (t : ℕ) (ev : ResponseReceived) (p q : Progress)
    → lean_response ev p ≡ ok q
    → IsReady wait_until_load t p
    → IsReady wait_until_load t q
unfolding lean_response match_pattern gate_at
lean_response-IsReady true t ev p q e h = ground arith
lean_response-IsReady false t ev p q e h = ground arith

lean_handle-IsReady :
    (wait_until_load : Bool) (t at : ℕ) (ev : LeanEvent) (p q : Progress)
    → lean_handle at ev p ≡ ok q
    → IsReady wait_until_load t p
    → IsReady wait_until_load t q
unfolding lean_handle
lean_handle-IsReady wait_until_load t at (lean_lifecycle ts name) p q e h =
    subst (IsReady wait_until_load t) (ok-injective e)
      (on_lifecycle-IsReady wait_until_load t at ts name p h)
lean_handle-IsReady wait_until_load t at (lean_received ev) p q e h =
    lean_response-IsReady wait_until_load t ev p q e h

stop_at-ready :
    (deadline last t : ℕ) (wait_until_load : Bool) (p : Progress)
    → IsReady wait_until_load t p
    → stop_at deadline wait_until_load last p
      ≡ min (min deadline (t + post_idle_grace)) (max last t + quiet_grace)
unfolding stop_at collect_stop_at
stop_at-ready deadline last t wait_until_load p h = rw h.0 (rw h.1 refl)

-- The round is past what a ready loop waits for, or before it.
abbrev pub IsOver : ℕ → ℕ → Round LeanEvent → Type 0
IsOver deadline t r =
    (deadline ≤ r.now)
    ⊎ (t + post_idle_grace ≤ r.now)
    ⊎ (max r.last_event_at t + quiet_grace ≤ r.now)

IsOver-le :
    (deadline t stop : ℕ) (r : Round LeanEvent)
    → stop ≡ min (min deadline (t + post_idle_grace)) (max r.last_event_at t + quiet_grace)
    → IsOver deadline t r
    → stop ≤ r.now
IsOver-le deadline t stop r e (inl h) = omega arith
IsOver-le deadline t stop r e (inr (inl h)) = omega arith
IsOver-le deadline t stop r e (inr (inr h)) = omega arith

-- The gate has not fired, or it did less than 100 ms ago.
abbrev pub BeforeQuiet : Bool → Round LeanEvent → Progress → Type 0
BeforeQuiet wait_until_load r p =
    (gate_at wait_until_load p ≡ none)
    ⊎ ((t : ℕ) × (gate_at wait_until_load p ≡ some t) × (r.now < t + quiet_grace))

collect_stop_at-later :
    (deadline t last now : ℕ) (pending : Bool)
    → now < deadline
    → now < t + quiet_grace
    → now < collect_stop_at deadline (some t) pending last
unfolding collect_stop_at
collect_stop_at-later deadline t last now true h k = h
collect_stop_at-later deadline t last now false h k = omega arith

stop_at-later :
    (deadline : ℕ) (r : Round LeanEvent) (wait_until_load : Bool) (p : Progress)
    → r.now < deadline
    → BeforeQuiet wait_until_load r p
    → r.now < stop_at deadline wait_until_load r.last_event_at p
unfolding stop_at
stop_at-later deadline r wait_until_load p h (inl e) = rw (e, collect_stop_at) h
stop_at-later deadline r wait_until_load p h (inr (t, e, k)) =
    rw e (
      collect_stop_at-later deadline t r.last_event_at r.now (not (is_empty p.pending_patterns)) h
        k)

module _ (deadline : ℕ) (wait_for_request : List Text) (wait_until_load : Bool) where
  abbrev pub run : List (Round LeanEvent) → Outcome Progress
  run = run_lean deadline wait_for_request wait_until_load

  -- Readiness is kept wherever the loop gets later.
  run-IsReady :
      (pre more : List (Round LeanEvent)) (t : ℕ) (p q : Progress)
      → run pre ≡ running p
      → IsReady wait_until_load t p
      → run (pre ++ more) ≡ running q
      → IsReady wait_until_load t q
  unfolding run_lean
  run-IsReady pre more t p q e ready e' =
      let stop = stop_at deadline wait_until_load in
      let start = start_progress wait_for_request in
      collect_loop-keeps lean_handle stop (IsReady wait_until_load t) more p q
        (lean_handle-IsReady wait_until_load t) ready
        (sym (collect_loop-next lean_handle stop pre more start p e) ∙ e')

  -- Once the gate fired at `t` with no pattern pending, wherever the loop gets later: it stops at a round whose clock
  -- is at the deadline, at `t` + 500 ms, or 100 ms after the gate and the last event, and keeps what it has.
  pub run_lean-Stops :
      (pre more post : List (Round LeanEvent)) (r : Round LeanEvent) (t : ℕ) (p q : Progress)
      → run pre ≡ running p
      → IsReady wait_until_load t p
      → run (pre ++ more) ≡ running q
      → IsOver deadline t r
      → run ((pre ++ more) ++ r ∷ post) ≡ stopped q
  unfolding run_lean
  run_lean-Stops pre more post r t p q e ready e' over =
      let stop = stop_at deadline wait_until_load in
      let bound =
        stop_at-ready deadline r.last_event_at t wait_until_load q
          (run-IsReady pre more t p q e ready e') in
      collect_loop-next lean_handle stop (pre ++ more) (r ∷ post) (start_progress wait_for_request)
        q e'
      ∙ collect_loop-stops lean_handle stop r post q
          (IsOver-le deadline t (stop r.last_event_at q) r bound over)

  -- Before the deadline, and before 100 ms after the gate, the loop waits for what the round yields, ready or not.
  pub run_lean-Waits :
      (pre post : List (Round LeanEvent)) (r : Round LeanEvent) (p : Progress)
      → run pre ≡ running p
      → r.now < deadline
      → BeforeQuiet wait_until_load r p
      → run (pre ++ r ∷ post)
        ≡ take_arrival r.arrival p (λ at ev.
          after_event
            (lean_handle at ev p)
            (collect_loop lean_handle (stop_at deadline wait_until_load) post))
  unfolding run_lean
  run_lean-Waits pre post r p e early quiet =
      let stop = stop_at deadline wait_until_load in
      collect_loop-next lean_handle stop pre (r ∷ post) (start_progress wait_for_request) p e
      ∙ collect_loop-waits lean_handle stop r post p
          (stop_at-later deadline r wait_until_load p early quiet)
