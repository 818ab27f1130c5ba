-- ===== src/Browser/Collect/Loop.antt =====
-- The loops of `collect_summary` and `collect_summary_lean` of src/browser/mod.rs. What a round meets is the choice of
-- the browser and of the clock: its two readings of the clock at the head, and what the `select!` yields.
pub mod Agreement
pub mod Rounds
pub mod Waits
use browser_headless.Base.{
  ℕ, ◌+◌, ◌≤◌, Bool, true, false, Option, none, some, List, [], ◌∷◌, Text, leb, if◌then◌else◌,
  Result, ok, err,
}
use browser_headless.Error.{BrowserError}
use browser_headless.Browser.Resource.{ParsedUrl}
use browser_headless.Browser.Collect.State.{
  CollectCaptures, ResponseReceived, Event, Progress, Collect, start_progress, start_collect,
}
use browser_headless.Browser.Collect.Lean.{on_lifecycle, lean_response, stop_at}
use browser_headless.Browser.Collect.Handlers.{full_stop_at, handle}

-- The sleep ends, every stream ends, or an event arrives, with the handler's clock.
pub data Arrival (E : Type 0) : Type 0 where
  slept closed : Arrival E
  arrived : ℕ → E → Arrival E

-- `last_event_at` and the reading that `remaining` is computed from, at the head of the round.
pub record Round (E : Type 0) : Type 0 where
  pub last_event_at : ℕ
  pub now : ℕ
  pub arrival : Arrival E

-- Still running when the rounds end, left by `break`, or returned with an error.
pub data Outcome (S : Type 0) : Type 0 where
  running : S → Outcome S
  stopped : S → Outcome S
  failed : BrowserError → Outcome S

-- The loop over what its body does with an event, and what it reads of its state.
module _ {S : Type 0} where
  unfoldable pub take_arrival : {E : Type 0} → Arrival E → S → (ℕ → E → Outcome S) → Outcome S
  take_arrival slept s on_event = stopped s
  take_arrival closed s on_event = stopped s
  take_arrival (arrived at ev) s on_event = on_event at ev

  -- An error of the body leaves the function.
  unfoldable pub after_event : Result S BrowserError → (S → Outcome S) → Outcome S
  after_event (ok s) next = next s
  after_event (err e) next = failed e

  module _ {E : Type 0} (body : ℕ → E → S → Result S BrowserError) (stop : ℕ → S → ℕ) where
    unfoldable pub collect_loop : List (Round E) → S → Outcome S
    unfolding take_arrival after_event
    collect_loop [] s = running s
    collect_loop (r ∷ rs) s =
        if leb (stop r.last_event_at s) r.now
        then stopped s
        else take_arrival r.arrival s (λ at ev. after_event (body at ev s) (λ t. collect_loop rs t))

-- The lean loop has streams of the lifecycle and the responses only.
pub data LeanEvent : Type 0 where
  lean_lifecycle : ℕ → Text → LeanEvent
  lean_received : ResponseReceived → LeanEvent

unfoldable pub lean_handle : ℕ → LeanEvent → Progress → Result Progress BrowserError
unfolding lean_response on_lifecycle
lean_handle at (lean_lifecycle ts name) p = ok (on_lifecycle at ts name p)
lean_handle at (lean_received ev) p = lean_response ev p

unfoldable pub run_lean : ℕ → List Text → Bool → List (Round LeanEvent) → Outcome Progress
unfolding collect_loop lean_handle stop_at
run_lean deadline wait_for_request wait_until_load rounds =
    collect_loop lean_handle (stop_at deadline wait_until_load) rounds
      (start_progress wait_for_request)

unfoldable pub run_full :
    (Text → Option ParsedUrl)
    → ℕ
    → CollectCaptures
    → Text
    → ℕ
    → List Text
    → Bool
    → List (Round Event)
    → Outcome Collect
unfolding collect_loop handle full_stop_at
run_full parse now_secs captures url deadline wait_for_request wait_until_load rounds =
    collect_loop (handle parse now_secs captures) (full_stop_at deadline wait_until_load) rounds
      (start_collect url wait_for_request)
