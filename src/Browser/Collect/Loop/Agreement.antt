-- ===== src/Browser/Collect/Loop/Agreement.antt =====
-- The lean loop of src/browser/mod.rs against the full one.
use browser_headless.Base.{
  ℕ, ◌≡◌, refl, ap, ◌∙◌, inl, inr, arith, Bool, true, false, Option, none, some, List, [], ◌∷◌, map,
  Text, leb, if◌then◌else◌, Result, ok, err, Bool-cases, Result-cases,
}
use browser_headless.Error.{BrowserError}
use browser_headless.Browser.Resource.{ParsedUrl, WebPageResource}
use browser_headless.Browser.Collect.State.{
  CollectCaptures, ResponseReceived, Event, lifecycle, response, DocumentTiming, Progress, Collect,
  start_collect,
}
use browser_headless.Browser.Collect.Facts.{is_real_resource}
use browser_headless.Browser.Collect.Lean.{
  on_lifecycle, match_pattern, timing_of, on_document, lean_response, gate_at, stop_at, lean_to_ms,
  to_ms,
}
use browser_headless.Browser.Collect.Handlers.{
  full_lifecycle, full_pattern, full_document, full_stop_at, entry_of, filled, note_final_url,
  note_http, note_security_headers, add_tls, note_tls, received, on_response, handle,
}
use browser_headless.Browser.Collect.Loop.{
  Arrival, slept, closed, arrived, Round, Outcome, running, stopped, failed, take_arrival,
  after_event, collect_loop, LeanEvent, lean_lifecycle, lean_received, lean_handle, run_lean,
  run_full,
}

-- An event of the lean loop's streams as the full loop's streams bring it.
abbrev pub full_event : LeanEvent → Event
full_event (lean_lifecycle ts name) = lifecycle ts name
full_event (lean_received ev) = response ev

abbrev pub full_arrival : Arrival LeanEvent → Arrival Event
full_arrival slept = slept
full_arrival closed = closed
full_arrival (arrived at ev) = arrived at (full_event ev)

abbrev pub full_round : Round LeanEvent → Round Event
full_round r = record {
  last_event_at = r.last_event_at;
  now = r.now;
  arrival = full_arrival r.arrival;
}

-- The full loop's arms against the lean loop's.
full_lifecycle-lean :
    (at ts : ℕ) (name : Text) (p : Progress)
    → full_lifecycle at ts name p ≡ on_lifecycle at ts name p
unfolding full_lifecycle on_lifecycle
full_lifecycle-lean at ts name p = refl

full_pattern-lean :
    (status : ℕ) (url : Text) (pending : List Text)
    → full_pattern status url pending ≡ match_pattern status url pending
unfolding full_pattern match_pattern
full_pattern-lean status url pending = ground arith

full_stop_at-lean :
    (deadline last : ℕ) (wait_until_load : Bool) (c : Collect)
    → full_stop_at deadline wait_until_load last c
      ≡ stop_at deadline wait_until_load last c.progress
unfolding full_stop_at stop_at gate_at
full_stop_at-lean deadline last wait_until_load c = refl

module _ {S T : Type 0} (view : S → T) where
  abbrev pub outcome_view : Outcome S → Outcome T
  outcome_view (running s) = running (view s)
  outcome_view (stopped s) = stopped (view s)
  outcome_view (failed e) = failed e

  abbrev step_view : Result S BrowserError → Result T BrowserError
  step_view (ok s) = ok (view s)
  step_view (err e) = err e

  take_arrival-view :
      (a : Arrival LeanEvent) (s : S) (f : ℕ → Event → Outcome S) (g : ℕ → LeanEvent → Outcome T)
      → ((at : ℕ) (ev : LeanEvent) → outcome_view (f at (full_event ev)) ≡ g at ev)
      → outcome_view (take_arrival (full_arrival a) s f) ≡ take_arrival a (view s) g
  unfolding take_arrival
  take_arrival-view slept s f g h = refl
  take_arrival-view closed s f g h = refl
  take_arrival-view (arrived at ev) s f g h = h at ev

  after_event-view :
      (r : Result S BrowserError) (q : Result T BrowserError) (f : S → Outcome S)
      (g : T → Outcome T)
      → step_view r ≡ q
      → ((s : S) → outcome_view (f s) ≡ g (view s))
      → outcome_view (after_event r f) ≡ after_event q g
  unfolding after_event
  after_event-view (ok s) q f g e h = rw (← e) (h s)
  after_event-view (err x) q f g e h = rw (← e) refl

  if-view :
      (b : Bool) (s : S) (o : Outcome S) (q : Outcome T)
      → outcome_view o ≡ q
      → outcome_view (if b then stopped s else o) ≡ (if b then stopped (view s) else q)
  if-view true s o q h = refl
  if-view false s o q h = h

note_http-progress :
    (captures : CollectCaptures) (ev : ResponseReceived) (c : Collect)
    → (note_http captures ev c).progress ≡ c.progress
unfolding note_http note_final_url
note_http-progress captures ev c = ground arith

note_security_headers-progress :
    (ev : ResponseReceived) (c : Collect) → (note_security_headers ev c).progress ≡ c.progress
unfolding note_security_headers
note_security_headers-progress ev c = ground arith

module _ (parse : Text → Option ParsedUrl) (now_secs : ℕ) (captures : CollectCaptures) where
  note_tls-progress :
      (ev : ResponseReceived) (c : Collect)
      → (note_tls parse now_secs captures ev c).progress ≡ c.progress
  unfolding note_tls add_tls
  note_tls-progress ev c = ground arith

  -- The document's timing is read off the entry that was just filled from the response.
  full_document-lean :
      (ev : ResponseReceived) (entry : WebPageResource) (current : Option DocumentTiming)
      → full_document ev (filled parse now_secs captures ev entry) current ≡ on_document ev current
  unfolding full_document filled on_document timing_of
  full_document-lean ev entry current = ground arith

  received-lean :
      (ev : ResponseReceived) (pending : List Text) (c : Collect)
      → (received parse now_secs captures ev pending c).progress ≡ record c.progress {
        document_timing = on_document ev c.progress.document_timing;
        pending_patterns = pending;
      }
  unfolding received
  received-lean ev pending c =
      ap (λ t. record c.progress { document_timing = t; pending_patterns = pending })
        (full_document-lean ev (entry_of ev.request_id c.resources) c.progress.document_timing)

  on_response-lean :
      (ev : ResponseReceived) (c : Collect)
      → step_view (λ s. s.progress) (on_response parse now_secs captures ev c)
        ≡ lean_response ev c.progress
  unfolding on_response lean_response
  on_response-lean ev c = elim (Bool-cases (is_real_resource ev.url)) [
    | inr pseudo ↦ rw pseudo refl
    | inl real ↦
        rw (real, full_pattern-lean ev.status ev.url c.progress.pending_patterns)
          elim (Result-cases (match_pattern ev.status ev.url c.progress.pending_patterns)) [
            | inl (pending, e) ↦ rw e (
                ap ok (
                  note_tls-progress ev _
                  ∙ note_security_headers-progress ev _
                  ∙ note_http-progress captures ev _
                  ∙ received-lean ev pending c))
            | inr (x, e) ↦ rw e refl
          ]
  ]

  handle-lean :
      (at : ℕ) (ev : LeanEvent) (c : Collect)
      → step_view (λ s. s.progress) (handle parse now_secs captures at (full_event ev) c)
        ≡ lean_handle at ev c.progress
  unfolding handle lean_handle
  handle-lean at (lean_lifecycle ts name) c = ap ok (full_lifecycle-lean at ts name c.progress)
  handle-lean at (lean_received ev) c = on_response-lean ev c

  loop-lean :
      (deadline : ℕ) (wait_until_load : Bool) (rs : List (Round LeanEvent)) (c : Collect)
      → outcome_view
          (λ s. s.progress)
          (collect_loop
            (handle parse now_secs captures)
            (full_stop_at deadline wait_until_load)
            (map full_round rs)
            c)
        ≡ collect_loop lean_handle (stop_at deadline wait_until_load) rs c.progress
  unfolding collect_loop
  loop-lean deadline wait_until_load [] c = refl
  loop-lean deadline wait_until_load (r ∷ rs) c =
      rw (full_stop_at-lean deadline r.last_event_at wait_until_load c) (
        if-view (λ s. s.progress)
          (leb (stop_at deadline wait_until_load r.last_event_at c.progress) r.now) c _ _
          (take_arrival-view (λ s. s.progress) r.arrival c _ _
            λ at ev.
              after_event-view (λ s. s.progress)
                (handle parse now_secs captures at (full_event ev) c) (lean_handle at ev c.progress)
                _ _ (handle-lean at ev c) (λ t. loop-lean deadline wait_until_load rs t)))

lean_to_ms-eq : (i t : Option ℕ) → lean_to_ms i t ≡ to_ms i t
unfolding lean_to_ms to_ms
lean_to_ms-eq none t = refl
lean_to_ms-eq (some i) none = refl
lean_to_ms-eq (some i) (some t) = ground arith

-- On rounds that bring what both loops listen to, the lifecycle and the responses, the lean loop and the full one
-- end in the same way and with the same document timing, pending patterns, gates and lifecycle timestamps,
-- whatever is captured besides; and both make the same milliseconds of any two timestamps.
pub run_full-lean :
    (parse : Text → Option ParsedUrl) (now_secs : ℕ) (captures : CollectCaptures) (url : Text)
    (deadline : ℕ) (wait_for_request : List Text) (wait_until_load : Bool)
    (rounds : List (Round LeanEvent)) (i t : Option ℕ)
    → (outcome_view
          (λ c. c.progress)
          (run_full parse now_secs captures url deadline wait_for_request wait_until_load
            (map full_round rounds))
        ≡ run_lean deadline wait_for_request wait_until_load rounds)
      × (lean_to_ms i t ≡ to_ms i t)
unfolding run_full run_lean
run_full-lean parse now_secs captures url deadline wait_for_request wait_until_load rounds i t = (
  loop-lean parse now_secs captures deadline wait_until_load rounds
      (start_collect url wait_for_request),
  lean_to_ms-eq i t,
)
