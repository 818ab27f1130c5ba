-- ===== src/Queue/Views.antt =====
-- src/queue.rs: what a poller sees of a document that the worker or the producer stored.
use browser_headless.Base.{
  ℕ, ◌≡◌, refl, ap, ◌⊎◌, inl, inr, arith, Bool, true, false, ◌||◌, Option, none, some, Text,
  is_some, Result, ok, err, Result-cases, sym,
}
use browser_headless.Error.{CaptureError, status_u16}
use browser_headless.Capture.Engine.{Captured}
use browser_headless.Jobs.{queued, running, done, error, JobRecord, complete_record, job_outcome}
use browser_headless.Worker.{JobResult, attempt_result}
use browser_headless.Queue.{StoredJobResult, view_status, into_job_view}

view_status-some :
    (p q : Option Text) (s : ℕ) (b e : Bool)
    → (((view_status p (some s) b e).0 ≡ done) ⊎ ((view_status p (some s) b e).0 ≡ error))
      × (view_status p (some s) b e ≡ view_status q (some s) b e)
unfolding view_status
view_status-some p q s b e = (ground arith, refl)

module _ {Json : Type 0} where
  -- The document has a status, a body or an error.
  abbrev is_terminal : StoredJobResult Json → Bool
  is_terminal r = is_some r.status || is_some r.body || is_some r.error_message

  -- The document that `serde_json` writes for a result and reads back: no phase.
  abbrev pub stored_of : JobResult Json → StoredJobResult Json
  stored_of r = record {
    id = r.id;
    phase = none;
    status = some r.status;
    body = r.body;
    error_message = r.error_message;
  }

  view_status-cases :
      (p q : Option Text) (s : Option ℕ) (b : Option Json) (e : Option Text)
      → (((is_some s || is_some b || is_some e) ≡ true)
          × (((view_status p s (is_some b) (is_some e)).0 ≡ done)
              ⊎ ((view_status p s (is_some b) (is_some e)).0 ≡ error))
          × (view_status p s (is_some b) (is_some e) ≡ view_status q s (is_some b) (is_some e)))
        ⊎ (((is_some s || is_some b || is_some e) ≡ false)
            × (((view_status p s (is_some b) (is_some e)).0 ≡ queued)
                ⊎ ((view_status p s (is_some b) (is_some e)).0 ≡ running))
            × ((view_status p s (is_some b) (is_some e)).1 ≡ none))
  unfolding view_status
  view_status-cases p q (some s) b e =
      let (shown, same) = view_status-some p q s (is_some b) (is_some e) in inl (refl, shown, same)
  view_status-cases p q none b (some e) = inl (ground arith, inr refl, refl)
  view_status-cases p q none (some b) none = inl (refl, inl refl, refl)
  view_status-cases none q none none none = inr (refl, inl refl, refl)
  view_status-cases (some p) q none none none = inr (refl, ground arith, ground arith)

  -- A document with a status, a body or an error is shown as done or failed, the same whatever phase it
  -- carries; one with none of the three is shown as queued or running, without an HTTP status.
  into_job_view-terminal :
      (age_ms : ℕ) (r : StoredJobResult Json) (phase : Option Text)
      → ((is_terminal r ≡ true)
          × (((into_job_view age_ms r).status ≡ done) ⊎ ((into_job_view age_ms r).status ≡ error))
          × (into_job_view age_ms (record r { phase = phase }) ≡ into_job_view age_ms r))
        ⊎ ((is_terminal r ≡ false)
            × (((into_job_view age_ms r).status ≡ queued)
                ⊎ ((into_job_view age_ms r).status ≡ running))
            × ((into_job_view age_ms r).http_status ≡ none))
  unfolding into_job_view view_status
  into_job_view-terminal age_ms r phase =
      elim (view_status-cases r.phase phase r.status r.body r.error_message) [
        | inl (t, s, same) ↦ inl (
          t,
          s,
          ap
              (λ v. record {
                id = r.id;
                status = v.0;
                http_status = v.1;
                body = r.body;
                error_message = r.error_message;
                age_ms = age_ms;
              })
              (sym same),
        )
        | inr (t, s, n) ↦ inr (t, s, n)
      ]

-- What the record of a local job shows.
module _ {Stat Json : Type 0} (to_value : Captured Stat → Result Json Text) where
  -- A capture's answer is shown to a poller of Redis, where the worker stored it, with the status, the HTTP
  -- status and the body that the local store shows; and with its error, unless it is a capture
  -- that could not be serialized.
  pub into_job_view-complete_record :
      (id : Text) (answer : Result (Captured Stat) CaptureError) (now ttl_ms : ℕ)
      (r : JobRecord Json)
      → r.http_status ≡ none
      → r.body ≡ none
      → r.error_message ≡ none
      → let view = into_job_view 0 (stored_of (attempt_result to_value id answer)) in
        let kept = complete_record now ttl_ms (job_outcome to_value (some answer)) r in
        (view.status ≡ kept.status)
        × (view.http_status ≡ kept.http_status)
        × (view.body ≡ kept.body)
        × ((view.error_message ≡ kept.error_message)
            ⊎ ((c : Captured Stat) × (e : Text) × (answer ≡ ok c) × (to_value c ≡ err e)))
  unfolding into_job_view view_status attempt_result complete_record job_outcome status_u16
  into_job_view-complete_record id (err x) now ttl_ms r h b e = (refl, refl, sym b, inl refl)
  into_job_view-complete_record id (ok c) now ttl_ms r h b e = elim (Result-cases (to_value c)) [
    | inl (v, f) ↦ rw (f, attempt_result, job_outcome) (refl, refl, refl, inl (sym e))
    | inr (m, f) ↦ rw (f, attempt_result, job_outcome) (refl, refl, sym b, inr (c, m, refl, f))
  ]
