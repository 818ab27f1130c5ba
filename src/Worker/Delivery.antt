-- ===== src/Worker/Delivery.antt =====
-- src/worker.rs: when the entry of a job is acknowledged, and that its result was written before.
use browser_headless.Base.{
  ◌≡◌, refl, ap, ◌∙◌, Bool, true, false, ◌&&◌, arith, ◌++◌, some, List, [], ◌∷◌, Text, text_eq,
  text_eq_refl, if◌then◌else◌, unwrap_or, ok, any,
}
use browser_headless.Worker.{
  WorkerConfig, WorkerJob, JobResult, Command, set_ex, xack, ack, JobWorld, write_result,
  finish_job, process_one, capture_to_result,
}

-- The commands that acknowledge an entry.
abbrev pub acks : Text → Command → Bool
acks entry_id (xack stream group id) = text_eq id entry_id
acks entry_id _ = false

-- The commands that store a result under a key.
abbrev pub stores : Text → Text → Command → Bool
stores key json (set_ex k v ttl) = text_eq k key && text_eq v json
stores key json _ = false

abbrev pub sends : (Command → Bool) → List (List Command) → Bool
sends test rounds = any (λ round. any test round) rounds

-- The round trips of a job, by whether Redis takes the write.
abbrev rounds : WorkerConfig → Bool → Text → Text → Text → Text → Text → List (List Command)
rounds cfg written key json entry_id marker_key marker =
    (set_ex marker_key marker cfg.result_ttl_secs ∷ [])
    ∷ (if written
        then write_result cfg key json ∷ ack cfg entry_id ∷ []
        else write_result cfg key json ∷ [])

rounds_lem :
    (cfg : WorkerConfig) (written : Bool) (key json entry_id marker_key marker : Text)
    → (sends (stores key json) (rounds cfg written key json entry_id marker_key marker) ≡ true)
      × (sends (acks entry_id) (rounds cfg written key json entry_id marker_key marker) ≡ written)
unfolding write_result ack
rounds_lem cfg true key json entry_id k v =
    (ground (arith, text_eq_refl key, text_eq_refl json), ground (arith, text_eq_refl entry_id))
rounds_lem cfg false key json entry_id k v =
    (ground (arith, text_eq_refl key, text_eq_refl json), ground (arith, text_eq_refl entry_id))

module _ {F Stat Json : Type 0} (cfg : WorkerConfig) (w : JobWorld F Stat Json) where
  -- The result that the worker makes of a job.
  abbrev pub result_of : Text → WorkerJob F → JobResult Json
  result_of entry_id job =
      (capture_to_result w.to_value cfg (unwrap_or job.id entry_id) (w.captures job.query)).0

  process_one-job :
      (entry_id payload : Text) (job : WorkerJob F) (json : Text)
      → w.parse_job payload ≡ ok job
      → w.to_string (result_of entry_id job) ≡ ok json
      → process_one cfg w entry_id (some payload)
        ≡ rounds cfg w.write_succeeds
            (cfg.result_prefix ++ (result_of entry_id job).id)
            json
            entry_id
            (cfg.result_prefix ++ unwrap_or job.id entry_id)
            (w.running_marker (unwrap_or job.id entry_id))
  unfolding process_one finish_job
  process_one-job entry_id payload job json p s = rw (process_one, p, finish_job, s) refl

  -- The result of a well-formed job that can be serialized is always sent to the key of the job's result,
  -- and its entry is acknowledged exactly if Redis takes that write.
  pub process_one-delivers :
      (entry_id payload : Text) (job : WorkerJob F) (json : Text)
      → w.parse_job payload ≡ ok job
      → w.to_string (result_of entry_id job) ≡ ok json
      → (sends
            (stores (cfg.result_prefix ++ (result_of entry_id job).id) json)
            (process_one cfg w entry_id (some payload))
          ≡ true)
        × (sends (acks entry_id) (process_one cfg w entry_id (some payload)) ≡ w.write_succeeds)
  process_one-delivers entry_id payload job json p s =
      let same = process_one-job entry_id payload job json p s in
      let key = cfg.result_prefix ++ (result_of entry_id job).id in
      let (stored, acked) =
        rounds_lem cfg w.write_succeeds key json entry_id
          (cfg.result_prefix ++ unwrap_or job.id entry_id)
          (w.running_marker (unwrap_or job.id entry_id)) in
      (ap (sends (stores key json)) same ∙ stored, ap (sends (acks entry_id)) same ∙ acked)
