-- ===== src/Examples/Workers.antt =====
-- A job of the worker at concrete inputs: a capture that times out once and then answers.
use browser_headless.Base.{
  ℕ, zero, suc, ◌≡◌, ◌≤◌, ◌∷◌, List, is_some, refl, true, false, ◌++◌, none, some, [], codes, Text,
  Result, ok, err,
}
use browser_headless.Error.{CaptureError, capture_error, gateway_timeout}
use browser_headless.Capture.Engine.{Captured, full}
use browser_headless.Worker.{
  WorkerConfig, from_env, WorkerJob, JobWorld, capture_to_result, process_one,
}
use browser_headless.Worker.Loop.{
  reading, dispatching, ReadLoop, reserve, read, spawn, started, step, Reached, at_start, after,
  step_loop, step_reserving, step_reading, take_entries, available_permits, held,
}
use browser_headless.Worker.Loop.Flow.{Reached-Flow}
use browser_headless.Worker.Retries.{Attempts, capture_to_result-Attempts}
use browser_headless.Worker.Delivery.{sends, stores, acks, result_of, process_one-delivers}
use browser_headless.Examples.Network.{empty_env, public_url}
use browser_headless.Examples.Captures.{plain_query}

abbrev default_config : WorkerConfig
default_config = from_env empty_env (codes "worker-1")

abbrev one_value : Captured ℕ → Result ℕ Text
one_value captured = ok 1

abbrev second_try : ℕ → Result (Captured ℕ) CaptureError
second_try zero = err (capture_error gateway_timeout [])
second_try (suc n) = ok (full 7)

abbrev public_job : WorkerJob ℕ
public_job = record { id = none; query = plain_query public_url }

abbrev job_world : JobWorld ℕ ℕ ℕ
job_world = record {
  parse_job = λ payload. ok public_job;
  to_value = one_value;
  running_marker = λ id. codes "running";
  to_string = λ result. ok (codes "result");
  captures = λ query. second_try;
  write_succeeds = false;
}

capture_to_result-Attempts_example :
    Attempts one_value
      (codes "a")
      second_try
      0
      default_config.job_max_retries
      (capture_to_result one_value default_config (codes "a") second_try)
capture_to_result-Attempts_example =
    capture_to_result-Attempts one_value default_config (codes "a") second_try

process_one-delivers_example :
    (sends
        (stores
          (default_config.result_prefix
            ++ (result_of default_config job_world (codes "1-0") public_job).id)
          (codes "result"))
        (process_one default_config job_world (codes "1-0") (some (codes "{}")))
      ≡ true)
    × (sends
          (acks (codes "1-0"))
          (process_one default_config job_world (codes "1-0") (some (codes "{}")))
        ≡ false)
process_one-delivers_example =
    process_one-delivers default_config job_world (codes "1-0") (codes "{}") public_job
      (codes "result") refl refl

-- A loop with one permit has pulled an entry and spawned it.
abbrev reading_one : ReadLoop ℕ
reading_one = record started { phase = reading 1 }

abbrev spawning_one : ReadLoop ℕ
spawning_one = record started { phase = dispatching true (7 ∷ []); pulled = 7 ∷ [] }

spawning_one-Reached : Reached 1 spawning_one
unfolding step step_loop step_reserving step_reading take_entries available_permits held
spawning_one-Reached =
    after reading_one spawning_one (read (7 ∷ [])) (after started reading_one reserve at_start refl)
      refl

Reached-Flow_example :
    (0 ≤ 1)
    × (◌≡◌ {A = List ℕ} (7 ∷ []) (7 ∷ []))
    × (1 ≤ 1)
    × (1 ≤ 30)
    × (is_some (step 1 spawn spawning_one) ≡ true)
Reached-Flow_example = Reached-Flow 1 spawning_one spawning_one-Reached
