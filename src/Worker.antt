-- ===== src/Worker.antt =====
-- src/worker.rs: a job of the Redis stream, from its entry to the acknowledgement. What is sent to
-- Redis is a list of round trips; the captures, the JSON codec and the answer to the result's write
-- are parameters.
pub mod Retries
pub mod Delivery
pub mod Loop
use browser_headless.Base.{
  ℕ, zero, suc, ◌+◌, Bool, true, false, ◌||◌, Option, none, some, List, [], ◌∷◌, ◌++◌, Text, codes,
  ◌==◌, if◌then◌else◌, max, unwrap_or, Result, ok, err,
}
use browser_headless.Config.{Env, env_string, env_opt, env_bool, env_u64}
use browser_headless.Error.{CaptureError, status_u16}
use browser_headless.Capture.Query.{SummaryQuery}
use browser_headless.Capture.Engine.{Captured}

pub record WorkerConfig : Type 0 where
  pub redis_url : Text
  pub cluster : Bool
  pub ca_cert_path : Option Text
  pub client_cert_path : Option Text
  pub client_key_path : Option Text
  pub stream : Text
  pub group : Text
  pub group_start : Text
  pub consumer : Text
  pub result_prefix : Text
  pub result_ttl_secs : ℕ
  pub delete_on_ack : Bool
  pub block_ms : ℕ
  pub visibility_ms : ℕ
  pub connect_timeout_ms : ℕ
  pub metrics_sample_secs : ℕ
  pub result_notify : Bool
  pub job_max_retries : ℕ
  pub job_retry_backoff_ms : ℕ
  pub drain_ms : ℕ

-- `default_consumer` is `worker-` and the process id.
unfoldable pub from_env : Env → Text → WorkerConfig
from_env env default_consumer = record {
  redis_url = env_string env (codes "BROWSER_HEADLESS_REDIS_URL") (codes "redis://127.0.0.1:6379");
  cluster = env_bool env (codes "BROWSER_HEADLESS_REDIS_CLUSTER") false;
  ca_cert_path = env_opt env (codes "BROWSER_HEADLESS_REDIS_CA_CERT");
  client_cert_path = env_opt env (codes "BROWSER_HEADLESS_REDIS_CLIENT_CERT");
  client_key_path = env_opt env (codes "BROWSER_HEADLESS_REDIS_CLIENT_KEY");
  stream = env_string env (codes "BROWSER_HEADLESS_JOBS_STREAM") (codes "browser_headless:jobs");
  group = env_string env (codes "BROWSER_HEADLESS_CONSUMER_GROUP") (codes "workers");
  group_start = env_string env (codes "BROWSER_HEADLESS_GROUP_START") (codes "0");
  consumer = env_string env (codes "BROWSER_HEADLESS_CONSUMER_NAME") default_consumer;
  result_prefix =
      env_string env (codes "BROWSER_HEADLESS_RESULT_PREFIX") (codes "browser_headless:result:");
  result_ttl_secs = max (env_u64 env (codes "BROWSER_HEADLESS_RESULT_TTL_SECS") 3600) 1;
  delete_on_ack = env_bool env (codes "BROWSER_HEADLESS_DELETE_ON_ACK") true;
  block_ms = max (env_u64 env (codes "BROWSER_HEADLESS_JOB_BLOCK_MS") 60000) 1;
  visibility_ms = max (env_u64 env (codes "BROWSER_HEADLESS_JOB_VISIBILITY_MS") 120000) 1;
  connect_timeout_ms = max (env_u64 env (codes "BROWSER_HEADLESS_REDIS_CONNECT_TIMEOUT_MS") 5000) 1;
  metrics_sample_secs = max (env_u64 env (codes "BROWSER_HEADLESS_METRICS_SAMPLE_SECS") 300) 1;
  result_notify = env_bool env (codes "BROWSER_HEADLESS_RESULT_NOTIFY") true;
  job_max_retries = env_u64 env (codes "BROWSER_HEADLESS_JOB_MAX_RETRIES") 2;
  job_retry_backoff_ms = env_u64 env (codes "BROWSER_HEADLESS_JOB_RETRY_BACKOFF_MS") 500;
  drain_ms = max (env_u64 env (codes "BROWSER_HEADLESS_WORKER_DRAIN_MS") 30000) 1;
}

pub record WorkerJob (F : Type 0) : Type 0 where
  pub id : Option Text
  pub query : SummaryQuery F

pub record JobResult (Json : Type 0) : Type 0 where
  pub id : Text
  pub status : ℕ
  pub body : Option Json
  pub error_message : Option Text

module _ {Json : Type 0} where
  unfoldable pub job_ok : Text → Result Json Text → JobResult Json
  job_ok id (ok value) = record { id = id; status = 200; body = some value; error_message = none }
  job_ok id (err e) = record {
    id = id;
    status = 500;
    body = none;
    error_message = some (codes "serialize result: " ++ e);
  }

  unfoldable pub job_err : Text → ℕ → Text → JobResult Json
  job_err id status message = record {
    id = id;
    status = status;
    body = none;
    error_message = some message;
  }

unfoldable pub is_retryable : ℕ → Bool
is_retryable status = status == 408 || status == 502 || status == 503 || status == 504

-- What one attempt answers, and the result that it makes if it is the last one.
module _ {Stat Json : Type 0} (to_value : Captured Stat → Result Json Text) where
  unfoldable pub attempt_result : Text → Result (Captured Stat) CaptureError → JobResult Json
  unfolding job_ok job_err
  attempt_result id (ok captured) = job_ok id (to_value captured)
  attempt_result id (err e) = job_err id (status_u16 e) e.message

  unfoldable pub is_transient : Result (Captured Stat) CaptureError → Bool
  unfolding is_retryable
  is_transient (ok captured) = false
  is_transient (err e) = is_retryable (status_u16 e)

  -- The loop of `capture_to_result` with `left` retries to go; `captures` answers each attempt. Beside
  -- the result, the number of attempts made.
  unfoldable pub retry :
      Text → (ℕ → Result (Captured Stat) CaptureError) → ℕ → ℕ → JobResult Json × ℕ
  unfolding attempt_result is_transient
  retry id captures zero attempt = (attempt_result id (captures attempt), attempt + 1)
  retry id captures (suc left) attempt =
      let rest = retry id captures left (attempt + 1) in
      if is_transient (captures attempt)
      then rest
      else (attempt_result id (captures attempt), attempt + 1)

  unfoldable pub capture_to_result :
      WorkerConfig → Text → (ℕ → Result (Captured Stat) CaptureError) → JobResult Json × ℕ
  unfolding retry
  capture_to_result cfg id captures = retry id captures cfg.job_max_retries 0

pub data Command : Type 0 where
  set_ex : Text → Text → ℕ → Command
  publish : Text → Text → Command
  xack : Text → Text → Text → Command
  xdel : Text → Text → Command

unfoldable pub ack : WorkerConfig → Text → List Command
ack cfg entry_id =
    xack cfg.stream cfg.group entry_id
    ∷ (if cfg.delete_on_ack then xdel cfg.stream entry_id ∷ [] else [])

-- The codec, the captures of a query, and whether Redis takes the write of the result.
pub record JobWorld (F Stat Json : Type 0) : Type 0 where
  pub parse_job : Text → Result (WorkerJob F) Text
  pub to_value : Captured Stat → Result Json Text
  pub running_marker : Text → Text
  pub to_string : JobResult Json → Result Text Text
  pub captures : SummaryQuery F → ℕ → Result (Captured Stat) CaptureError
  pub write_succeeds : Bool

unfoldable pub write_result : WorkerConfig → Text → Text → List Command
write_result cfg key json =
    set_ex key json cfg.result_ttl_secs ∷ (if cfg.result_notify then publish key json ∷ [] else [])

module _ {F Stat Json : Type 0} (cfg : WorkerConfig) (w : JobWorld F Stat Json) where
  -- The part of `process_one` from the capture on: the round trips, in order.
  unfoldable pub finish_job : Text → Text → SummaryQuery F → List (List Command)
  unfolding capture_to_result write_result ack
  finish_job entry_id id query =
      let result = (capture_to_result w.to_value cfg id (w.captures query)).0 in
      elim (w.to_string result) [
        | err e ↦ ack cfg entry_id ∷ []
        | ok json ↦
            let write = write_result cfg (cfg.result_prefix ++ result.id) json in
            if w.write_succeeds then write ∷ ack cfg entry_id ∷ [] else write ∷ []
      ]

  -- The result of the marker's write is only logged.
  unfoldable pub process_one : Text → Option Text → List (List Command)
  unfolding finish_job
  process_one entry_id none = ack cfg entry_id ∷ []
  process_one entry_id (some payload) = elim (w.parse_job payload) [
    | err e ↦ ack cfg entry_id ∷ []
    | ok job ↦
        let id = unwrap_or job.id entry_id in
        (set_ex (cfg.result_prefix ++ id) (w.running_marker id) cfg.result_ttl_secs ∷ [])
        ∷ finish_job entry_id id job.query
  ]
