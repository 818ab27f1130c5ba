-- ===== src/Queue.antt =====
-- src/queue.rs: the producer of the Redis stream and the reader of the results. Redis and the JSON codec
-- are parameters; the connection is the flag `connected` of the client's state.
pub mod Views
pub mod Laws
pub mod Enqueue
pub mod Expiry
use browser_headless.Base.{
  ℕ, ◌+◌, ◌%◌, ◌≡◌, Bool, true, false, not, ◌&&◌, Option, none, some, List, [], ◌∷◌, ◌++◌, Text,
  codes, text_eq, to_ascii_lowercase, ltb, leb, if◌then◌else◌, is_empty, is_some, max, unwrap_or,
  Result, ok, err,
}
use browser_headless.Config.{
  Env, u64_bound, filter_some, env_string, env_opt, env_bool, env_u64, async_jobs_enabled,
}
use browser_headless.Error.{CaptureError, capture_error, service_unavailable, internal}
use browser_headless.Capture.Query.{SummaryQuery}
use browser_headless.Jobs.{JobView, JobStatus, queued, running, done, error}

pub data JobsBackendKind : Type 0 where
  local redis : JobsBackendKind

unfoldable pub kind_from_env : Env → JobsBackendKind
kind_from_env env =
    let word =
      to_ascii_lowercase (env_string env (codes "BROWSER_HEADLESS_JOBS_BACKEND") (codes "auto")) in
    if text_eq word (codes "local")
    then local
    else if text_eq word (codes "redis")
    then redis
    else elim (filter_some (λ s. not (is_empty s)) (env (codes "BROWSER_HEADLESS_REDIS_URL"))) [
      | some url ↦ redis
      | none ↦ local
    ]

pub record QueueConfig : Type 0 where
  pub redis_url : Text
  pub cluster : Bool
  pub ca_cert_path : Option Text
  pub client_cert_path : Option Text
  pub client_key_path : Option Text
  pub stream : Text
  pub group : Text
  pub group_start : Text
  pub result_prefix : Text
  pub result_ttl_secs : ℕ
  pub connect_timeout_ms : ℕ
  pub maxlen : ℕ

unfoldable pub from_env : Env → QueueConfig
from_env env = record {
  redis_url = env_string env (codes "BROWSER_HEADLESS_REDIS_URL") (codes "redis://127.0.0.1:6379");
  cluster = env_bool env (codes "BROWSER_HEADLESS_REDIS_CLUSTER") false;
  ca_cert_path = env_opt env (codes "BROWSER_HEADLESS_REDIS_CA_CERT");
  client_cert_path = env_opt env (codes "BROWSER_HEADLESS_REDIS_CLIENT_CERT");
  client_key_path = env_opt env (codes "BROWSER_HEADLESS_REDIS_CLIENT_KEY");
  stream = env_string env (codes "BROWSER_HEADLESS_JOBS_STREAM") (codes "browser_headless:jobs");
  group = env_string env (codes "BROWSER_HEADLESS_CONSUMER_GROUP") (codes "workers");
  group_start = env_string env (codes "BROWSER_HEADLESS_GROUP_START") (codes "0");
  result_prefix =
      env_string env (codes "BROWSER_HEADLESS_RESULT_PREFIX") (codes "browser_headless:result:");
  result_ttl_secs = max (env_u64 env (codes "BROWSER_HEADLESS_RESULT_TTL_SECS") 3600) 1;
  connect_timeout_ms = max (env_u64 env (codes "BROWSER_HEADLESS_REDIS_CONNECT_TIMEOUT_MS") 5000) 1;
  maxlen = env_u64 env (codes "BROWSER_HEADLESS_JOBS_MAXLEN") 100000;
}

unfoldable pub result_key : QueueConfig → Text → Text
result_key cfg id = cfg.result_prefix ++ id

pub record RedisConnOpts : Type 0 where
  pub url : Text
  pub cluster : Bool
  pub ca_cert_path : Option Text
  pub client_cert_path : Option Text
  pub client_key_path : Option Text
  pub connect_timeout : ℕ
  pub response_timeout : ℕ

-- The sum of `u64`s wraps in a release build.
unfoldable pub conn_opts : QueueConfig → RedisConnOpts
conn_opts cfg = record {
  url = cfg.redis_url;
  cluster = cfg.cluster;
  ca_cert_path = cfg.ca_cert_path;
  client_cert_path = cfg.client_cert_path;
  client_key_path = cfg.client_key_path;
  connect_timeout = cfg.connect_timeout_ms;
  response_timeout = (cfg.connect_timeout_ms + 5000) % u64_bound;
}

pub record StoredJobResult (Json : Type 0) : Type 0 where
  pub id : Text
  pub phase : Option Text
  pub status : Option ℕ
  pub body : Option Json
  pub error_message : Option Text

-- The match of `into_job_view`, arm by arm.
unfoldable pub view_status : Option Text → Option ℕ → Bool → Bool → JobStatus × Option ℕ
view_status phase (some s) has_body has_error =
    if has_body && ltb s 400
    then (done, some s)
    else if has_error
    then (error, some s)
    else if leb 400 s
    then (error, some s)
    else (done, some s)
view_status phase none has_body true = (error, some 500)
view_status phase none true false = (done, some 200)
view_status none none false false = (queued, none)
view_status (some p) none false false =
    if text_eq p (codes "running") then (running, none) else (queued, none)

module _ {Json : Type 0} where
  unfoldable pub into_job_view : ℕ → StoredJobResult Json → JobView Json
  unfolding view_status
  into_job_view age_ms r =
      let (status, http_status) =
        view_status r.phase r.status (is_some r.body) (is_some r.error_message) in
      record {
        id = r.id;
        status = status;
        http_status = http_status;
        body = r.body;
        error_message = r.error_message;
        age_ms = age_ms;
      }

-- The commands of the redis crate, over an unknown state of the server. A command that fails may have
-- been carried out.
pub record Redis (S : Type 0) : Type 0 where
  pub connect : S → RedisConnOpts → Result (Unit {0}) Text
  pub set_nx_ex : S → Text → Text → ℕ → S × Result Bool Text
  pub xadd : S → Text → Option ℕ → Text → S × Result Text Text
  pub del : S → Text → S × Result ℕ Text
  pub get : S → Text → Result (Option Text) Text

-- `serde_json` on the types that the queue sends and reads.
pub record QueueCodec (F Json : Type 0) : Type 0 where
  pub payload : Text → SummaryQuery F → Result Text Text
  pub queued_marker : Text → Text
  pub decode : Text → Result (StoredJobResult Json) Text

pub record Client (S : Type 0) : Type 0 where
  pub server : S
  pub connected : Bool

unfoldable pub with_request_id : {F : Type 0} → Text → SummaryQuery F → SummaryQuery F
with_request_id id q = elim q.request_id [
  | none ↦ record q { request_id = some id }
  | some given ↦ if is_empty given then record q { request_id = some id } else q
]

module _ {S F Json : Type 0} (r : Redis S) (codec : QueueCodec F Json) (cfg : QueueConfig) where
  unfoldable pub conn : Client S → Client S × Result (Unit {0}) CaptureError
  unfolding conn_opts
  conn c = if c.connected then (c, ok tt) else elim (r.connect c.server (conn_opts cfg)) [
    | ok _ ↦ (record c { connected = true }, ok tt)
    | err e ↦ (c, err (capture_error service_unavailable (codes "redis connect failed: " ++ e)))
  ]

  -- The task that `fail` spawns invalidates the connection; it is taken to run before the next call.
  unfoldable pub invalidate : Client S → Client S
  invalidate c = record c { connected = false }

  unfoldable pub fail {ℓ} : {A : Type ℓ} → Text → Text → Client S → Client S × Result A CaptureError
  unfolding invalidate
  fail what e c =
      (invalidate c, err (capture_error service_unavailable (what ++ (codes ": " ++ e))))

  -- `XADD`, and on its failure the marker's removal.
  unfoldable pub add_entry : Text → Text → Client S → Client S × Result Text CaptureError
  unfolding fail result_key
  add_entry id payload c =
      let (s, added) =
        r.xadd c.server cfg.stream (if ltb 0 cfg.maxlen then some cfg.maxlen else none) payload in
      elim added [
        | ok entry ↦ (record c { server = s }, ok id)
        | err e ↦
            let (s', deleted) = r.del s (result_key cfg id) in
            fail (codes "redis enqueue failed") e (record c { server = s' })
      ]

  -- The marker is written first, and only where there is no value.
  unfoldable pub write_marker : Text → Text → Client S → Client S × Result Text CaptureError
  unfolding fail add_entry result_key
  write_marker id payload c =
      let (s, answer) =
        r.set_nx_ex c.server (result_key cfg id) (codec.queued_marker id) cfg.result_ttl_secs in
      elim answer [
        | err e ↦ fail (codes "redis marker write failed") e (record c { server = s })
        | ok false ↦ (
          record c { server = s },
          err (
              capture_error internal
                (codes "job id collision on `" ++ (id ++ codes "`; not overwriting"))),
        )
        | ok true ↦ add_entry id payload (record c { server = s })
      ]

  -- `id` is the fresh UUID.
  unfoldable pub enqueue : Text → SummaryQuery F → Client S → Client S × Result Text CaptureError
  unfolding conn write_marker with_request_id
  enqueue id query c = elim (codec.payload id (with_request_id id query)) [
    | err e ↦ (c, err (capture_error internal (codes "job serialize: " ++ e)))
    | ok payload ↦
        let (c', connection) = conn c in
        elim connection [ err e ↦ (c', err e) | ok _ ↦ write_marker id payload c' ]
  ]

  unfoldable pub decode_view : Option Text → Result (Option (JobView Json)) CaptureError
  unfolding into_job_view
  decode_view none = ok none
  decode_view (some raw) = elim (codec.decode raw) [
    | ok stored ↦ ok (some (into_job_view 0 stored))
    | err e ↦ err (capture_error internal (codes "job result decode: " ++ e))
  ]

  unfoldable pub get : Text → Client S → Client S × Result (Option (JobView Json)) CaptureError
  unfolding conn fail decode_view result_key
  get id c =
      let (c', connection) = conn c in
      elim connection [
        | err e ↦ (c', err e)
        | ok _ ↦ elim (r.get c'.server (result_key cfg id)) [
          | err e ↦ fail (codes "redis GET failed") e c'
          | ok raw ↦ (c', decode_view raw)
        ]
      ]

-- `init_jobs_backend`, by whether Redis can be connected; `refused` is the panic.
pub data Startup : Type 0 where
  disabled local_store redis_client refused : Startup

unfoldable pub init_jobs_backend : Env → Bool → Startup
unfolding kind_from_env
init_jobs_backend env connects =
    if not (async_jobs_enabled env) then disabled else elim (kind_from_env env) [
      | local ↦ local_store
      | redis ↦ if connects then redis_client else refused
    ]
