-- ===== src/Http.antt =====
-- src/http.rs: the routes, the API key, the rate limit and the handlers, and `JobsBackend` of src/jobs.rs.
-- axum hands a handler its parsed parameters; the handlers are modelled from there, with their answers.
pub mod Guards
pub mod Bounds
pub mod Contract
use browser_headless.Base.{
  ℕ, zero, suc, Bool, true, false, Option, none, some, List, [], ◌∷◌, ◌++◌, Text, codes, text_eq,
  show_ℕ, ltb, if◌then◌else◌, is_empty, length, Result, ok, err, ◌>>=◌, ok_or, map_err, unwrap_or,
}
use browser_headless.Base.Dicts.{Dict}
use browser_headless.Config.{Env, max_batch_urls}
use browser_headless.Error.{
  CaptureError, capture_error, bad_request, unauthorized, not_found, too_many_requests,
  service_unavailable, status_u16,
}
use browser_headless.RateLimit.{RateLimiter, try_acquire}
use browser_headless.Capture.Query.{SummaryQuery, ResponseFormat, json, markdown, Lang}
use browser_headless.Capture.Engine.{
  ContentResponse, Captured, content, full, Effect, World, capture_one,
}
use browser_headless.Capture.Batch.{BatchItem, BatchQuery, run_batch}
use browser_headless.Jobs
use browser_headless.Jobs.{JobView, JobRecord}
use browser_headless.Queue
use browser_headless.Queue.{QueueConfig, Redis, QueueCodec, Client}

-- `headers.get(name).and_then(|v| v.to_str().ok())` on lower-case names.
abbrev pub HeaderMap : Type 0
HeaderMap = Text → Option Text

-- The job store, or the client of the Redis queue with the server it talks to.
pub data JobsBackend (S Json : Type 0) : Type 0 where
  local_jobs : Dict (JobRecord Json) → JobsBackend S Json
  redis_jobs : Client S → JobsBackend S Json

-- The state that requests change, and the key; the pool is in the worlds that captures meet.
pub record AppState (S Json : Type 0) : Type 0 where
  pub api_key : Option Text
  pub rate_limiter : RateLimiter
  pub jobs : Option (JobsBackend S Json)

-- What a request finds: the clock (nanoseconds for the limiter, milliseconds for the jobs), whether the limiter's
-- lock is poisoned, and the fresh UUID.
pub record Moment : Type 0 where
  pub nanos : ℕ
  pub millis : ℕ
  pub poisoned : Bool
  pub uuid : Text

pub data Body (Stat Json : Type 0) : Type 0 where
  content_json : ContentResponse → Body Stat Json
  stat_json : Stat → Body Stat Json
  markdown_page : Text → Body Stat Json
  batch_json : ℕ → List (BatchItem Json) → Body Stat Json
  accepted_job : Text → Body Stat Json
  job_view : JobView Json → Body Stat Json
  plain : Text → Body Stat Json

-- `dropped` is a handler that panicked.
pub data Response (Stat Json : Type 0) : Type 0 where
  page : Body Stat Json → Response Stat Json
  error_page : ℕ → Text → Response Stat Json
  dropped : Response Stat Json

module _ {Stat Json : Type 0} where
  -- The statuses of capture errors are valid, so `unwrap_or` is not reached.
  unfoldable pub into_response : CaptureError → Response Stat Json
  unfolding status_u16
  into_response e = error_page (status_u16 e) e.message

  unfoldable pub respond : Result (Body Stat Json) CaptureError → Response Stat Json
  unfolding into_response
  respond (ok body) = page body
  respond (err e) = into_response e

  unfoldable pub batch_page : Option (List (BatchItem Json)) → Response Stat Json
  batch_page none = dropped
  batch_page (some results) = page (batch_json (length results) results)

-- The errors of the handlers.
abbrev pub url_missing : CaptureError
url_missing = capture_error bad_request (codes "`url` must not be empty")

abbrev pub urls_missing : CaptureError
urls_missing = capture_error bad_request (codes "`urls` must not be empty")

abbrev pub too_many_urls : ℕ → ℕ → CaptureError
too_many_urls total limit =
    capture_error bad_request
      (codes "too many urls (" ++ (show_ℕ total ++ (codes ", max " ++ (show_ℕ limit ++ codes ")"))))

abbrev pub jobs_disabled : CaptureError
jobs_disabled = capture_error service_unavailable (codes "async jobs disabled")

abbrev pub rate_exceeded : CaptureError
rate_exceeded = capture_error too_many_requests (codes "rate limit exceeded; retry shortly")

-- `ct_eq` is the comparison of the subtle crate.
unfoldable pub check_api_key :
    (Text → Text → Bool) → Option Text → HeaderMap → Result (Unit {0}) CaptureError
check_api_key ct_eq none headers = ok tt
check_api_key ct_eq (some required) headers = elim (headers (codes "x-api-key")) [
  | some provided ↦
      if ct_eq provided required
      then ok tt
      else err (capture_error unauthorized (codes "invalid X-Api-Key"))
  | none ↦ err (capture_error unauthorized (codes "missing X-Api-Key header"))
]

-- The parameter, then the header, then the fresh UUID.
unfoldable pub resolve_request_id : Option Text → HeaderMap → Text → Text
resolve_request_id (some id) headers uuid = id
resolve_request_id none headers uuid = unwrap_or (headers (codes "x-request-id")) uuid

module _ {S Json : Type 0} where
  unfoldable pub check_auth :
      (Text → Text → Bool) → AppState S Json → HeaderMap → Result (Unit {0}) CaptureError
  unfolding check_api_key
  check_auth ct_eq st headers = check_api_key ct_eq st.api_key headers

  unfoldable pub check_rate :
      AppState S Json → Moment → AppState S Json × Result (Unit {0}) CaptureError
  check_rate st at =
      let (limiter, allowed) = try_acquire st.rate_limiter at.poisoned at.nanos in
      (record st { rate_limiter = limiter }, if allowed then ok tt else err rate_exceeded)

-- `JobsBackend::submit` and `JobsBackend::get`, by the clock and the fresh UUID. The task that a local
-- submit spawns is not run here.
module _ {S F Json : Type 0} (env : Env) (r : Redis S) (codec : QueueCodec F Json)
    (cfg : QueueConfig) where
  unfoldable pub submit :
      Moment → SummaryQuery F → JobsBackend S Json → JobsBackend S Json × Result Text CaptureError
  submit at q (local_jobs store) =
      let (store', answer) = Jobs.submit env at.uuid at.millis store in (local_jobs store', answer)
  submit at q (redis_jobs client) =
      let (client', answer) = Queue.enqueue r codec cfg at.uuid q client in
      (redis_jobs client', answer)

  unfoldable pub poll :
      Moment
      → Text
      → JobsBackend S Json
      → JobsBackend S Json × Result (Option (JobView Json)) CaptureError
  poll at id (local_jobs store) = (local_jobs store, ok (Jobs.get id at.millis store))
  poll at id (redis_jobs client) =
      let (client', answer) = Queue.get r codec cfg id client in (redis_jobs client', answer)

-- The routes of the capture API, with the parameters that axum parsed. A batch carries the order in which its
-- captures finish.
pub data ApiRequest (F : Type 0) : Type 0 where
  summary_get summary_post : SummaryQuery F → ApiRequest F
  summary_batch : BatchQuery F → List ℕ → ApiRequest F
  post_job : SummaryQuery F → ApiRequest F
  get_job : Text → ApiRequest F

-- What a handler leaves: the state, the effects of each capture it ran, and the response.
abbrev pub Handled : Type 0 → Type 0 → Type 0 → Type 0 → Type 0
Handled S F Stat Json = AppState S Json × List (List (Effect F)) × Response Stat Json

module _ {S F Url Stat Json : Type 0} (env : Env) (r : Redis S) (codec : QueueCodec F Json)
    (cfg : QueueConfig) (ct_eq : Text → Text → Bool) (allow_private_ips : Bool)
    (worlds : ℕ → World F Url Stat) (to_value : Captured Stat → Result Json Text)
    (to_markdown : Lang → Stat → Text) where
  unfoldable pub render : SummaryQuery F → Captured Stat → Body Stat Json
  render q (content body) = content_json body
  render q (full stat) = elim q.format [
    | json ↦ stat_json stat
    | markdown ↦ markdown_page (to_markdown q.lang stat)
  ]

  -- `summary` adds only logs.
  unfoldable pub summary_inner : AppState S Json → SummaryQuery F → Handled S F Stat Json
  unfolding respond render
  summary_inner st q =
      if is_empty q.url
      then (st, [], respond (err url_missing))
      else (let (effects, answer) = capture_one env (worlds 0) q allow_private_ips in
          (st, effects ∷ [], respond (answer >>= λ captured. ok (render q captured))))

  unfoldable pub batch_effects : SummaryQuery F → ℕ → List Text → List (List (Effect F))
  batch_effects base idx [] = []
  batch_effects base idx (url ∷ urls) =
      (capture_one env (worlds idx) (record base { url = url }) allow_private_ips).0
      ∷ batch_effects base (suc idx) urls

  -- `summary_batch_handler` after its two checks.
  unfoldable pub batch_inner : AppState S Json → BatchQuery F → List ℕ → Handled S F Stat Json
  unfolding respond batch_effects batch_page
  batch_inner st batch order =
      let limit = max_batch_urls env in
      let total = length batch.urls in
      if is_empty batch.urls
      then (st, [], respond (err urls_missing))
      else (if ltb limit total then (st, [], respond (err (too_many_urls total limit))) else (
        st,
        batch_effects batch.base 0 batch.urls,
        batch_page (run_batch env allow_private_ips worlds to_value batch order),
      ))

  -- `jobs_submit` after its two checks.
  unfoldable pub submit_inner :
      AppState S Json → Moment → SummaryQuery F → AppState S Json × Response Stat Json
  unfolding respond submit
  submit_inner st at q = if is_empty q.url then (st, respond (err url_missing)) else elim st.jobs [
    | none ↦ (st, respond (err jobs_disabled))
    | some backend ↦
        let (backend', answer) = submit env r codec cfg at q backend in
        (record st { jobs = some backend' }, respond (answer >>= λ id. ok (accepted_job id)))
  ]

  -- `jobs_get` after its two checks.
  unfoldable pub poll_inner : AppState S Json → Moment → Text → AppState S Json × Response Stat Json
  unfolding respond poll
  poll_inner st at id = elim st.jobs [
    | none ↦ (st, respond (err jobs_disabled))
    | some backend ↦
        let (backend', answer) = poll env r codec cfg at id backend in
        (
          record st { jobs = some backend' },
          respond (
              answer >>= λ found.
              ok_or found
                (capture_error not_found (codes "job `" ++ (id ++ codes "` not found or expired")))
              >>= λ view. ok (job_view view)),
        )
  ]

  unfoldable pub dispatch : AppState S Json → Moment → ApiRequest F → Handled S F Stat Json
  unfolding summary_inner batch_inner submit_inner poll_inner
  dispatch st at (summary_get q) = summary_inner st q
  dispatch st at (summary_post q) = summary_inner st q
  dispatch st at (summary_batch batch order) = batch_inner st batch order
  dispatch st at (post_job q) = let (st', response) = submit_inner st at q in (st', [], response)
  dispatch st at (get_job id) = let (st', response) = poll_inner st at id in (st', [], response)

  -- The five handlers: each checks the key, then the rate, and then does its work.
  unfoldable pub handle :
      AppState S Json → HeaderMap → Moment → ApiRequest F → Handled S F Stat Json
  unfolding check_auth check_rate into_response dispatch
  handle st headers at request = elim (check_auth ct_eq st headers) [
    | err e ↦ (st, [], into_response e)
    | ok _ ↦
        let (st', rate) = check_rate st at in
        elim rate [ err e ↦ (st', [], into_response e) | ok _ ↦ dispatch st' at request ]
  ]

-- The probes and the metrics page. `rendered` is the metrics' text; `version` is the answer of the first active
-- browser, if there is one.
pub record HealthState : Type 0 where
  pub api_key : Option Text
  pub protect_metrics : Bool
  pub rendered : Text
  pub version : Option (Result Text Text)

module _ {Stat Json : Type 0} where
  unfoldable pub metrics_endpoint :
      (Text → Text → Bool) → HealthState → HeaderMap → Response Stat Json
  unfolding respond check_api_key
  metrics_endpoint ct_eq st headers = respond (
      if st.protect_metrics
      then (check_api_key ct_eq st.api_key headers >>= λ _. ok (plain st.rendered))
      else ok (plain st.rendered))

  unfoldable pub readyz : HealthState → Response Stat Json
  unfolding respond
  readyz st = respond (
      ok_or st.version (
        capture_error service_unavailable
          (codes "no active browser instance (pool recycling/respawning)"))
      >>= λ version.
          map_err (λ e. capture_error service_unavailable (codes "browser CDP unreachable: " ++ e))
            version
          >>= λ _. ok (plain (codes "ok")))

  unfoldable pub healthz : Response Stat Json
  healthz = page (plain (codes "ok"))

-- The key's check around the MCP service, whose answer is `next`.
unfoldable pub mcp_auth :
    {S Stat Json A : Type 0}
    → (Text → Text → Bool)
    → AppState S Json
    → HeaderMap
    → (AppState S Json → AppState S Json × A)
    → AppState S Json × Result A (Response Stat Json)
unfolding check_auth into_response
mcp_auth ct_eq st headers next = elim (check_auth ct_eq st headers) [
  | err e ↦ (st, err (into_response e))
  | ok _ ↦ let (st', answer) = next st in (st', ok answer)
]
