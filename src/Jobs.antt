-- ===== src/Jobs.antt =====
-- src/jobs.rs: the in-process store of asynchronous jobs. Times are in milliseconds. The UUIDs, the
-- clock and the captures' results are arguments. The map is the store's `HashMap`, in iteration order.
pub mod Bounds
pub mod Evict
pub mod Lifecycle
use browser_headless.Base.{
  ℕ, zero, suc, ◌+◌, ◌-◌, ◌*◌, ◌≡◌, Bool, true, false, not, Option, none, some, List, [], ◌∷◌, ◌++◌,
  Text, codes, show_ℕ, ltb, leb, ◌==◌, if◌then◌else◌, length, Result, ok, err,
}
use browser_headless.Base.Dicts.{Dict, lookup, insert, remove, modify, retain, count_values}
use browser_headless.Config.{Env, job_ttl, max_async_jobs}
use browser_headless.Error.{CaptureError, capture_error, service_unavailable, internal, status_u16}
use browser_headless.Capture.Engine.{Captured}

pub data JobStatus : Type 0 where
  queued running done error : JobStatus

pub record JobView (Json : Type 0) : Type 0 where
  pub id : Text
  pub status : JobStatus
  pub http_status : Option ℕ
  pub body : Option Json
  pub error_message : Option Text
  pub age_ms : ℕ

pub record JobRecord (Json : Type 0) : Type 0 where
  pub status : JobStatus
  pub http_status : Option ℕ
  pub body : Option Json
  pub error_message : Option Text
  pub created : ℕ
  pub expires : ℕ

-- Queued or running.
unfoldable pub is_active : JobStatus → Bool
is_active queued = true
is_active running = true
is_active done = false
is_active error = false

module _ {Json : Type 0} where
  unfoldable pub record_active : JobRecord Json → Bool
  unfolding is_active
  record_active r = is_active r.status

  unfoldable pub unexpired : ℕ → JobRecord Json → Bool
  unexpired now r = ltb now r.expires

  -- `.min_by_key(created)` over the completed records: the first of the oldest.
  unfoldable pub oldest_completed : Dict (JobRecord Json) → Option (Text × JobRecord Json)
  unfolding record_active
  oldest_completed [] = none
  oldest_completed ((k, r) ∷ m) =
      let rest = oldest_completed m in
      if record_active r then rest else elim rest [
        | none ↦ some (k, r)
        | some (k', r') ↦ if leb r.created r'.created then some (k, r) else some (k', r')
      ]

  -- `while map.len() >= max`, with fuel: each round removes an entry.
  unfoldable pub evict : ℕ → ℕ → Dict (JobRecord Json) → Dict (JobRecord Json)
  evict zero limit m = m
  evict (suc fuel) limit m = elim (leb limit (length m)) [
    | false ↦ m
    | true ↦ elim (oldest_completed m) [
      | none ↦ m
      | some (oldest, _) ↦ evict fuel limit (remove oldest m)
    ]
  ]

  unfoldable pub new_record : ℕ → ℕ → JobRecord Json
  new_record now ttl_ms = record {
    status = queued;
    http_status = none;
    body = none;
    error_message = none;
    created = now;
    expires = now + ttl_ms;
  }

  -- The part of `submit` under the write lock; `id` is the fresh UUID.
  unfoldable pub submit :
      Env → Text → ℕ → Dict (JobRecord Json) → Dict (JobRecord Json) × Result Text CaptureError
  unfolding unexpired record_active new_record
  submit env id now m =
      let live = retain (unexpired now) m in
      let active = count_values record_active live in
      let limit = max_async_jobs env in
      if leb limit active
      then (
        live,
        err (
            capture_error service_unavailable (
              codes "async job queue full ("
              ++ (show_ℕ active
                  ++ (codes "/"
                      ++ (show_ℕ limit
                          ++ codes
                              " in flight); retry later or raise BROWSER_HEADLESS_MAX_ASYNC_JOBS"))))),
      )
      else (insert id (new_record now (job_ttl env * 1000)) (evict (length live) limit live), ok id)

  unfoldable pub mark_running : Text → Dict (JobRecord Json) → Dict (JobRecord Json)
  mark_running id = modify id (λ r. record r { status = running })

  unfoldable pub complete_record :
      ℕ → ℕ → Result Json CaptureError → JobRecord Json → JobRecord Json
  complete_record now ttl_ms (ok value) r = record r {
    expires = now + ttl_ms;
    status = done;
    http_status = some 200;
    body = some value;
  }
  complete_record now ttl_ms (err e) r = record r {
    expires = now + ttl_ms;
    status = error;
    http_status = some (status_u16 e);
    error_message = some e.message;
  }

  -- A record that is gone (expired or evicted) drops the result.
  unfoldable pub complete :
      Env → Text → ℕ → Result Json CaptureError → Dict (JobRecord Json) → Dict (JobRecord Json)
  unfolding complete_record
  complete env id now result = modify id (complete_record now (job_ttl env * 1000) result)

  unfoldable pub get : Text → ℕ → Dict (JobRecord Json) → Option (JobView Json)
  get id now m = elim (lookup id m) [
    | none ↦ none
    | some r ↦
        if leb r.expires now
        then none
        else some (record {
          id = id;
          status = r.status;
          http_status = r.http_status;
          body = r.body;
          error_message = r.error_message;
          age_ms = now - r.created;
        })
  ]

  unfoldable pub purge_expired : ℕ → Dict (JobRecord Json) → Dict (JobRecord Json)
  unfolding unexpired
  purge_expired now = retain (unexpired now)

-- What `run_job` records: the capture's result, `none` standing for a panic, serialized by `to_value`.
module _ {Stat Json : Type 0} (to_value : Captured Stat → Result Json Text) where
  unfoldable pub job_outcome :
      Option (Result (Captured Stat) CaptureError) → Result Json CaptureError
  job_outcome none = err (capture_error internal (codes "capture panicked"))
  job_outcome (some (err e)) = err e
  job_outcome (some (ok captured)) = elim (to_value captured) [
    | ok value ↦ ok value
    | err e ↦ err (capture_error internal (codes "serialize: " ++ e))
  ]
