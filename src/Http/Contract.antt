-- ===== src/Http/Contract.antt =====
-- `JobsBackend` of src/jobs.rs: what the job store and the Redis queue both promise to `POST /jobs` and
-- `GET /jobs/{id}`.
use browser_headless.Base.{
  ℕ, ◌+◌, ◌-◌, ◌*◌, ◌≤◌, ◌<◌, ◌≡◌, refl, sym, ap, ◌∙◌, subst, ◌⊎◌, inl, inr, arith, true, false,
  Option, none, some, Text, codes, text_eq, text_eq_refl, leb, leb→le, Bool-cases, Result, ok,
  err-ne-ok, ok-injective, if◌then◌else◌,
}
use browser_headless.Base.Dicts.{Dict, lookup, insert, lookup-insert, retain, count_values}
use browser_headless.Config.{Env, job_ttl, max_async_jobs}
use browser_headless.Error.{CaptureError}
use browser_headless.Capture.Query.{SummaryQuery}
use browser_headless.Jobs
use browser_headless.Jobs.{JobView, queued, new_record, unexpired, record_active, evict}
use browser_headless.Queue
use browser_headless.Queue.{
  QueueConfig, Redis, QueueCodec, Client, result_key, enqueue, decode_view, into_job_view,
  view_status,
}
use browser_headless.Queue.Expiry.{Keyspace, Expires, enqueue-remaining}
use browser_headless.Queue.Laws.{View, IsLawful}
use browser_headless.Queue.Enqueue.{enqueue-Placed, get-decode_view, decode_marker}
use browser_headless.Http.{JobsBackend, local_jobs, redis_jobs, Moment, submit, poll}

-- The view of a job that waits.
abbrev pub waiting : {Json : Type 0} → Text → ℕ → JobView Json
waiting id age_ms = record {
  id = id;
  status = queued;
  http_status = none;
  body = none;
  error_message = none;
  age_ms = age_ms;
}

lookup-insert_self :
    {V : Type 0} (id : Text) (v : V) (m : Dict V) → lookup id (insert id v m) ≡ some v
lookup-insert_self id v m =
    lookup-insert id id v m ∙ ap (λ b. if b then some v else lookup id m) (text_eq_refl id)

module _ {Json : Type 0} (env : Env) where
  local-accepted :
      (id answer : Text) (now : ℕ) (store : Dict (Jobs.JobRecord Json))
      → (Jobs.submit env id now store).1 ≡ ok answer
      → (answer ≡ id)
        × (lookup id (Jobs.submit env id now store).0 ≡ some (new_record now (job_ttl env * 1000)))
  unfolding Jobs.submit
  local-accepted id answer now store h =
      elim (Bool-cases
        (leb (max_async_jobs env) (count_values record_active (retain (unexpired now) store)))) [
          | inl e ↦ absurd (err-ne-ok (rw (Jobs.submit, e) at h))
          | inr e ↦ (
            sym (ok-injective (rw (Jobs.submit, e) at h)),
            rw (Jobs.submit, e) (lookup-insert_self id _ _),
          )
        ]

  local-poll :
      (id : Text) (created now : ℕ) (store : Dict (Jobs.JobRecord Json))
      → lookup id store ≡ some (new_record created (job_ttl env * 1000))
      → now < created + job_ttl env * 1000
      → Jobs.get id now store ≡ some (waiting id (now - created))
  unfolding Jobs.get new_record
  local-poll id created now store h early =
      let alive : leb (created + job_ttl env * 1000) now ≡ false = ground (arith, early) in
      rw (Jobs.get, h, alive) refl

  local-gone :
      (id : Text) (created now : ℕ) (store : Dict (Jobs.JobRecord Json))
      → lookup id store ≡ some (new_record created (job_ttl env * 1000))
      → created + job_ttl env * 1000 ≤ now
      → Jobs.get id now store ≡ none
  unfolding Jobs.get new_record
  local-gone id created now store h late =
      let over : leb (created + job_ttl env * 1000) now ≡ true = ground (arith, late) in
      rw (Jobs.get, h, over) refl

-- The view of a job for so many milliseconds since its submit, if the backend keeps it for `keeps`.
abbrev pub Shown : {Json : Type 0} → Text → ℕ → ℕ → Option (JobView Json) → Type 0
Shown id elapsed keeps found =
    ((elapsed < keeps) × ((age_ms : ℕ) × (found ≡ some (waiting id age_ms)) × (age_ms ≤ elapsed)))
    ⊎ ((keeps ≤ elapsed) × (found ≡ none))

early_or_late : (elapsed keeps : ℕ) → (elapsed < keeps) ⊎ (keeps ≤ elapsed)
early_or_late elapsed keeps = elim (Bool-cases (leb keeps elapsed)) [
  | inl late ↦ inr (leb→le keeps elapsed late)
  | inr early ↦ inl (ground arith)
]

module _ {S F Json : Type 0} (env : Env) (r : Redis S) (v : View S) (law : IsLawful r v)
    (codec : QueueCodec F Json) (cfg : QueueConfig) (k : Keyspace S) (expiry : Expires r v k) where
  -- What the stored marker of a job decodes to.
  abbrev pub MarkerDecodes : Text → Type 0
  MarkerDecodes id =
      codec.decode (codec.queued_marker id)
      ≡ ok (record {
        id = id;
        phase = some (codes "queued");
        status = none;
        body = none;
        error_message = none;
      })

  -- How long a backend keeps a job that waits: the local store's TTL, and that of the result keys in Redis.
  abbrev pub kept_ms : JobsBackend S Json → ℕ
  kept_ms (local_jobs store) = job_ttl env * 1000
  kept_ms (redis_jobs client) = cfg.result_ttl_secs * 1000

  -- The backend so many milliseconds later, if nothing uses it.
  abbrev pub aged : ℕ → JobsBackend S Json → JobsBackend S Json
  aged ms (local_jobs store) = local_jobs store
  aged ms (redis_jobs client) = redis_jobs (record client { server = k.later ms client.server })

  local-Shown :
      (id : Text) (created now : ℕ) (store : Dict (Jobs.JobRecord Json))
      → lookup id store ≡ some (new_record created (job_ttl env * 1000))
      → created ≤ now
      → Shown id (now - created) (job_ttl env * 1000) (Jobs.get id now store)
  local-Shown id created now store stored order =
      elim (early_or_late (now - created) (job_ttl env * 1000)) [
        | inl early ↦ inl (
          early,
          (now - created, local-poll env id created now store stored (omega arith), omega arith),
        )
        | inr late ↦ inr (late, local-gone env id created now store stored (omega arith))
      ]

  redis-Shown :
      (id : Text) (q : SummaryQuery F) (c : Client S) (answer : Text) (ms : ℕ)
      (found : Option (JobView Json))
      → MarkerDecodes id
      → (enqueue r codec cfg id q c).1 ≡ ok answer
      → (Queue.get r codec cfg id (record (enqueue r codec cfg id q c).0 {
        server = k.later ms (enqueue r codec cfg id q c).0.server;
      })).1
        ≡ ok found
      → Shown id ms (cfg.result_ttl_secs * 1000) found
  unfolding into_job_view view_status text_eq codes decode_view
  redis-Shown id q c answer ms found d h g =
      let (_, (p, ser, (absent, mark, tail))) = enqueue-Placed r v law codec cfg id q c answer h in
      let s = (enqueue r codec cfg id q c).0.server in
      let key = result_key cfg id in
      let left = enqueue-remaining r v law codec cfg k expiry id q c answer h in
      let shown = get-decode_view r v law codec cfg id _ found g in
      elim (early_or_late ms (cfg.result_ttl_secs * 1000)) [
        | inl early ↦
            let live = expiry.later_live s key ms (omega (arith, left)) in
            inl (
              early,
              (
                0,
                ok-injective (
                    sym shown
                    ∙ ap (decode_view r codec cfg) (live ∙ mark)
                    ∙ decode_marker r v law codec cfg id _ d),
                omega arith,
              ),
            )
        | inr late ↦
            let gone = expiry.later_gone s key ms (omega (arith, left)) in
            inr (late, ok-injective (sym shown ∙ ap (decode_view r codec cfg) gone))
      ]

  -- Once a backend has accepted a job, and while neither the job's task, nor a worker, nor another request has
  -- used the backend: a poll that is answered shows the job as waiting, under the id that was given and without
  -- a result, as long as that backend keeps it, the local store for its TTL and Redis for that of the result
  -- keys, and from then on shows none. The age shown is at most the time since the submit.
  pub poll-submit :
      (backend : JobsBackend S Json) (q : SummaryQuery F) (at later : Moment) (id : Text)
      (found : Option (JobView Json))
      → MarkerDecodes at.uuid
      → at.millis ≤ later.millis
      → (submit env r codec cfg at q backend).1 ≡ ok id
      → (poll env r codec cfg later id
          (aged (later.millis - at.millis) (submit env r codec cfg at q backend).0)).1
        ≡ ok found
      → (id ≡ at.uuid) × Shown at.uuid (later.millis - at.millis) (kept_ms backend) found
  unfolding submit poll
  poll-submit (local_jobs store) q at later id found d order h g =
      let (same, stored) = local-accepted env at.uuid id at.millis store h in
      let polled =
        subst
          (λ i.
            ◌≡◌ {A = Result (Option (JobView Json)) CaptureError}
              (ok (Jobs.get i later.millis (Jobs.submit env at.uuid at.millis store).0)) (ok found))
          same g in
      (
        same,
        subst (Shown at.uuid (later.millis - at.millis) (job_ttl env * 1000)) (ok-injective polled)
            (local-Shown at.uuid at.millis later.millis _ stored order),
      )
  poll-submit (redis_jobs client) q at later id found d order h g =
      let (same, placed) = enqueue-Placed r v law codec cfg at.uuid q client id h in
      (
        same,
        redis-Shown at.uuid q client id (later.millis - at.millis) found d h (
            subst
              (λ i.
                (Queue.get r codec cfg i (record (enqueue r codec cfg at.uuid q client).0 {
                  server =
                      k.later (later.millis - at.millis)
                        (enqueue r codec cfg at.uuid q client).0.server;
                })).1
                ≡ ok found)
              same g),
      )
