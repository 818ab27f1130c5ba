-- ===== src/Examples/Queues.antt =====
-- The Redis queue at a concrete server, whose commands keep the laws.
use browser_headless.Base.{
  ℕ, ◌≡◌, refl, sym, ap, ◌∙◌, ◌⊎◌, Bool, true, false, Option, none, some, List, [], ◌∷◌, ◌++◌, Text,
  codes, text_eq, text_eq_refl, is_some, if◌then◌else◌, Result, ok, err, ok-injective,
}
use browser_headless.Config.{env_string}
use browser_headless.Capture.Engine.{Captured, full}
use browser_headless.Error.{CaptureError}
use browser_headless.Jobs.{JobRecord, JobView, queued, running, complete_record, job_outcome}
use browser_headless.Worker.{attempt_result}
use browser_headless.Queue.{
  QueueConfig, from_env, Redis, QueueCodec, Client, into_job_view, enqueue, get, result_key,
  with_request_id, conn, write_marker, add_entry, decode_view, view_status,
}
use browser_headless.Queue.Views.{stored_of, into_job_view-complete_record}
use browser_headless.Queue.Laws.{View, IsLawful}
use browser_headless.Queue.Enqueue.{Placed, enqueue-Keeps, enqueue-Placed, get-enqueue}
use browser_headless.Examples.Network.{empty_env, public_url}
use browser_headless.Examples.Captures.{plain_query}

-- The values by key, and the payloads of the one stream.
abbrev pub Server : Type 0
Server = (Text → Option Text) × List Text

unfoldable pub write : Text → Text → (Text → Option Text) → Text → Option Text
write k x values j = if text_eq k j then some x else values j

unfoldable pub erase : Text → (Text → Option Text) → Text → Option Text
erase k values j = if text_eq k j then none else values j

-- `SET … NX` where there is a value, and where there is none.
abbrev pub set_nx : Bool → Server → Text → Text → Server × Result Bool Text
set_nx true s k x = (s, ok false)
set_nx false s k x = ((write k x s.0, s.1), ok true)

abbrev pub small_redis : Redis Server
small_redis = record {
  connect = λ s opts. ok tt;
  set_nx_ex = λ s k x ttl. set_nx (is_some (s.0 k)) s k x;
  xadd = λ s stream limit payload. ((s.0, s.1 ++ (payload ∷ [])), ok (codes "1-0"));
  del = λ s k. ((erase k s.0, s.1), ok 1);
  get = λ s k. ok (s.0 k);
}

abbrev pub small_view : View Server
small_view = record { value = λ s k. s.0 k; entries = λ s stream. s.1 }

write_self : (k x : Text) (values : Text → Option Text) → write k x values k ≡ some x
unfolding write
write_self k x values = ap (λ b. if b then some x else values k) (text_eq_refl k)

set_nx-other :
    (held : Bool) (s : Server) (k x j : Text)
    → text_eq k j ≡ false
    → (set_nx held s k x).0.0 j ≡ s.0 j
unfolding write
set_nx-other true s k x j ne = refl
set_nx-other false s k x j ne = ap (λ b. if b then some x else s.0 j) ne

set_nx-entries : (held : Bool) (s : Server) (k x : Text) → (set_nx held s k x).0.1 ≡ s.1
set_nx-entries true s k x = refl
set_nx-entries false s k x = refl

set_nx-done :
    (held : Bool) (s : Server) (k x : Text)
    → (set_nx held s k x).1 ≡ ok true
    → (held ≡ false) × ((set_nx held s k x).0.0 k ≡ some x)
set_nx-done true s k x h = cc
set_nx-done false s k x h = (refl, write_self k x s.0)

free_none : (o : Option Text) → is_some o ≡ false → o ≡ none
free_none none h = refl
free_none (some x) h = cc

pub small_redis-IsLawful : IsLawful small_redis small_view
unfolding write erase
small_redis-IsLawful = record {
  get_lem = λ s k o h. sym (ok-injective h);
  set_other = λ s k x ttl j ne. set_nx-other (is_some (s.0 k)) s k x j ne;
  set_entries = λ s k x ttl. ap (λ l stream. l) (set_nx-entries (is_some (s.0 k)) s k x);
  set_held = λ s k x y ttl h. ap (λ o. (set_nx (is_some o) s k x).0.0 k) h ∙ h;
  set_done = λ s k x ttl h.
      let (free, put) = set_nx-done (is_some (s.0 k)) s k x h in (free_none (s.0 k) free, put);
  add_values = λ s stream p limit. refl;
  add_done = λ s stream p id limit h. (s.1, refl);
  del_other = λ s k j ne. ap (λ b. if b then none else s.0 j) ne;
  del_entries = λ s k. refl;
  del_done = λ s k n h. ap (λ b. if b then none else s.0 k) (text_eq_refl k);
}

-- A codec whose payload and marker are the id.
abbrev pub small_codec : QueueCodec ℕ ℕ
small_codec = record {
  payload = λ id q. ok id;
  queued_marker = λ id. id;
  decode = λ raw. ok (record {
    id = raw;
    phase = some (codes "queued");
    status = none;
    body = none;
    error_message = none;
  });
}

abbrev pub small_config : QueueConfig
small_config = from_env empty_env

-- Nothing is stored, and the client is not connected yet.
abbrev pub fresh_client : Client Server
fresh_client = record { server = (λ k. none, []); connected = false }

abbrev pub submitted : Client Server × Result Text CaptureError
submitted =
    enqueue small_redis small_codec small_config (codes "a") (plain_query public_url) fresh_client

-- The concrete enqueue is accepted.
pub accepted : submitted.1 ≡ ok (codes "a")
unfolding enqueue write_marker add_entry conn
accepted = refl

-- A result of another job is stored.
abbrev other_client : Client Server
other_client = record {
  server = (write (codes "z") (codes "result") (λ k. none), []);
  connected = false;
}

enqueue-Keeps_example :
    (enqueue small_redis small_codec small_config
        (codes "a")
        (plain_query public_url)
        other_client).0.server.0
      (codes "z")
    ≡ some (codes "result")
unfolding write
enqueue-Keeps_example =
    enqueue-Keeps small_redis small_view small_redis-IsLawful small_codec small_config (codes "a")
      (plain_query public_url) other_client (codes "z") (codes "result")
      (write_self (codes "z") (codes "result") (λ k. none))

enqueue-Placed_example :
    (codes "a" ≡ codes "a")
    × ((payload : Text) × (small_codec.payload
            (codes "a")
            (with_request_id (codes "a") (plain_query public_url))
          ≡ ok payload)
        × Placed small_redis small_view small_redis-IsLawful small_codec small_config
            (codes "a")
            payload
            fresh_client.server
            submitted.0.server)
enqueue-Placed_example =
    enqueue-Placed small_redis small_view small_redis-IsLawful small_codec small_config (codes "a")
      (plain_query public_url) fresh_client (codes "a") accepted

-- The marker as a poll reads it.
abbrev pub marker_view : JobView ℕ
marker_view = record {
  id = codes "a";
  status = queued;
  http_status = none;
  body = none;
  error_message = none;
  age_ms = 0;
}

pub polled :
    (get small_redis small_codec small_config (codes "a") submitted.0).1 ≡ ok (some marker_view)
unfolding get enqueue write_marker add_entry conn decode_view into_job_view view_status write
    text_eq codes result_key from_env env_string
polled = refl

get-enqueue_example : ◌≡◌ {A = Option (JobView ℕ)} (some marker_view) (some marker_view)
get-enqueue_example =
    get-enqueue small_redis small_view small_redis-IsLawful small_codec small_config (codes "a")
      (plain_query public_url) fresh_client (codes "a") (some marker_view) refl accepted polled

abbrev one_value : Captured ℕ → Result ℕ Text
one_value captured = ok 1

abbrev running_job : JobRecord ℕ
running_job = record {
  status = running;
  http_status = none;
  body = none;
  error_message = none;
  created = 0;
  expires = 10;
}

abbrev shown : JobView ℕ
shown = into_job_view 0 (stored_of (attempt_result one_value (codes "a") (ok (full 7))))

abbrev kept : JobRecord ℕ
kept = complete_record 5 100 (job_outcome one_value (some (ok (full 7)))) running_job

into_job_view-complete_record_example :
    (shown.status ≡ kept.status)
    × (shown.http_status ≡ kept.http_status)
    × (shown.body ≡ kept.body)
    × ((shown.error_message ≡ kept.error_message)
        ⊎ ((c : Captured ℕ) × (e : Text) × (◌≡◌ {A = Result (Captured ℕ) CaptureError}
              (ok (full 7))
              (ok c))
            × (one_value c ≡ err e)))
into_job_view-complete_record_example =
    into_job_view-complete_record one_value (codes "a") (ok (full 7)) 5 100 running_job refl refl
      refl
