-- ===== src/Examples/Timed.antt =====
-- The job backends against the clock, with a server of Redis that keeps the time of its keys.
use browser_headless.Base.{
  ℕ, ◌-◌, ◌*◌, ◌≤◌, ◌<◌, ◌≡◌, refl, ap, arith, Bool, true, false, Option, none, some, [], Text,
  codes, text_eq, text_eq_refl, is_some, leb, if◌then◌else◌, Result, ok,
}
use browser_headless.Error.{CaptureError}
use browser_headless.Config.{env_string, env_u64}
use browser_headless.Queue.{
  Redis, Client, enqueue, write_marker, add_entry, conn, get, decode_view, into_job_view,
  view_status, result_key, from_env,
}
use browser_headless.Queue.Laws.{View, IsLawful}
use browser_headless.Queue.Expiry.{Keyspace, Expires}
use browser_headless.Http.{redis_jobs, submit, poll}
use browser_headless.Http.Contract.{Shown, poll-submit}
use browser_headless.Examples.Network.{empty_env, public_url}
use browser_headless.Examples.Captures.{plain_query}
use browser_headless.Examples.Queues.{
  Server, write, set_nx, small_redis, small_view, small_redis-IsLawful, small_codec, small_config,
  marker_view,
}
use browser_headless.Examples.Serve.{noon, soon}

-- A server, and the milliseconds that each key has left.
abbrev Timed : Type 0
Timed = Server × (Text → ℕ)

abbrev timed_redis : Redis Timed
timed_redis = record {
  connect = λ s opts. ok tt;
  set_nx_ex = λ s k x ttl. (
    (
      (small_redis.set_nx_ex s.0 k x ttl).0,
      λ j. if is_some (s.0.0 k) then s.1 j else (if text_eq k j then ttl * 1000 else s.1 j),
    ),
    (small_redis.set_nx_ex s.0 k x ttl).1,
  );
  xadd = λ s stream limit payload. (
    ((small_redis.xadd s.0 stream limit payload).0, s.1),
    (small_redis.xadd s.0 stream limit payload).1,
  );
  del = λ s k. (((small_redis.del s.0 k).0, s.1), (small_redis.del s.0 k).1);
  get = λ s k. small_redis.get s.0 k;
}

abbrev timed_view : View Timed
timed_view = record {
  value = λ s k. small_view.value s.0 k;
  entries = λ s stream. small_view.entries s.0 stream;
}

timed_redis-IsLawful : IsLawful timed_redis timed_view
timed_redis-IsLawful =
    let law = small_redis-IsLawful in
    record {
      get_lem = λ s k o h. law.get_lem s.0 k o h;
      set_other = λ s k x ttl. law.set_other s.0 k x ttl;
      set_entries = λ s k x ttl. law.set_entries s.0 k x ttl;
      set_held = λ s k x y ttl h. law.set_held s.0 k x y ttl h;
      set_done = λ s k x ttl h. law.set_done s.0 k x ttl h;
      add_values = λ s stream p limit. law.add_values s.0 stream p limit;
      add_done = λ s stream p id limit h. law.add_done s.0 stream p id limit h;
      del_other = λ s k. law.del_other s.0 k;
      del_entries = λ s k. law.del_entries s.0 k;
      del_done = λ s k n h. law.del_done s.0 k n h;
    }

abbrev timed_keys : Keyspace Timed
timed_keys = record {
  remaining = λ s k. s.1 k;
  later = λ ms s. (((λ k. if leb (s.1 k) ms then none else s.0.0 k), s.0.1), λ k. s.1 k - ms);
}

set_left :
    (held : Bool) (s : Server) (k x : Text) (left : Text → ℕ) (ttl : ℕ)
    → (set_nx held s k x).1 ≡ ok true
    → (if held then left k else (if text_eq k k then ttl * 1000 else left k)) ≡ ttl * 1000
set_left true s k x left ttl h = cc
set_left false s k x left ttl h = ap (λ b. if b then ttl * 1000 else left k) (text_eq_refl k)

still : (o : Option Text) (left ms : ℕ) → ms < left → (if leb left ms then none else o) ≡ o
still o left ms h = ground arith

over : (o : Option Text) (left ms : ℕ) → left ≤ ms → (if leb left ms then none else o) ≡ none
over o left ms h = ground arith

timed_redis-Expires : Expires timed_redis timed_view timed_keys
timed_redis-Expires = record {
  set_remaining = λ s k x ttl h. set_left (is_some (s.0.0 k)) s.0 k x s.1 ttl h;
  add_remaining = λ s stream p limit k. refl;
  later_live = λ s k ms h. still (s.0.0 k) (s.1 k) ms h;
  later_gone = λ s k ms h. over (s.0.0 k) (s.1 k) ms h;
}

abbrev timed_client : Client Timed
timed_client = record { server = ((λ k. none, []), λ k. 0); connected = false }

abbrev submitted : Client Timed × Result Text CaptureError
submitted =
    enqueue timed_redis small_codec small_config (codes "a") (plain_query public_url) timed_client

accepted : submitted.1 ≡ ok (codes "a")
unfolding enqueue write_marker add_entry conn
accepted = refl

polled :
    (get timed_redis small_codec small_config
      (codes "a")
      (record submitted.0 { server = timed_keys.later 5 submitted.0.server })).1
    ≡ ok (some marker_view)
unfolding get enqueue write_marker add_entry conn decode_view into_job_view view_status text_eq
    codes result_key from_env env_string write env_u64
polled = refl

poll-submit_example :
    (codes "a" ≡ codes "a")
    × Shown (codes "a") 5 (small_config.result_ttl_secs * 1000) (some marker_view)
unfolding submit poll
poll-submit_example =
    poll-submit empty_env timed_redis timed_view timed_redis-IsLawful small_codec small_config
      timed_keys timed_redis-Expires (redis_jobs timed_client) (plain_query public_url) noon soon
      (codes "a") (some marker_view) refl (omega arith) accepted polled
