-- ===== src/Lib.antt =====
-- The browser-headless service: captures of web pages by a pool of headless browsers, over HTTP and as
-- asynchronous jobs.
--
-- A request is parsed into a query (src/capture.rs). The query is expanded by its profile and clamped by
-- the knobs of the environment (src/config.rs); its URL is checked against the private address
-- ranges (src/ssrf.rs); it takes a page slot of an instance of the pool (src/pool.rs); the browser runs
-- it under a deadline, with each navigation and redirect checked again by the request interception
-- (src/browser/mod.rs); the answer is shaped into content or a full snapshot, or into an error with
-- an HTTP status (src/error.rs). A rate limiter (src/rate_limit.rs) stands before the HTTP handlers.
-- An asynchronous job is a record of the job store (src/jobs.rs) and a task that captures and
-- writes the result; with a Redis queue, a worker (src/worker.rs) takes the job from a stream,
-- retries transient failures, writes the result and acknowledges the entry. A batch runs many captures
-- and puts the answers in the order of the request. The HTTP handlers (src/http.rs) check an API key and
-- the rate limiter, and then capture, or submit and poll jobs at the local store or at the producer
-- of the Redis stream (src/queue.rs). The MCP tools (src/mcp.rs) are captures with fixed queries, whose
-- answers are cut for a model to read.
--
-- Files:
--   Base and below: lists, texts as lists of Unicode scalars, results, and maps as association lists.
--   Error: src/error.rs and the error type of src/browser/mod.rs.
--   Config: src/config.rs, every knob under its name, as a function of the environment.
--   RateLimit: src/rate_limit.rs. `refill` and `take_token` are the two halves of `try_acquire`.
--   Ssrf: src/ssrf.rs. `check_host` and `check_addrs` are the match and the loop of `check_url`.
--   Browser.Intercept: `parse_resource_type` and `apply_request_interception` of src/browser/mod.rs;
--     `on_paused` is the handler of one event, `on_request` adds which requests are paused.
--   Capture.Query, Capture.Request: `SummaryQuery`, `apply_profile`, `apply_clamps` and the request for
--     the browser. Capture.Engine: `capture_one` and what it calls. `admit` is its checks, `with_slot`
--     what runs with the slot, and the slot's use and the browser's are recorded as effects.
--     Capture.Batch: `run_batch`. Capture.Cookies: `parse_cookie_header`.
--   Jobs: src/jobs.rs; `complete` is the last part of `run_job`, `job_outcome` what it is given.
--     Jobs.Lifecycle runs the operations as steps of a store and its tasks.
--   Pool.State, Pool.Steps: src/pool.rs. A step is what one task does between two awaits, taken as one
--     event; the choice of events is the scheduler's, the clock's, and the browsers'.
--   Worker: src/worker.rs. `retry` is the loop of `capture_to_result` with the retries left as its
--     argument; `finish_job` is `process_one` from the capture on. Commands sent to Redis are a list.
--     Worker.Loop: the read loop of `run`, as steps on the answers of Redis, the ends of jobs and the
--     shutdown signal; `COUNT` of a read bounds the entries of its answer.
--   Queue: src/queue.rs, over the commands of Redis as an interface record; Queue.Laws has the laws of
--     these commands, Queue.Expiry those on the time that a key has. `write_marker` and `add_entry` are the two commands of `enqueue`. The task that
--     `fail` spawns to drop the connection is taken to run before the next call.
--   Http: src/http.rs and `JobsBackend` of src/jobs.rs. `handle` is the five handlers of the capture API,
--     from the parsed parameters on; each `_inner` is the part of a handler after its two checks.
--   Mcp: the tools of src/mcp.rs. `tool_query` is the query whose fields a tool states, `build_query` their
--     reading by serde, `tool_answer` the match on the capture's answer.
--   Browser.Security: src/browser/security.rs; `cors_loop` is the loop of `build_cors_issues`.
--     Browser.Security.Audit: `extract_security_headers` and `build_security_audit`.
--   Browser.Resource: `WebPageResource` of src/browser/mod.rs and what it holds.
--   Browser.Analysis: functions of src/browser/mod.rs on the resources of a page. `climb` is the inner loop
--     of `compute_initiator_chain_depth`.
--   Browser.Summary: the loop of `build_resource_summary`, one function per block of its body. Below it
--     are the rankings after the loop, `build_duplicate_resources`, `build_resource_hints`, and in
--     Browser.Summary.Report the function itself.
--   Browser.Coverage: `compute_js_coverage` of src/browser/mod.rs, with offsets that are not negative.
--     Browser.Coverage.Report: the block of `collect_summary` that makes the coverage report.
--   Browser.Collect: `collect_summary` and `collect_summary_lean`. State has the variables of the loops and
--     the events, Facts the functions that read one event, Lean the arms of the lean loop and
--     what both loops call, Handlers the arms of the full loop's `select!`, each from its own text, Loop the
--     loops, Finish the snapshots that they end with.
--   Browser.Session: `capture` of src/browser/mod.rs. A run is the list of the commands sent and an
--     answer: not there yet, an error, or a value. Commands has the overrides before navigation (the
--     `apply_*` functions), Poll the waits, Format the loading and the reads, Capture the four stages.
--   Examples: the concrete inputs of the tests.
--
-- Names: `data` is a reserved word, so the fields `data` of the source are `body` here, and the
-- fields `error` of a job are `error_message`.
--
-- Numbers are unbounded; the casts that wrap (`as u32` of the rate limit, `as u64` of the wait of a
-- queued capture, `as u32` of a response's status) are written out, and `usize` has 64 bits. The counters
-- that a page fills (`u32`, `as u32` of a length) are unbounded here. Durations are milliseconds, in the
-- rate limiter nanoseconds with tokens in units of 10^-9; its f64 arithmetic is taken as exact. The
-- f64 parameters of a query are only passed on, and one is tested against 1.0, so their type and that
-- test are parameters.
--
-- Fuel: the eviction loop of a submit runs on the number of records as fuel. Each round removes one
-- record, and the limit is at least 1, so no round is needed on an empty map, and the fuel is never
-- short of a round that the loop would take. The loops that wait for a page run on a list of rounds,
-- what the browser and the clock bring to each; when the list ends before the loop does, the outcome says
-- so. The walk up the initiators runs on 101 rounds: each but the last adds 1 to a depth that it
-- leaves at most 100.
--
-- Parameters: the URL parser, the resolver, the browser under the HTTP side, the slot of the pool that a
-- capture gets, the JSON codec, serde's reading of a tool's fields, the answers of Redis, the clock and the UUIDs; the comparison of keys of
-- the subtle crate, of which equality is assumed where it matters; the serializers of a snapshot. Of a
-- capture session: the answers of the browser, the Markdown converter, the HAR and the image audit,
-- and the f64 numbers 1.0 and 100.0.
--
-- Of a page: the timestamps of events are in microseconds, the loop's clock in milliseconds. A f64 ratio is
-- the pair of the two numbers divided. What the source keeps in a HashMap is an association list in the
-- order of insertion, so a ranking whose source leaves ties to the order of the map has one of the
-- orders that the source can have. `try_join!` is run as if each side sent its commands in turn and,
-- of two errors, the first listed came first. What the browser's answers decode to (images, PDF,
-- metrics, vitals, what the page's scripts return) is one type parameter and only passed on.
--
-- Not modelled: metrics and logs; src/main.rs (wiring); of src/redis_conn.rs all but the options (calls
-- of the redis crate); src/browser/markdown.rs (formatting); of src/http.rs routing and extraction; of
-- src/mcp.rs the JSON of `page_signals` and the transport; of src/queue.rs `connect`; of src/worker.rs
-- the connects and the sampler of metrics; of src/jobs.rs the in-flight counter and `drain`; of
-- src/browser/mod.rs `launch`, the scripts that run in the page, the aggregation of web vitals, the
-- image audit and `build_har`.
mod Base
pub mod Error
pub mod Config
pub mod RateLimit
pub mod Ssrf
pub mod Browser
pub mod Capture
pub mod Jobs
pub mod Pool
pub mod Worker
pub mod Queue
pub mod Mcp
pub mod Http
pub mod Examples
