-- ===== src/Examples/Pages.antt =====
-- The loading, the reports and the session of a page at concrete events and answers.
use browser_headless.Base.{
  ℕ, ◌+◌, ◌≤◌, ◌≡◌, ◌⊎◌, refl, inl, inr, arith, true, false, none, some, Option, List, [], ◌∷◌,
  ◌++◌, map, Text, codes, text_eq, starts_with, length, any, count, to_ℕ, All, ok,
}
use browser_headless.Base.Dicts.{Dict}
use browser_headless.Capture.Request.{SummaryRequest, build_request}
use browser_headless.Browser.Resource.{ParsedUrl}
use browser_headless.Browser.Intercept.{ResourceType, blocked_types, patterns}
use browser_headless.Browser.Summary.{no_tally, tally}
use browser_headless.Browser.Summary.Report.{target_host_of, build_resource_summary}
use browser_headless.Browser.Summary.Balance.{
  TypesBalance, NetworkBalance, HostsShown, IsLargest, total_bytes, build_resource_summary-Balance,
}
use browser_headless.Browser.Coverage.Report.{CssRuleUsage, coverage_report}
use browser_headless.Browser.Coverage.Split.{IsSplit, coverage_report-Split}
use browser_headless.Browser.Collect.State.{
  CollectCaptures, ExceptionThrown, RequestWillBeSent, LoadingFailed, Event, exception, request,
  loading_failed, Progress, Collect, start_progress, start_collect,
}
use browser_headless.Browser.Collect.Facts.{is_real_resource}
use browser_headless.Browser.Collect.Lean.{on_lifecycle, gate_at, get_or_insert, lean_to_ms, to_ms}
use browser_headless.Browser.Collect.Handlers.{
  on_exception, on_request, on_loading_failed, is_subscribed,
}
use browser_headless.Browser.Collect.Loop.{
  Round, LeanEvent, lean_lifecycle, arrived, closed, running, stopped, run_lean, run_full,
}
use browser_headless.Browser.Collect.Loop.Agreement.{full_round, outcome_view, run_full-lean}
use browser_headless.Browser.Collect.Loop.Waits.{run_lean-Stops}
use browser_headless.Browser.Collect.Finish.{
  WebPageStat, FinalReads, read_when, read_coverage, full_stat, finish,
}
use browser_headless.Browser.Collect.Sound.Aborts.{failures, run_full-unsuppressed}
use browser_headless.Browser.Collect.Sound.Snapshot.{IsSnapshot, finish-IsSnapshot}
use browser_headless.Browser.Session.Poll.{
  Try, wait_for_selector, max_interval, Ended, wait_for_selector-Ended,
}
use browser_headless.Browser.Session.Format.{Site}
use browser_headless.Browser.Session.Capture.{capture}
use browser_headless.Browser.Session.Teardown.{is_dispose, is_done, capture-Disposes}
use browser_headless.Browser.Session.Guarded.{is_goto, TookInterception, capture-intercepts}
use browser_headless.Examples.Network.{public_url}
use browser_headless.Examples.Captures.{plain_query}
use browser_headless.Examples.Reports.{two_resources, one_script}

abbrev one_host : Text → Option ParsedUrl
one_host url = some (record { host_str = some (codes "example.com"); path = codes "/" })

build_resource_summary-Balance_example :
    let s = build_resource_summary one_host two_resources public_url in
    TypesBalance (length two_resources) (total_bytes two_resources) s.types
    × NetworkBalance (length two_resources) (total_bytes two_resources) s.network
    × HostsShown
        (target_host_of (one_host public_url))
        (codes "cdn.example.com")
        two_resources
        (tally (target_host_of (one_host public_url)) two_resources no_tally).by_host
        s
    × (s.third_party_script_bytes ≤ s.third_party_bytes)
    × (s.third_party_bytes ≤ total_bytes two_resources)
    × (s.unique_hosts ≤ length two_resources)
    × IsLargest two_resources s.largest_resource
build_resource_summary-Balance_example =
    build_resource_summary-Balance one_host two_resources public_url (codes "cdn.example.com")

abbrev two_rules : List CssRuleUsage
two_rules =
    record { style_sheet_id = codes "s"; start_offset = 0; end_offset = 40; used = true }
    ∷ record { style_sheet_id = codes "s"; start_offset = 30; end_offset = 90; used = false }
    ∷ []

abbrev one_sheet : Dict (Text × ℕ)
one_sheet = (codes "s", (codes "https://example.com/a.css", 90)) ∷ []

coverage_report-Split_example :
    let report = coverage_report (one_script ∷ []) two_rules one_sheet in
    (report.js_used_bytes + report.js_unused_bytes ≡ report.js_total_bytes)
    × (report.css_used_bytes + report.css_unused_bytes ≡ report.css_total_bytes)
    × All IsSplit report.top_unused
    × (length report.top_unused ≤ 10)
coverage_report-Split_example = coverage_report-Split (one_script ∷ []) two_rules one_sheet

-- Everything that has a switch but the initiators and what the browser is asked for after the loop.
abbrev some_captures : CollectCaptures
some_captures = record {
  lean = false;
  screenshot = false;
  initiators = false;
  console = true;
  http_errors = true;
  coverage = false;
  cookies = false;
  resource_headers = true;
  cors_headers = false;
  free_resources = false;
}

abbrev round : {E : Type 0} → ℕ → E → Round E
round at ev = record { last_event_at = at; now = at; arrival = arrived at ev }

abbrev last_round : {E : Type 0} → ℕ → Round E
last_round at = record { last_event_at = at; now = at; arrival = closed }

abbrev idle : Round LeanEvent
idle = round 1000 (lean_lifecycle 5000000 (codes "networkIdle"))

run_full-lean_example :
    (outcome_view
        (λ c. c.progress)
        (run_full one_host 0 some_captures public_url 30000 [] false
          (map full_round (idle ∷ last_round 1500 ∷ [])))
      ≡ run_lean 30000 [] false (idle ∷ last_round 1500 ∷ []))
    × (lean_to_ms (some 5000) (some 8000) ≡ to_ms (some 5000) (some 8000))
run_full-lean_example =
    run_full-lean one_host 0 some_captures public_url 30000 [] false (idle ∷ last_round 1500 ∷ [])
      (some 5000) (some 8000)

abbrev idle_progress : Progress
idle_progress = record (start_progress []) { idle_at = some 1000 }

reached_idle : run_lean 30000 [] false (idle ∷ []) ≡ running idle_progress
unfolding run_lean on_lifecycle get_or_insert text_eq codes
reached_idle = refl

is_idle : gate_at false idle_progress ≡ some 1000
unfolding gate_at
is_idle = refl

run_lean-Stops_example :
    run_lean 30000 [] false (((idle ∷ []) ++ []) ++ last_round 1500 ∷ []) ≡ stopped idle_progress
run_lean-Stops_example =
    run_lean-Stops 30000 [] false (idle ∷ []) [] [] (last_round 1500) 1000 idle_progress
      idle_progress reached_idle (is_idle, refl) reached_idle (inr (inl (omega arith)))

-- A request that the page gave up at once.
abbrev aborted : LoadingFailed
aborted = record {
  request_id = codes "1";
  timestamp = 5000000;
  resource_type = codes "fetch";
  error_text = codes "net::ERR_ABORTED";
  canceled = some true;
}

abbrev one_abort : List (Round Event)
one_abort = round 1000 (loading_failed aborted) ∷ []

abbrev after_abort : Collect
after_abort = on_loading_failed aborted (start_collect public_url [])

met_abort :
    run_full one_host 0 some_captures public_url 30000 [] false one_abort ≡ running after_abort
unfolding run_full
met_abort = refl

run_full-unsuppressed_example :
    (after_abort.quick_abort_ids ≡ [])
    × (length after_abort.http_network_failures ≡ failures one_abort)
unfolding is_subscribed
run_full-unsuppressed_example =
    run_full-unsuppressed one_host 0 some_captures public_url 30000 [] false one_abort after_abort
      refl (refl, tt) met_abort

abbrev thrown : ExceptionThrown
thrown = record {
  line_number = 3;
  column_number = 14;
  text = codes "Uncaught";
  exception = some (record { class_name = some (codes "TypeError"); description = none });
}

abbrev sent : RequestWillBeSent
sent = record {
  request_id = codes "1";
  url = public_url;
  initiator = record { kind = codes "parser"; url = none; line_number = none };
  timestamp = 5000000;
}

abbrev two_events : List (Round Event)
two_events = round 1000 (exception thrown) ∷ round 1100 (request sent) ∷ last_round 1200 ∷ []

abbrev collected : Collect
collected =
    on_request one_host 0 some_captures sent (on_exception thrown (start_collect public_url []))

met_two : run_full one_host 0 some_captures public_url 30000 [] false two_events ≡ stopped collected
unfolding run_full is_real_resource starts_with codes
met_two = refl

abbrev no_reads : FinalReads Text
no_reads = record { cookies = ok []; screenshot = ok []; js_coverage = ok []; css_coverage = ok [] }

abbrev snapshot : WebPageStat Text
snapshot = full_stat one_host some_captures public_url collected [] none none

made_snapshot : finish one_host some_captures public_url no_reads collected ≡ ok snapshot
unfolding finish read_when read_coverage
made_snapshot = refl

finish-IsSnapshot_example : IsSnapshot collected snapshot
finish-IsSnapshot_example =
    finish-IsSnapshot one_host some_captures public_url 0 30000 [] false two_events no_reads
      collected snapshot met_two made_snapshot

abbrev three_tries : List Try
three_tries = (false, 10) ∷ (false, 30) ∷ (true, 70) ∷ []

wait_for_selector-Ended_example :
    let (sleeps, answer) = wait_for_selector (codes "#app") 1000 0 three_tries in
    Ended 1000 three_tries (length sleeps) answer × All (λ s. s ≤ max_interval) sleeps
wait_for_selector-Ended_example = wait_for_selector-Ended (codes "#app") 1000 0 three_tries

-- A browser that answers everything, over the two events.
abbrev small_site : Site ℕ Text
small_site = record {
  create_context = ok (codes "ctx");
  new_page = ok tt;
  apply = λ s. ok tt;
  enable = ok tt;
  goto = λ url. ok tt;
  started = 0;
  now_secs = 0;
  rounds = two_events;
  lean_rounds = idle ∷ last_round 1500 ∷ [];
  final_reads = no_reads;
  tries = λ stage what. (0, three_tries);
  evaluate = λ script. ok tt;
  content = ok (codes "<html></html>");
  read_text = λ part. ok (some (codes "text"));
  read_doc = λ part. ok none;
  read_mutations = ok none;
  read_hints = ok (record { preconnect = []; dns_prefetch = [] });
  parse = one_host;
  convert = λ source. ok source;
  har = λ stat url. url;
  enrich = λ images resources. (images, images);
}

abbrev small_request : SummaryRequest ℕ
small_request = build_request 100 (plain_query public_url) false

capture-Disposes_example :
    count is_dispose (capture small_site 1 (λ r. false) (codes "agent") small_request).0
    ≡ to_ℕ (is_done (capture small_site 1 (λ r. false) (codes "agent") small_request).1)
capture-Disposes_example = capture-Disposes small_site 1 (λ r. false) (codes "agent") small_request

capture-intercepts_example :
    (any is_goto (capture small_site 1 (λ r. false) (codes "agent") small_request).0 ≡ false)
    ⊎ ((types : List ResourceType) × (patterns
            (blocked_types small_request.block_resource_types)
            true
          ≡ some types)
        × TookInterception small_site
            (capture small_site 1 (λ r. false) (codes "agent") small_request).0
            types)
unfolding build_request
capture-intercepts_example =
    capture-intercepts small_site 1 (λ r. false) (codes "agent") small_request refl
