-- ===== src/Browser/Collect/Handlers.antt =====
-- The arms of the `select!` of `collect_summary` of src/browser/mod.rs.
use browser_headless.Base.{
  ℕ, ◌+◌, ◌-◌, ◌%◌, Bool, true, false, not, ◌&&◌, show_ℕ, text_eq, Option, none, some, List, [],
  ◌∷◌, ◌++◌, Text, codes, leb, ltb, if◌then◌else◌, is_empty, is_some, Result, ok, err, unwrap_or,
}
use browser_headless.Base.Dicts.{Dict, lookup, insert, modify}
use browser_headless.Config.{u32_bound}
use browser_headless.Error.{BrowserError, upstream_failure}
use browser_headless.Browser.Resource.{ParsedUrl, WebPageResource, new_resource}
use browser_headless.Browser.Security.Audit.{extract_security_headers}
use browser_headless.Browser.Collect.State.{
  CollectCaptures, SecurityDetails, ResponseReceived, ExceptionThrown, RequestWillBeSent,
  LoadingFailed, Event, lifecycle, response, loading_finished, exception, console, request,
  loading_failed, style_sheet, DocumentTiming, Progress, Collect, is_document,
}
use browser_headless.Browser.Collect.Facts.{
  is_real_resource, build_document_timing, extract_resource_headers, extract_tls_info,
  format_exception, classify_exception, exception_sample_message, format_console,
}
use browser_headless.Browser.Collect.Lean.{
  get_or_insert, position, swap_remove, is_cached, collect_stop_at,
}

-- The lifecycle arm of the full loop.
unfoldable pub full_lifecycle : ℕ → ℕ → Text → Progress → Progress
unfolding get_or_insert
full_lifecycle at ts name p =
    if text_eq name (codes "init")
    then record p { init_ts = get_or_insert p.init_ts ts }
    else if text_eq name (codes "firstContentfulPaint")
    then record p { fcp_ts = get_or_insert p.fcp_ts ts }
    else if text_eq name (codes "DOMContentLoaded")
    then record p { dcl_ts = get_or_insert p.dcl_ts ts }
    else if text_eq name (codes "load")
    then record p { load_ts = get_or_insert p.load_ts ts; load_at = get_or_insert p.load_at at }
    else if text_eq name (codes "networkIdle")
    then record p { idle_at = get_or_insert p.idle_at at }
    else p

-- The full loop's test of a response against the pending patterns.
unfoldable pub full_pattern : ℕ → Text → List Text → Result (List Text) BrowserError
unfolding position swap_remove
full_pattern status url pending = elim (position url pending) [
  | none ↦ ok pending
  | some i ↦
      if not (leb 200 status && ltb status 400)
      then err (upstream_failure (show_ℕ status) url)
      else ok (swap_remove pending i)
]

-- The full loop's document timing, from the resource's entry as it was just filled.
unfoldable pub full_document :
    ResponseReceived → WebPageResource → Option DocumentTiming → Option DocumentTiming
unfolding is_document build_document_timing
full_document ev entry current =
    let s = ev.status % u32_bound in
    if is_document ev.resource_type && ltb s 400
    then elim ev.timing [
      | some t ↦ some (build_document_timing entry.url s entry.from_cache entry.protocol t)
      | none ↦
          if entry.from_cache
          then some (record {
            url = entry.url;
            status = s;
            from_cache = true;
            protocol = entry.protocol;
            dns_ms = 0;
            tcp_ms = 0;
            tls_ms = 0;
            ttfb_ms = 0;
          })
          else current
    ]
    else current

-- Where the full loop stops from here, as its head computes it.
unfoldable pub full_stop_at : ℕ → Bool → ℕ → Collect → ℕ
unfolding collect_stop_at
full_stop_at deadline wait_until_load last_event_at c =
    let gate = if wait_until_load then c.progress.load_at else c.progress.idle_at in
    collect_stop_at deadline gate (not (is_empty c.progress.pending_patterns)) last_event_at

-- `resources.entry(id).or_insert_with(..)`.
unfoldable pub entry_of : Text → Dict WebPageResource → WebPageResource
entry_of id resources = unwrap_or (lookup id resources) (new_resource id)

-- `entry.or_insert(v)`.
unfoldable pub insert_new {ℓ} : {V : Type ℓ} → Text → V → Dict V → Dict V
insert_new k v m = if is_some (lookup k m) then m else insert k v m

-- `port.and_then(|p| u16::try_from(p).ok())`.
unfoldable pub to_port : Option ℕ → Option ℕ
to_port none = none
to_port (some p) = if ltb p 65536 then some p else none

unfoldable pub note_final_url : ResponseReceived → Collect → Collect
note_final_url ev c =
    let s = ev.status % u32_bound in
    if leb 300 s && ltb s 400
    then record c { http_redirect_count = c.http_redirect_count + 1 }
    else if ltb s 400
    then record c { http_final_url = ev.url }
    else c

-- The block under `if captures.http_errors`.
unfoldable pub note_http : CollectCaptures → ResponseReceived → Collect → Collect
unfolding note_final_url is_document
note_http captures ev c =
    if not captures.http_errors
    then c
    else (let c' = record c {
      http_resource_types = insert ev.request_id ev.resource_type c.http_resource_types;
    } in
        if is_document ev.resource_type then note_final_url ev c' else c')

unfoldable pub note_security_headers : ResponseReceived → Collect → Collect
unfolding is_document
note_security_headers ev c =
    if is_document ev.resource_type
    then elim (extract_security_headers ev.headers) [
      | none ↦ c
      | some headers ↦ record c { security_headers = some headers }
    ]
    else c

unfoldable pub on_loading_finished : Text → ℕ → Collect → Collect
on_loading_finished id encoded_data_length c = record c {
  resources = modify id (λ r. record r { content_size = encoded_data_length }) c.resources;
}

unfoldable pub on_exception : ExceptionThrown → Collect → Collect
on_exception ev c =
    let (count, sample) =
      unwrap_or (lookup (classify_exception ev) c.exception_buckets) (0, none) in
    record c {
      exceptions = c.exceptions ++ (format_exception ev ∷ []);
      exception_buckets =
          insert (classify_exception ev)
            (count + 1, elim sample [ none ↦ exception_sample_message ev | some m ↦ some m ])
            c.exception_buckets;
    }

-- 0.1 s. A difference below 0 is below the threshold too.
abbrev pub quick_abort_threshold : ℕ
quick_abort_threshold = 100000

unfoldable pub is_quick_abort : LoadingFailed → Collect → Bool
is_quick_abort ev c =
    unwrap_or ev.canceled false && (elim (lookup ev.request_id c.request_sent_at) [
      | none ↦ false
      | some sent ↦ ltb (ev.timestamp - sent) quick_abort_threshold
    ])

unfoldable pub failed_url : LoadingFailed → Collect → Text
failed_url ev c = elim (lookup ev.request_id c.resources) [ none ↦ [] | some r ↦ r.url ]

unfoldable pub record_failure : LoadingFailed → Collect → Collect
unfolding failed_url
record_failure ev c = record c {
  failed_loading = insert ev.request_id ev.error_text c.failed_loading;
  http_network_failures =
      c.http_network_failures
      ++ (record {
        url = failed_url ev c;
        error_text = ev.error_text;
        resource_type = ev.resource_type;
        canceled = unwrap_or ev.canceled false;
      }
          ∷ []);
}

unfoldable pub on_loading_failed : LoadingFailed → Collect → Collect
unfolding record_failure
on_loading_failed ev c =
    if not (is_empty (failed_url ev c)) && not (is_real_resource (failed_url ev c))
    then c
    else if is_quick_abort ev c
    then record c { quick_abort_ids = ev.request_id ∷ c.quick_abort_ids }
    else record_failure ev c

unfoldable pub on_style_sheet : Text → Text → ℕ → Collect → Collect
on_style_sheet id source_url length c =
    let url = if is_empty source_url then codes "inline:" ++ id else source_url in
    record c { stylesheet_meta = insert id (url, length) c.stylesheet_meta }

-- Whether the loop listens to an event: the other streams are `stream::pending()`.
unfoldable pub is_subscribed : CollectCaptures → Event → Bool
is_subscribed captures (console level args) = captures.console
is_subscribed captures (request ev) = captures.initiators
is_subscribed captures (loading_failed ev) = captures.http_errors
is_subscribed captures (style_sheet id url length) = captures.coverage
is_subscribed captures _ = true

-- Parameters: the URL parser, and the clock's seconds.
module _ (parse : Text → Option ParsedUrl) (now_secs : ℕ) (captures : CollectCaptures) where
  unfoldable pub filled : ResponseReceived → WebPageResource → WebPageResource
  unfolding is_cached
  filled ev entry =
      let facts =
        extract_resource_headers ev.headers captures.resource_headers captures.cors_headers in
      record entry {
        parsed_url = parse ev.url;
        url = ev.url;
        status = ev.status % u32_bound;
        mime_type = ev.mime_type;
        connection_reused = ev.connection_reused;
        timing = ev.timing;
        from_cache = is_cached ev;
        protocol = unwrap_or ev.protocol [];
        content_encoding = facts.content_encoding;
        cache_control = facts.cache_control;
        has_source_map = facts.has_source_map;
        cors_allow_origin = facts.cors_allow_origin;
        cors_allow_credentials = facts.cors_allow_credentials;
      }

  -- A certificate that was seen on a host.
  unfoldable pub add_tls : ResponseReceived → SecurityDetails → Text → Collect → Collect
  unfolding insert_new is_document to_port
  add_tls ev sd host c =
      let info = extract_tls_info now_secs sd host ev.remote_ip_address (to_port ev.remote_port) in
      record c {
        tls_info = if is_document ev.resource_type then some info else c.tls_info;
        tls_by_host = insert_new host info c.tls_by_host;
      }

  unfoldable pub note_tls : ResponseReceived → Collect → Collect
  unfolding add_tls
  note_tls ev c = elim ev.security_details [
    | none ↦ c
    | some sd ↦ elim (parse ev.url) [
      | none ↦ c
      | some url ↦ elim url.host_str [ none ↦ c | some host ↦ add_tls ev sd host c ]
    ]
  ]

  -- The response's resource and, if it is a document's, its timing.
  unfoldable pub received : ResponseReceived → List Text → Collect → Collect
  unfolding entry_of filled full_document
  received ev pending c =
      let entry = filled ev (entry_of ev.request_id c.resources) in
      record c {
        progress = record c.progress {
          document_timing = full_document ev entry c.progress.document_timing;
          pending_patterns = pending;
        };
        resources = insert ev.request_id entry c.resources;
      }

  unfoldable pub on_response : ResponseReceived → Collect → Result Collect BrowserError
  unfolding full_pattern received note_http note_security_headers note_tls
  on_response ev c =
      if not (is_real_resource ev.url)
      then ok c
      else elim (full_pattern ev.status ev.url c.progress.pending_patterns) [
        | err e ↦ err e
        | ok pending ↦
            ok (
              note_tls ev
                (note_security_headers ev (note_http captures ev (received ev pending c))))
      ]

  -- An entry that has no URL yet takes the request's.
  unfoldable pub named : RequestWillBeSent → WebPageResource → WebPageResource
  named ev entry =
      if is_empty entry.url then record entry { url = ev.url; parsed_url = parse ev.url } else entry

  unfoldable pub on_request : RequestWillBeSent → Collect → Collect
  unfolding entry_of named
  on_request ev c = if not (is_real_resource ev.url) then c else record c {
    resources =
        insert ev.request_id
          (record (named ev (entry_of ev.request_id c.resources)) { initiator = some ev.initiator })
          c.resources;
    request_sent_at = insert ev.request_id ev.timestamp c.request_sent_at;
  }

  -- One arm of the `select!`, at the handler's clock `at`.
  unfoldable pub handle : ℕ → Event → Collect → Result Collect BrowserError
  unfolding full_lifecycle on_response on_loading_finished on_exception on_request on_loading_failed
      on_style_sheet
  handle at (lifecycle ts name) c =
      ok (record c { progress = full_lifecycle at ts name c.progress })
  handle at (response ev) c = on_response ev c
  handle at (loading_finished id size) c = ok (on_loading_finished id size c)
  handle at (exception ev) c = ok (on_exception ev c)
  handle at (console level args) c =
      ok (record c { console_messages = c.console_messages ++ (format_console level args ∷ []) })
  handle at (request ev) c = ok (on_request ev c)
  handle at (loading_failed ev) c = ok (on_loading_failed ev c)
  handle at (style_sheet id url length) c = ok (on_style_sheet id url length c)
