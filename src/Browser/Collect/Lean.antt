-- ===== src/Browser/Collect/Lean.antt =====
-- The handlers of `collect_summary_lean` of src/browser/mod.rs, which are on the shared part of the state, and the
-- choice of the moment to stop, which both loops share.
use browser_headless.Base.{
  ℕ, ◌+◌, ◌-◌, ◌/◌, ◌%◌, Bool, true, false, not, ◌&&◌, ◌||◌, Option, none, some, List, [], ◌∷◌, min,
  max, Text, codes, text_eq, contains, show_ℕ, leb, ltb, if◌then◌else◌, is_empty, set, suc, Result,
  ok, err, unwrap_or,
}
use browser_headless.Config.{u32_bound}
use browser_headless.Error.{BrowserError, upstream_failure}
use browser_headless.Browser.Collect.State.{ResponseReceived, DocumentTiming, Progress, is_document}
use browser_headless.Browser.Collect.Facts.{is_real_resource, build_document_timing}

-- `slot.get_or_insert(t)`.
unfoldable pub get_or_insert : Option ℕ → ℕ → Option ℕ
get_or_insert none t = some t
get_or_insert (some u) t = some u

-- The lifecycle arm, which the full loop has too: `at` is the handler's clock.
unfoldable pub on_lifecycle : ℕ → ℕ → Text → Progress → Progress
unfolding get_or_insert
on_lifecycle at ts name p =
    if text_eq name (codes "init")
    then record p { init_ts = get_or_insert p.init_ts ts }
    else if text_eq name (codes "firstContentfulPaint")
    then record p { fcp_ts = get_or_insert p.fcp_ts ts }
    else if text_eq name (codes "DOMContentLoaded")
    then record p { dcl_ts = get_or_insert p.dcl_ts ts }
    else if text_eq name (codes "load")
    then record p { load_ts = get_or_insert p.load_ts ts; load_at = get_or_insert p.load_at at }
    else if text_eq name (codes "networkIdle")
    then record p { idle_at = get_or_insert p.idle_at at }
    else p

-- `patterns.iter().position(|p| url.contains(p))`.
unfoldable pub position : Text → List Text → Option ℕ
position url [] = none
position url (p ∷ ps) =
    if contains p url
    then some 0
    else elim (position url ps) [ none ↦ none | some i ↦ some (suc i) ]

unfoldable pub last? {ℓ} : {A : Type ℓ} → List A → Option A
last? [] = none
last? (x ∷ []) = some x
last? (x ∷ y ∷ ys) = last? (y ∷ ys)

unfoldable pub drop_last {ℓ} : {A : Type ℓ} → List A → List A
drop_last [] = []
drop_last (x ∷ []) = []
drop_last (x ∷ y ∷ ys) = x ∷ drop_last (y ∷ ys)

-- `patterns.swap_remove(i)`: the last element takes the place of the removed one.
unfoldable pub swap_remove {ℓ} : {A : Type ℓ} → List A → ℕ → List A
unfolding last? drop_last
swap_remove xs i = elim (last? xs) [ none ↦ xs | some z ↦ drop_last (set xs i z) ]

-- A response that matches a pending pattern takes the pattern off, or ends the capture.
unfoldable pub match_pattern : ℕ → Text → List Text → Result (List Text) BrowserError
unfolding position swap_remove
match_pattern status url pending = elim (position url pending) [
  | none ↦ ok pending
  | some i ↦
      if leb 200 status && ltb status 400
      then ok (swap_remove pending i)
      else err (upstream_failure (show_ℕ status) url)
]

unfoldable pub is_cached : ResponseReceived → Bool
is_cached ev =
    unwrap_or ev.from_disk_cache false
    || unwrap_or ev.from_service_worker false
    || unwrap_or ev.from_prefetch_cache false

-- A document's timing: from CDP, or all zero for a cached one that has none.
unfoldable pub timing_of : ResponseReceived → Option DocumentTiming
unfolding is_cached build_document_timing
timing_of ev = elim ev.timing [
  | some t ↦ some (
      build_document_timing ev.url (ev.status % u32_bound) (is_cached ev) (unwrap_or ev.protocol [])
        t)
  | none ↦
      if is_cached ev
      then some (record {
        url = ev.url;
        status = ev.status % u32_bound;
        from_cache = is_cached ev;
        protocol = unwrap_or ev.protocol [];
        dns_ms = 0;
        tcp_ms = 0;
        tls_ms = 0;
        ttfb_ms = 0;
      })
      else none
]

unfoldable pub on_document : ResponseReceived → Option DocumentTiming → Option DocumentTiming
unfolding is_document timing_of
on_document ev current =
    if is_document ev.resource_type && ltb (ev.status % u32_bound) 400
    then elim (timing_of ev) [ none ↦ current | some t ↦ some t ]
    else current

-- The response arm of the lean loop.
unfoldable pub lean_response : ResponseReceived → Progress → Result Progress BrowserError
unfolding on_document
lean_response ev p =
    if not (is_real_resource ev.url)
    then ok p
    else elim (match_pattern ev.status ev.url p.pending_patterns) [
      | err e ↦ err e
      | ok pending ↦ ok (record p {
        document_timing = on_document ev p.document_timing;
        pending_patterns = pending;
      })
    ]

abbrev pub post_idle_grace : ℕ
post_idle_grace = 500

abbrev pub quiet_grace : ℕ
quiet_grace = 100

unfoldable pub collect_stop_at : ℕ → Option ℕ → Bool → ℕ → ℕ
collect_stop_at deadline none patterns_pending last_event_at = deadline
collect_stop_at deadline (some t) true last_event_at = deadline
collect_stop_at deadline (some t) false last_event_at =
    min (min deadline (t + post_idle_grace)) (max last_event_at t + quiet_grace)

unfoldable pub gate_at : Bool → Progress → Option ℕ
gate_at wait_until_load p = if wait_until_load then p.load_at else p.idle_at

-- Where the loop stops from here, as its head computes it.
unfoldable pub stop_at : ℕ → Bool → ℕ → Progress → ℕ
unfolding collect_stop_at gate_at
stop_at deadline wait_until_load last_event_at p =
    collect_stop_at deadline (gate_at wait_until_load p) (not (is_empty p.pending_patterns))
      last_event_at

-- The lean loop's `to_ms`; the cast cuts to a u32.
unfoldable pub lean_to_ms : Option ℕ → Option ℕ → ℕ
lean_to_ms none t = 0
lean_to_ms (some i) none = 0
lean_to_ms (some i) (some t) = if leb i t then min ((t - i) / 1000) (u32_bound - 1) else 0

-- The full loop's, which takes the maximum with 0 instead.
unfoldable pub to_ms : Option ℕ → Option ℕ → ℕ
to_ms none t = 0
to_ms (some i) none = 0
to_ms (some i) (some t) = min ((t - i) / 1000) (u32_bound - 1)
