-- ===== src/Browser/Collect/Sound.antt =====
-- What holds of the variables of `collect_summary` of src/browser/mod.rs wherever its loop gets.
pub mod Aborts
pub mod Snapshot
use browser_headless.Base.{
  ℕ, ◌+◌, ◌≤◌, ◌≡◌, refl, sym, ap, ◌∙◌, subst, inl, inr, arith, Bool, true, false, not, Option,
  none, some, List, [], ◌∷◌, ◌++◌, Text, text_eq, leb, if◌then◌else◌, is_empty, starts_with, codes,
  length, length-append, Result, ok, err, ok-injective, err-ne-ok, Bool-cases, Result-cases,
  Option-cases, unwrap_or,
}
use browser_headless.Base.Dicts.{
  Dict, lookup, insert, modify, AllValues, AllValues-lookup, AllValues-insert, AllValues-modify,
}
use browser_headless.Error.{BrowserError}
use browser_headless.Browser.Resource.{ParsedUrl, WebPageResource, new_resource}
use browser_headless.Browser.Collect.State.{
  CollectCaptures, ResponseReceived, ExceptionThrown, RequestWillBeSent, LoadingFailed, Event,
  lifecycle, response, loading_finished, exception, console, request, loading_failed, style_sheet,
  Progress, Collect, start_collect,
}
use browser_headless.Browser.Collect.Facts.{is_real_resource, classify_exception, format_exception}
use browser_headless.Browser.Collect.Handlers.{
  full_pattern, entry_of, filled, note_final_url, note_http, note_security_headers, add_tls,
  note_tls, received, named, on_response, on_loading_finished, on_exception, on_request,
  on_loading_failed, on_style_sheet, handle,
}

-- The exceptions counted in the classes.
abbrev pub sum_counts : Dict (ℕ × Option Text) → ℕ
sum_counts [] = 0
sum_counts ((k, (n, m)) ∷ d) = n + sum_counts d

abbrev pub count_in : Text → Dict (ℕ × Option Text) → ℕ
count_in k d = (unwrap_or (lookup k d) (0, none)).0

sum_counts-insert :
    (k : Text) (n : ℕ) (m : Option Text) (d : Dict (ℕ × Option Text))
    → sum_counts (insert k (n, m) d) + count_in k d ≡ sum_counts d + n
unfolding insert lookup
sum_counts-insert k n m [] = omega arith
sum_counts-insert k n m ((j, (a, b)) ∷ d) = ground (arith, sum_counts-insert k n m d)

sum_counts-count :
    (k : Text) (m : Option Text) (d : Dict (ℕ × Option Text))
    → sum_counts (insert k (count_in k d + 1, m) d) ≡ sum_counts d + 1
sum_counts-count k m d = omega (arith, sum_counts-insert k (count_in k d + 1) m d)

pub is_real_resource-nil : is_real_resource [] ≡ true
unfolding is_real_resource starts_with codes
is_real_resource-nil = refl

abbrev pub IsReal : WebPageResource → Type 0
IsReal r = is_real_resource r.url ≡ true

-- No resource has a pseudo URL, and each exception is counted in one class.
pub record IsSound (c : Collect) : Type 0 where
  pub real : AllValues IsReal c.resources
  pub counted : sum_counts c.exception_buckets ≡ length c.exceptions

pub start_collect-IsSound :
    (url : Text) (patterns : List Text) → IsSound (start_collect url patterns)
start_collect-IsSound url patterns = record { real = tt; counted = refl }

-- A state with the same resources and exceptions.
abbrev SameReport : Collect → Collect → Type 0
SameReport c d =
    (d.resources ≡ c.resources)
    × (d.exception_buckets ≡ c.exception_buckets)
    × (d.exceptions ≡ c.exceptions)

IsSound-same : (c d : Collect) → SameReport c d → IsSound c → IsSound d
IsSound-same c d (e, f, g) h = record {
  real = subst (AllValues IsReal) (sym e) h.real;
  counted = ap sum_counts f ∙ h.counted ∙ ap length (sym g);
}

note_http-same :
    (captures : CollectCaptures) (ev : ResponseReceived) (c : Collect)
    → SameReport c (note_http captures ev c)
unfolding note_http note_final_url
note_http-same captures ev c = ground arith

note_security_headers-same :
    (ev : ResponseReceived) (c : Collect) → SameReport c (note_security_headers ev c)
unfolding note_security_headers
note_security_headers-same ev c = ground arith

on_loading_failed-same : (ev : LoadingFailed) (c : Collect) → SameReport c (on_loading_failed ev c)
unfolding on_loading_failed
on_loading_failed-same ev c = ground arith

on_exception-IsSound :
    (ev : ExceptionThrown) (c : Collect) → IsSound c → IsSound (on_exception ev c)
unfolding on_exception
on_exception-IsSound ev c h = record {
  real = h.real;
  counted =
      sum_counts-count (classify_exception ev) _ c.exception_buckets
      ∙ ap (λ (n : ℕ). n + 1) h.counted
      ∙ sym (length-append {0} c.exceptions (format_exception ev ∷ []));
}

on_loading_finished-IsSound :
    (id : Text) (size : ℕ) (c : Collect) → IsSound c → IsSound (on_loading_finished id size c)
unfolding on_loading_finished
on_loading_finished-IsSound id size c h = record {
  real = AllValues-modify IsReal id _ c.resources (λ r real. real) h.real;
  counted = h.counted;
}

entry_of-IsReal :
    (id : Text) (resources : Dict WebPageResource)
    → AllValues IsReal resources
    → IsReal (entry_of id resources)
unfolding entry_of
entry_of-IsReal id resources h = elim (Option-cases (lookup id resources)) [
  | inl e ↦ rw e is_real_resource-nil
  | inr (r, e) ↦ rw e (AllValues-lookup IsReal id r resources h e)
]

module _ (parse : Text → Option ParsedUrl) (now_secs : ℕ) (captures : CollectCaptures) where
  note_tls-same :
      (ev : ResponseReceived) (c : Collect) → SameReport c (note_tls parse now_secs captures ev c)
  unfolding note_tls add_tls
  note_tls-same ev c = ground arith

  named-IsReal :
      (ev : RequestWillBeSent) (r : WebPageResource)
      → is_real_resource ev.url ≡ true
      → IsReal r
      → IsReal (named parse now_secs captures ev r)
  unfolding named
  named-IsReal ev r real h = elim (Bool-cases (is_empty r.url)) [
    | inl e ↦ rw e real
    | inr e ↦ rw e h
  ]

  on_request-IsSound :
      (ev : RequestWillBeSent) (c : Collect)
      → IsSound c
      → IsSound (on_request parse now_secs captures ev c)
  unfolding on_request
  on_request-IsSound ev c h = elim (Bool-cases (is_real_resource ev.url)) [
    | inr pseudo ↦ rw pseudo h
    | inl real ↦ rw real (record {
      real =
          AllValues-insert IsReal ev.request_id _ c.resources
            (named-IsReal ev _ real (entry_of-IsReal ev.request_id c.resources h.real)) h.real;
      counted = h.counted;
    })
  ]

  received-IsSound :
      (ev : ResponseReceived) (pending : List Text) (c : Collect)
      → is_real_resource ev.url ≡ true
      → IsSound c
      → IsSound (received parse now_secs captures ev pending c)
  unfolding received filled
  received-IsSound ev pending c real h = record {
    real = AllValues-insert IsReal ev.request_id _ c.resources real h.real;
    counted = h.counted;
  }

  -- The notes on a response leave resources and exceptions as they are.
  noted-IsSound :
      (ev : ResponseReceived) (c : Collect)
      → IsSound c
      → IsSound
          (note_tls parse now_secs captures ev (note_security_headers ev (note_http captures ev c)))
  noted-IsSound ev c h =
      let c1 = note_http captures ev c in
      let c2 = note_security_headers ev c1 in
      IsSound-same c2 (note_tls parse now_secs captures ev c2) (note_tls-same ev c2) (
        IsSound-same c1 c2 (note_security_headers-same ev c1)
          (IsSound-same c c1 (note_http-same captures ev c) h))

  on_response-IsSound :
      (ev : ResponseReceived) (c d : Collect)
      → on_response parse now_secs captures ev c ≡ ok d
      → IsSound c
      → IsSound d
  unfolding on_response
  on_response-IsSound ev c d e h = elim (Bool-cases (is_real_resource ev.url)) [
    | inr pseudo ↦ subst IsSound (ok-injective (rw pseudo at e)) h
    | inl real ↦ elim (Result-cases (full_pattern ev.status ev.url c.progress.pending_patterns)) [
      | inr (x, f) ↦ absurd (err-ne-ok (rw f at (rw real at e)))
      | inl (pending, f) ↦ subst IsSound (ok-injective (rw f at (rw real at e))) (
          noted-IsSound ev (received parse now_secs captures ev pending c)
            (received-IsSound ev pending c real h))
    ]
  ]

  pub handle-IsSound :
      (at : ℕ) (ev : Event) (c d : Collect)
      → handle parse now_secs captures at ev c ≡ ok d
      → IsSound c
      → IsSound d
  unfolding handle
  handle-IsSound at (response ev) c d e h = on_response-IsSound ev c d e h
  handle-IsSound at (lifecycle ts name) c d e h =
      subst IsSound (ok-injective e) (IsSound-same c _ (refl, refl, refl) h)
  handle-IsSound at (loading_finished id size) c d e h =
      subst IsSound (ok-injective e) (on_loading_finished-IsSound id size c h)
  handle-IsSound at (exception ev) c d e h =
      subst IsSound (ok-injective e) (on_exception-IsSound ev c h)
  handle-IsSound at (console level args) c d e h =
      subst IsSound (ok-injective e) (IsSound-same c _ (refl, refl, refl) h)
  handle-IsSound at (request ev) c d e h =
      subst IsSound (ok-injective e) (on_request-IsSound ev c h)
  handle-IsSound at (loading_failed ev) c d e h =
      subst IsSound (ok-injective e) (IsSound-same c _ (on_loading_failed-same ev c) h)
  handle-IsSound at (style_sheet id url length) c d e h =
      subst IsSound (ok-injective e) (IsSound-same c _ (refl, refl, refl) h)
