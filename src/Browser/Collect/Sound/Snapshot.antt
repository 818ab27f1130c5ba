-- ===== src/Browser/Collect/Sound/Snapshot.antt =====
-- The snapshot that `collect_summary` of src/browser/mod.rs makes of what its loop collected.
use browser_headless.Base.{
  ℕ, zero, suc, ◌+◌, ◌≤◌, ◌<◌, ◌≡◌, ◌⊎◌, leb, leb→le, refl, ap, ◌∙◌, subst, inl, inr, arith, Bool,
  true, false, Option, List, [], ◌∷◌, map, Text, is_empty, length, length-map, take, take-all, All,
  sum, ok, ok-injective, >>=-eq-ok, Bool-cases, unwrap_or,
}
use browser_headless.Base.Dicts.{Dict, retain, AllValues}
use browser_headless.Base.Sorting.{sort_by, sum-sort_by, length-sort_by}
use browser_headless.Browser.Resource.{ParsedUrl, WebPageResource, Cookie}
use browser_headless.Browser.Coverage.Report.{CoverageReport}
use browser_headless.Browser.Collect.State.{CollectCaptures, Event, Collect, start_collect}
use browser_headless.Browser.Collect.Handlers.{handle}
use browser_headless.Browser.Collect.Loop.{Round, stopped, run_full}
use browser_headless.Browser.Collect.Finish.{
  JsExceptionCount, class_entry, WebPageStat, is_kept, values, kept_resources, exception_before,
  build_js_exceptions, FinalReads, read_when, read_coverage, full_stat, finish,
}
use browser_headless.Browser.Collect.Loop.Rounds.{Ends, collect_loop-Ends}
use browser_headless.Browser.Collect.Sound.{
  sum_counts, IsReal, IsSound, start_collect-IsSound, handle-IsSound,
}

-- A resource with a URL of the network.
abbrev pub IsFetched : WebPageResource → Type 0
IsFetched r = (is_empty r.url ≡ false) × IsReal r

is_kept-url :
    (ids : List Text) (r : WebPageResource) → is_kept ids r ≡ true → is_empty r.url ≡ false
unfolding is_kept
is_kept-url ids r h = ground arith

kept-IsFetched :
    (ids : List Text) (m : Dict WebPageResource)
    → AllValues IsReal m
    → All IsFetched (values (retain (is_kept ids) m))
unfolding retain is_kept
kept-IsFetched ids [] h = tt
kept-IsFetched ids ((k, r) ∷ m) h = elim (Bool-cases (is_kept ids r)) [
  | inl kept ↦ rw kept ((is_kept-url ids r kept, h.0), kept-IsFetched ids m h.1)
  | inr gone ↦ rw gone (kept-IsFetched ids m h.1)
]

-- The exceptions that the listed classes count.
abbrev pub counted_in : List JsExceptionCount → ℕ
counted_in entries = sum (map (λ e. e.count) entries)

counted_in-classes : (d : Dict (ℕ × Option Text)) → counted_in (map class_entry d) ≡ sum_counts d
counted_in-classes [] = refl
counted_in-classes ((k, (n, m)) ∷ d) = ap (λ (s : ℕ). n + s) (counted_in-classes d)

sum-take-le : (n : ℕ) (xs : List JsExceptionCount) → counted_in (take n xs) ≤ counted_in xs
sum-take-le zero xs = omega arith
sum-take-le (suc n) [] = omega arith
sum-take-le (suc n) (x ∷ xs) = omega (arith, sum-take-le n xs)

few_or_many : (n : ℕ) → (10 < n) ⊎ (n ≤ 10)
few_or_many n = elim (Bool-cases (leb n 10)) [
  | inl few ↦ inr (leb→le n 10 few)
  | inr many ↦ inl (ground arith)
]

build_js_exceptions-counts :
    (c : Collect)
    → IsSound c
    → (counted_in (build_js_exceptions c).by_name ≤ length c.exceptions)
      × ((10 < length c.exception_buckets)
          ⊎ (counted_in (build_js_exceptions c).by_name ≡ length c.exceptions))
unfolding build_js_exceptions
build_js_exceptions-counts c h =
    let classes = map class_entry c.exception_buckets in
    let all =
      sum-sort_by exception_before (λ e. e.count) classes
      ∙ counted_in-classes c.exception_buckets
      ∙ h.counted in
    let sorted = sort_by exception_before classes in
    let size =
      length-sort_by exception_before classes ∙ length-map c.exception_buckets class_entry in
    (
      omega (arith, all, sum-take-le 10 sorted),
      elim (few_or_many (length c.exception_buckets)) [
        | inl many ↦ inl many
        | inr few ↦ inr (ap counted_in (take-all 10 sorted (omega (arith, size, few))) ∙ all)
      ],
    )

abbrev pub IsSnapshot : {Doc : Type 0} → Collect → WebPageStat Doc → Type 0
IsSnapshot c stat =
    All IsFetched stat.resources
    × (stat.js_exceptions.total ≡ length stat.exceptions)
    × (counted_in stat.js_exceptions.by_name ≤ length stat.exceptions)
    × ((10 < length c.exception_buckets)
        ⊎ (counted_in stat.js_exceptions.by_name ≡ length stat.exceptions))

js_total : (c : Collect) → (build_js_exceptions c).total ≡ length c.exceptions
unfolding build_js_exceptions
js_total c = refl

module _ {Doc : Type 0} (parse : Text → Option ParsedUrl) (captures : CollectCaptures)
    (url : Text) where
  full_stat-resources :
      (c : Collect) (cookies : List Cookie) (screenshot : Option Doc)
      (coverage : Option CoverageReport)
      → IsSound c
      → All IsFetched (full_stat parse captures url c cookies screenshot coverage).resources
  unfolding full_stat kept_resources
  full_stat-resources c cookies screenshot coverage h = elim (Bool-cases captures.free_resources) [
    | inl freed ↦ rw freed tt
    | inr held ↦ rw held (kept-IsFetched c.quick_abort_ids c.resources h.real)
  ]

  -- A snapshot was made by `full_stat`.
  finish-full :
      (reads : FinalReads Doc) (c : Collect) (stat : WebPageStat Doc)
      → finish parse captures url reads c ≡ ok stat
      → (cookies : List Cookie) × (screenshot : Option Doc) × (coverage : Option CoverageReport)
        × (full_stat parse captures url c cookies screenshot coverage ≡ stat)
  unfolding finish
  finish-full reads c stat e =
      let (cookies, _, e1) = >>=-eq-ok (read_when captures.cookies reads.cookies) _ e in
      let (screenshot, _, e2) = >>=-eq-ok (read_when captures.screenshot reads.screenshot) _ e1 in
      let (coverage, _, e3) = >>=-eq-ok (read_coverage captures.coverage reads c) _ e2 in
      (unwrap_or cookies [], screenshot, coverage, ok-injective e3)

  full_stat-IsSnapshot :
      (c : Collect) (cookies : List Cookie) (screenshot : Option Doc)
      (coverage : Option CoverageReport)
      → IsSound c
      → IsSnapshot c (full_stat parse captures url c cookies screenshot coverage)
  unfolding full_stat
  full_stat-IsSnapshot c cookies screenshot coverage h =
      let counts = build_js_exceptions-counts c h in
      (full_stat-resources c cookies screenshot coverage h, js_total c, counts.0, counts.1)

  -- A snapshot of a loop that stopped lists only resources with a URL of the network, never a pseudo URL or a
  -- request without one; its exception total is their number, of which the listed classes count no more, and
  -- all of them if there are ten classes at most.
  pub finish-IsSnapshot :
      (now_secs deadline : ℕ) (wait_for_request : List Text) (wait_until_load : Bool)
      (rounds : List (Round Event)) (reads : FinalReads Doc) (c : Collect) (stat : WebPageStat Doc)
      → run_full parse now_secs captures url deadline wait_for_request wait_until_load rounds
        ≡ stopped c
      → finish parse captures url reads c ≡ ok stat
      → IsSnapshot c stat
  unfolding run_full
  finish-IsSnapshot now_secs deadline wait_for_request wait_until_load rounds reads c stat ran
        made =
      let sound = subst (Ends IsSound) ran (
        collect_loop-Ends IsSound (handle parse now_secs captures) _
          (handle-IsSound parse now_secs captures) rounds (start_collect url wait_for_request)
          (start_collect-IsSound url wait_for_request)) in
      let (cookies, screenshot, coverage, e) = finish-full reads c stat made in
      subst (IsSnapshot c) e (full_stat-IsSnapshot c cookies screenshot coverage sound)
