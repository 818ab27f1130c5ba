-- ===== src/Browser/Coverage/Split.antt =====
-- The coverage report of src/browser/mod.rs: used and unused bytes make up the totals.
use browser_headless.Base.{
  ℕ, ◌+◌, ◌≤◌, ◌≡◌, arith, not, ◌||◌, Option, none, some, List, [], ◌∷◌, ◌++◌, Text, codes, ◌==◌,
  is_empty, length, min, All, All-append, All-take, length-take, Bool-cases, inl, inr,
}
use browser_headless.Base.Dicts.{Dict, lookup}
use browser_headless.Base.Sorting.{sort_by, All-sort_by}
use browser_headless.Browser.Collect.Facts.{is_real_resource}
use browser_headless.Browser.Coverage.{ScriptCoverage, compute_js_coverage}
use browser_headless.Browser.Coverage.Bounds.{compute_js_coverage-bounded}
use browser_headless.Browser.Coverage.Report.{
  CssRuleUsage, CoverageEntry, sum_used, compute_css_coverage, Covered, nothing_covered, cover,
  cover_script, cover_scripts, group_by_sheet, cover_sheet, cover_sheets, more_unused,
  coverage_report,
}

-- An entry has bytes, and they are its used and its unused ones.
abbrev pub IsSplit : CoverageEntry → Type 0
IsSplit e = (1 ≤ e.total_bytes) × (e.used_bytes + e.unused_bytes ≡ e.total_bytes)

abbrev IsSound : Covered → Type 0
IsSound c = (c.used ≤ c.total) × All IsSplit c.entries

cover-IsSound :
    (url kind : Text) (used total : ℕ) (c : Covered)
    → used ≤ total
    → IsSound c
    → IsSound (cover url kind (used, total) c)
unfolding cover
cover-IsSound url kind used total c h (le, all) = elim (Bool-cases (total == 0)) [
  | inl empty ↦ rw empty (le, all)
  | inr some_bytes ↦
      rw some_bytes
        (omega arith, All-append IsSplit c.entries _ all ((ground arith, omega arith), tt))
]

cover_script-IsSound : (s : ScriptCoverage) (c : Covered) → IsSound c → IsSound (cover_script s c)
unfolding cover_script
cover_script-IsSound s c h = elim (Bool-cases (is_empty s.url || not (is_real_resource s.url))) [
  | inl skipped ↦ rw skipped h
  | inr counted ↦ rw counted (
      cover-IsSound s.url (codes "js") (compute_js_coverage s).0 (compute_js_coverage s).1 c
        (compute_js_coverage-bounded s).0 h)
]

cover_scripts-IsSound :
    (scripts : List ScriptCoverage) (c : Covered) → IsSound c → IsSound (cover_scripts scripts c)
unfolding cover_scripts
cover_scripts-IsSound [] c h = h
cover_scripts-IsSound (s ∷ scripts) c h =
    cover_scripts-IsSound scripts (cover_script s c) (cover_script-IsSound s c h)

cover_sheet-IsSound :
    (rules : List CssRuleUsage) (known : Option (Text × ℕ)) (c : Covered)
    → IsSound c
    → IsSound (cover_sheet rules known c)
unfolding cover_sheet compute_css_coverage
cover_sheet-IsSound rules none c h = h
cover_sheet-IsSound rules (some (url, total)) c h =
    cover-IsSound url (codes "css") (min (sum_used rules) total) total c (omega arith) h

cover_sheets-IsSound :
    (stylesheet_meta : Dict (Text × ℕ)) (groups : List (Text × List CssRuleUsage)) (c : Covered)
    → IsSound c
    → IsSound (cover_sheets stylesheet_meta groups c)
unfolding cover_sheets
cover_sheets-IsSound stylesheet_meta [] c h = h
cover_sheets-IsSound stylesheet_meta ((id, rules) ∷ groups) c h =
    cover_sheets-IsSound stylesheet_meta groups _
      (cover_sheet-IsSound rules (lookup id stylesheet_meta) c h)

-- However the ranges of the scripts nest and the rules overlap, the used bytes of the report are at most the total
-- ones and the rest is unused, of the scripts, of the style sheets and of each file; and at most ten files
-- are listed, each with bytes.
pub coverage_report-Split :
    (scripts : List ScriptCoverage) (rules : List CssRuleUsage) (stylesheet_meta : Dict (Text × ℕ))
    → let report = coverage_report scripts rules stylesheet_meta in
      (report.js_used_bytes + report.js_unused_bytes ≡ report.js_total_bytes)
      × (report.css_used_bytes + report.css_unused_bytes ≡ report.css_total_bytes)
      × All IsSplit report.top_unused
      × (length report.top_unused ≤ 10)
unfolding coverage_report
coverage_report-Split scripts rules stylesheet_meta =
    let js = cover_scripts-IsSound scripts nothing_covered (omega arith, tt) in
    let css =
      cover_sheets-IsSound stylesheet_meta (group_by_sheet rules []) nothing_covered
        (omega arith, tt) in
    let js_entries = (cover_scripts scripts nothing_covered).entries in
    let css_entries =
      (cover_sheets stylesheet_meta (group_by_sheet rules []) nothing_covered).entries in
    (
      omega (arith, js.0),
      omega (arith, css.0),
      All-take IsSplit 10 _ (All-sort_by more_unused IsSplit _ (All-append IsSplit _ _ js.1 css.1)),
      omega (arith, length-take 10 (sort_by more_unused (js_entries ++ css_entries))),
    )
