-- ===== src/Browser/Coverage/Report.antt =====
-- The coverage report at the end of `collect_summary` of src/browser/mod.rs, and `compute_css_coverage`.
use browser_headless.Base.{
  ℕ, ◌+◌, ◌-◌, Bool, not, ◌||◌, Option, none, some, List, [], ◌∷◌, ◌++◌, Text, codes, text_eq, leb,
  ◌==◌, if◌then◌else◌, is_empty, take, min,
}
use browser_headless.Base.Dicts.{Dict, lookup}
use browser_headless.Base.Sorting.{sort_by}
use browser_headless.Browser.Summary.Report.{Ratio, ratio}
use browser_headless.Browser.Summary.Duplicates.{push_group}
use browser_headless.Browser.Collect.Facts.{is_real_resource}
use browser_headless.Browser.Coverage.{ScriptCoverage, compute_js_coverage}

-- Offsets are not negative.
pub record CssRuleUsage : Type 0 where
  pub style_sheet_id : Text
  pub start_offset : ℕ
  pub end_offset : ℕ
  pub used : Bool

pub record CoverageEntry : Type 0 where
  pub url : Text
  pub kind : Text
  pub total_bytes : ℕ
  pub used_bytes : ℕ
  pub unused_bytes : ℕ
  pub unused_ratio : Ratio

pub record CoverageReport : Type 0 where
  pub js_total_bytes : ℕ
  pub js_used_bytes : ℕ
  pub js_unused_bytes : ℕ
  pub js_unused_ratio : Ratio
  pub css_total_bytes : ℕ
  pub css_used_bytes : ℕ
  pub css_unused_bytes : ℕ
  pub css_unused_ratio : Ratio
  pub top_unused : List CoverageEntry

unfoldable pub sum_used : List CssRuleUsage → ℕ
sum_used [] = 0
sum_used (r ∷ rules) =
    let rest = sum_used rules in if r.used then (r.end_offset - r.start_offset) + rest else rest

unfoldable pub compute_css_coverage : List CssRuleUsage → ℕ → ℕ × ℕ
unfolding sum_used
compute_css_coverage rules total_bytes = (min (sum_used rules) total_bytes, total_bytes)

unfoldable pub coverage_entry : Text → Text → ℕ × ℕ → CoverageEntry
coverage_entry url kind (used, total) = record {
  url = url;
  kind = kind;
  total_bytes = total;
  used_bytes = used;
  unused_bytes = total - used;
  unused_ratio = ratio (total - used) total;
}

-- What a loop has so far: the total and the used bytes, and the entries.
pub record Covered : Type 0 where
  pub total : ℕ
  pub used : ℕ
  pub entries : List CoverageEntry

abbrev pub nothing_covered : Covered
nothing_covered = record { total = 0; used = 0; entries = [] }

-- One file, if it has bytes.
unfoldable pub cover : Text → Text → ℕ × ℕ → Covered → Covered
unfolding coverage_entry
cover url kind (used, total) c = if total == 0 then c else record {
  total = c.total + total;
  used = c.used + used;
  entries = c.entries ++ (coverage_entry url kind (used, total) ∷ []);
}

-- Scripts without a URL of their own are skipped.
unfoldable pub cover_script : ScriptCoverage → Covered → Covered
unfolding cover
cover_script s c =
    if is_empty s.url || not (is_real_resource s.url)
    then c
    else cover s.url (codes "js") (compute_js_coverage s) c

unfoldable pub cover_scripts : List ScriptCoverage → Covered → Covered
unfolding cover_script
cover_scripts [] c = c
cover_scripts (s ∷ scripts) c = cover_scripts scripts (cover_script s c)

unfoldable pub group_by_sheet :
    List CssRuleUsage → List (Text × List CssRuleUsage) → List (Text × List CssRuleUsage)
unfolding push_group
group_by_sheet [] groups = groups
group_by_sheet (r ∷ rules) groups =
    group_by_sheet rules (push_group text_eq r.style_sheet_id r groups)

unfoldable pub cover_sheet : List CssRuleUsage → Option (Text × ℕ) → Covered → Covered
unfolding cover
cover_sheet rules none c = c
cover_sheet rules (some (url, total)) c =
    cover url (codes "css") (compute_css_coverage rules total) c

unfoldable pub cover_sheets : Dict (Text × ℕ) → List (Text × List CssRuleUsage) → Covered → Covered
unfolding cover_sheet
cover_sheets stylesheet_meta [] c = c
cover_sheets stylesheet_meta ((id, rules) ∷ groups) c =
    cover_sheets stylesheet_meta groups (cover_sheet rules (lookup id stylesheet_meta) c)

abbrev pub more_unused : CoverageEntry → CoverageEntry → Bool
more_unused a b = leb b.unused_bytes a.unused_bytes

unfoldable pub coverage_report :
    List ScriptCoverage → List CssRuleUsage → Dict (Text × ℕ) → CoverageReport
unfolding cover_scripts group_by_sheet cover_sheets sort_by
coverage_report scripts rules stylesheet_meta =
    let js = cover_scripts scripts nothing_covered in
    let css = cover_sheets stylesheet_meta (group_by_sheet rules []) nothing_covered in
    record {
      js_total_bytes = js.total;
      js_used_bytes = js.used;
      js_unused_bytes = js.total - js.used;
      js_unused_ratio = ratio (js.total - js.used) js.total;
      css_total_bytes = css.total;
      css_used_bytes = css.used;
      css_unused_bytes = css.total - css.used;
      css_unused_ratio = ratio (css.total - css.used) css.total;
      top_unused = take 10 (sort_by more_unused (js.entries ++ css.entries));
    }
