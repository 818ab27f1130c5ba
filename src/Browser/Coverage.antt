-- ===== src/Browser/Coverage.antt =====
-- `compute_js_coverage` of src/browser/mod.rs. The offsets and counts of CDP are i64; they are taken as not negative.
pub mod Bounds
pub mod Report
pub mod Split
use browser_headless.Base.{
  ℕ, ◌+◌, ◌-◌, Bool, true, false, not, ◌&&◌, List, [], ◌∷◌, ◌++◌, ltb, leb, ◌==◌, if◌then◌else◌,
  is_empty, max, Text,
}

pub record CoverageRange : Type 0 where
  pub start_offset : ℕ
  pub end_offset : ℕ
  pub count : ℕ

pub record FunctionCoverage : Type 0 where
  pub ranges : List CoverageRange

pub record ScriptCoverage : Type 0 where
  pub url : Text
  pub functions : List FunctionCoverage

-- The end of a range (`ty` 1) or its start (`ty` 0).
pub record Point : Type 0 where
  pub offset : ℕ
  pub is_close : Bool
  pub range_length : ℕ
  pub count : ℕ

unfoldable pub open_point : CoverageRange → Point
open_point r = record {
  offset = r.start_offset;
  is_close = false;
  range_length = r.end_offset - r.start_offset;
  count = r.count;
}

unfoldable pub close_point : CoverageRange → Point
close_point r = record {
  offset = r.end_offset;
  is_close = true;
  range_length = r.end_offset - r.start_offset;
  count = r.count;
}

-- A range without a positive length is skipped.
unfoldable pub range_points : List CoverageRange → List Point
unfolding open_point close_point
range_points [] = []
range_points (r ∷ ranges) =
    let rest = range_points ranges in
    if leb r.end_offset r.start_offset then rest else open_point r ∷ close_point r ∷ rest

unfoldable pub all_ranges : List FunctionCoverage → List CoverageRange
all_ranges [] = []
all_ranges (f ∷ functions) = f.ranges ++ all_ranges functions

-- The largest end offset.
unfoldable pub total_of : List Point → ℕ
total_of [] = 0
total_of (p ∷ points) = if p.is_close then max p.offset (total_of points) else total_of points

-- At one offset, ends come before starts, of starts the longer first, of ends the shorter.
unfoldable pub tie_before : Bool → Bool → ℕ → ℕ → Bool
tie_before true true a b = leb a b
tie_before true false a b = true
tie_before false true a b = false
tie_before false false a b = leb b a

-- Whether the comparison puts the first point before the second, or takes them as equal.
unfoldable pub is_before : Point → Point → Bool
unfolding tie_before
is_before p q =
    if p.offset == q.offset
    then tie_before p.is_close q.is_close p.range_length q.range_length
    else ltb p.offset q.offset

-- `points.sort_by`, by insertion; it is stable.
unfoldable pub insert_point : Point → List Point → List Point
unfolding is_before
insert_point p [] = p ∷ []
insert_point p (q ∷ points) = if is_before p q then p ∷ q ∷ points else q ∷ insert_point p points

unfoldable pub sort_points : List Point → List Point
unfolding insert_point
sort_points [] = []
sort_points (p ∷ points) = insert_point p (sort_points points)

-- The span up to a point is used where the innermost active range was run.
unfoldable pub gained : Point → List ℕ → ℕ → ℕ
gained p [] last_offset = 0
gained p (top ∷ stack) last_offset =
    if ltb last_offset p.offset && ltb 0 top then p.offset - last_offset else 0

unfoldable pub next_stack : Point → List ℕ → List ℕ
next_stack p [] = if p.is_close then [] else p.count ∷ []
next_stack p (top ∷ stack) = if p.is_close then stack else p.count ∷ top ∷ stack

unfoldable pub sweep : List Point → List ℕ → ℕ → ℕ → ℕ
unfolding gained next_stack
sweep [] stack last_offset used = used
sweep (p ∷ points) stack last_offset used =
    sweep points (next_stack p stack) p.offset (used + gained p stack last_offset)

unfoldable pub sweep_sorted : List Point → ℕ
unfolding sweep
sweep_sorted [] = 0
sweep_sorted (p ∷ points) = sweep (p ∷ points) [] p.offset 0

unfoldable pub coverage_of : List Point → ℕ × ℕ
unfolding total_of sort_points sweep_sorted
coverage_of points =
    if is_empty points then (0, 0) else (sweep_sorted (sort_points points), total_of points)

unfoldable pub compute_js_coverage : ScriptCoverage → ℕ × ℕ
unfolding range_points all_ranges coverage_of
compute_js_coverage script = coverage_of (range_points (all_ranges script.functions))
