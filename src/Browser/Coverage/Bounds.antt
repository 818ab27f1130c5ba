-- ===== src/Browser/Coverage/Bounds.antt =====
-- src/browser/mod.rs: the used bytes of a script are at most its total.
use browser_headless.Base.{
  ℕ, ◌+◌, ◌-◌, ◌≤◌, ◌≡◌, inl, inr, arith, true, false, List, [], ◌∷◌, leb, max, All, Bool-cases,
}
use browser_headless.Browser.Coverage.{
  CoverageRange, ScriptCoverage, Point, open_point, close_point, range_points, all_ranges, total_of,
  tie_before, is_before, insert_point, sort_points, gained, next_stack, sweep, sweep_sorted,
  coverage_of, compute_js_coverage,
}

-- The offsets do not fall, and none is below the start.
abbrev pub Ascending : ℕ → List Point → Type 0
Ascending low [] = Unit
Ascending low (p ∷ points) = (low ≤ p.offset) × Ascending p.offset points

abbrev pub Below : ℕ → List Point → Type 0
Below high points = All (λ p. p.offset ≤ high) points

is_before-le : (p q : Point) → is_before p q ≡ true → p.offset ≤ q.offset
unfolding is_before tie_before
is_before-le p q e = ground arith

is_before-ge : (p q : Point) → is_before p q ≡ false → q.offset ≤ p.offset
unfolding is_before tie_before
is_before-ge p q e = ground arith

insert_point-Ascending :
    (low : ℕ) (p : Point) (points : List Point)
    → low ≤ p.offset
    → Ascending low points
    → Ascending low (insert_point p points)
unfolding insert_point
insert_point-Ascending low p [] h a = (h, tt)
insert_point-Ascending low p (q ∷ points) h a = elim (Bool-cases (is_before p q)) [
  | inl e ↦ rw (e) (h, (is_before-le p q e, a.1))
  | inr e ↦ rw (e) (a.0, insert_point-Ascending q.offset p points (is_before-ge p q e) a.1)
]

insert_point-Below :
    (high : ℕ) (p : Point) (points : List Point)
    → p.offset ≤ high
    → Below high points
    → Below high (insert_point p points)
unfolding insert_point
insert_point-Below high p [] h b = (h, tt)
insert_point-Below high p (q ∷ points) h b = elim (Bool-cases (is_before p q)) [
  | inl e ↦ rw (e) (h, b)
  | inr e ↦ rw (e) (b.0, insert_point-Below high p points h b.1)
]

sort_points-Ascending : (points : List Point) → Ascending 0 (sort_points points)
unfolding sort_points
sort_points-Ascending [] = tt
sort_points-Ascending (p ∷ points) =
    insert_point-Ascending 0 p (sort_points points) (omega arith) (sort_points-Ascending points)

sort_points-Below :
    (high : ℕ) (points : List Point) → Below high points → Below high (sort_points points)
unfolding sort_points
sort_points-Below high [] b = tt
sort_points-Below high (p ∷ points) b =
    insert_point-Below high p (sort_points points) b.0 (sort_points-Below high points b.1)

Below-more :
    (low high : ℕ) (points : List Point) → low ≤ high → Below low points → Below high points
Below-more low high [] h b = tt
Below-more low high (p ∷ points) h b = (omega (arith, h, b.0), Below-more low high points h b.1)

-- Every point of the ranges is at most at the largest end.
range_points-Below :
    (ranges : List CoverageRange) → Below (total_of (range_points ranges)) (range_points ranges)
unfolding range_points total_of open_point close_point
range_points-Below [] = tt
range_points-Below (r ∷ ranges) = elim (Bool-cases (leb r.end_offset r.start_offset)) [
  | inl e ↦ rw (e) (range_points-Below ranges)
  | inr e ↦ rw (e) (
    ground (arith, e),
    (
      ground (arith, e),
      Below-more (total_of (range_points ranges))
          (max r.end_offset (total_of (range_points ranges))) (range_points ranges) (omega arith)
          (range_points-Below ranges),
    ),
  )
]

gained-le :
    (p : Point) (stack : List ℕ) (last_offset : ℕ)
    → last_offset ≤ p.offset
    → gained p stack last_offset ≤ p.offset - last_offset
unfolding gained
gained-le p [] last_offset h = omega arith
gained-le p (top ∷ stack) last_offset h = ground (arith, h)

sweep-le :
    (points : List Point) (stack : List ℕ) (last_offset used high : ℕ)
    → Ascending last_offset points
    → Below high points
    → last_offset ≤ high
    → sweep points stack last_offset used ≤ used + (high - last_offset)
unfolding sweep
sweep-le [] stack last_offset used high a b h = omega arith
sweep-le (p ∷ points) stack last_offset used high a b h = omega (
  arith,
  a.0,
  b.0,
  gained-le p stack last_offset a.0,
  sweep-le points (next_stack p stack) p.offset (used + gained p stack last_offset) high a.1 b.1
      b.0,
)

sweep_sorted-le :
    (points : List Point) (high : ℕ)
    → Ascending 0 points
    → Below high points
    → sweep_sorted points ≤ high
unfolding sweep_sorted
sweep_sorted-le [] high a b = omega arith
sweep_sorted-le (p ∷ points) high a b =
    omega (arith, b.0, sweep-le (p ∷ points) [] p.offset 0 high (omega arith, a.1) b b.0)

coverage_of-bounded :
    (points : List Point)
    → Below (total_of points) points
    → ((coverage_of points).0 ≤ (coverage_of points).1) × Below (coverage_of points).1 points
unfolding coverage_of
coverage_of-bounded [] b = (omega arith, tt)
coverage_of-bounded (p ∷ points) b = (
  sweep_sorted-le (sort_points (p ∷ points)) (total_of (p ∷ points))
      (sort_points-Ascending (p ∷ points))
      (sort_points-Below (total_of (p ∷ points)) (p ∷ points) b),
  b,
)

-- However the ranges nest or overlap, the used bytes of a script are at most its total, and the total is at
-- least every offset of a range that is not empty.
pub compute_js_coverage-bounded :
    (script : ScriptCoverage)
    → let (used, total) = compute_js_coverage script in
      (used ≤ total) × Below total (range_points (all_ranges script.functions))
unfolding compute_js_coverage
compute_js_coverage-bounded script =
    coverage_of-bounded (range_points (all_ranges script.functions))
      (range_points-Below (all_ranges script.functions))
