-- ===== src/Browser/Analysis/Chains.antt =====
-- `compute_initiator_chain_depth` of src/browser/mod.rs: exactly what the depth counts.
use browser_headless.Base.{
  ℕ, zero, suc, ◌+◌, ◌≤◌, ◌≡◌, refl, sym, ap, ◌∙◌, subst, inl, inr, ◌⊎◌, arith, true, false, Option,
  none, some, List, [], ◌∷◌, Text, text_eq, is_some, any, All, ltb, leb, max, get_elem?,
  if◌then◌else◌, Bool-cases, Option-cases,
}
use browser_headless.Base.Dicts.{Dict, lookup, insert, lookup-insert}
use browser_headless.Browser.Resource.{WebPageResource}
use browser_headless.Browser.Analysis.{
  parent_of, add_parents, climb, deepest, climb_fuel, compute_initiator_chain_depth,
}

-- The initiator of a URL: that of the last resource with the URL that has one.
abbrev pub initiator_of : Text → List WebPageResource → Option Text → Option Text
initiator_of url [] before = before
initiator_of url (r ∷ rs) before =
    initiator_of url rs
      (elim (parent_of r) [ none ↦ before | some p ↦ if text_eq r.url url then some p else before ])

lookup-add_parents :
    (url : Text) (rs : List WebPageResource) (parents : Dict Text)
    → lookup url (add_parents rs parents) ≡ initiator_of url rs (lookup url parents)
unfolding add_parents
lookup-add_parents url [] parents = refl
lookup-add_parents url (r ∷ rs) parents = elim (Option-cases (parent_of r)) [
  | inl e ↦ rw (e, add_parents) (lookup-add_parents url rs parents)
  | inr (p, e) ↦
      rw (e, add_parents)
        (lookup-add_parents url rs (insert r.url p parents)
          ∙ ap (initiator_of url rs) (lookup-insert r.url url p parents))
]

-- The walk up the initiators from a URL, past those seen: it ends after so many hops at a URL without an
-- initiator, at one whose initiator was seen, or when the hops left are used up; and never before.
pub data Walk (initiator : Text → Option Text) : List Text → Text → ℕ → ℕ → Type 0 where
  root :
      (seen : List Text) (url : Text) (left : ℕ)
      → initiator url ≡ none
      → Walk initiator seen url left 0
  cycle :
      (seen : List Text) (url p : Text) (left : ℕ)
      → initiator url ≡ some p
      → any (text_eq p) seen ≡ true
      → Walk initiator seen url left 0
  capped : (seen : List Text) (url : Text) → Walk initiator seen url 0 0
  hop :
      (seen : List Text) (url p : Text) (left n : ℕ)
      → initiator url ≡ some p
      → any (text_eq p) seen ≡ false
      → Walk initiator (p ∷ seen) p left n
      → Walk initiator seen url (suc left) (suc n)

-- The start, or the walk of one of the resources; and no walk of them is longer.
abbrev pub Longest : (Text → Option Text) → List WebPageResource → ℕ → ℕ → Type 0
Longest initiator rs start d =
    ((d ≡ start)
      ⊎ ((i : ℕ) × (r : WebPageResource) × (get_elem? rs i ≡ some r)
          × Walk initiator (r.url ∷ []) r.url 101 d))
    × All (λ r. (n : ℕ) × Walk initiator (r.url ∷ []) r.url 101 n × (n ≤ d)) rs
    × (start ≤ d)

module _ (parents : Dict Text) (initiator : Text → Option Text)
    (same : (url : Text) → lookup url parents ≡ initiator url) where
  -- The loop makes the walk, with the hops that the cap leaves.
  climb-Walk :
      (fuel left : ℕ) (seen : List Text) (current : Text) (depth : ℕ)
      → suc left ≤ fuel
      → suc left + depth ≡ 101
      → (n : ℕ) × (climb fuel parents seen current depth ≡ depth + n)
        × Walk initiator seen current (suc left) n
        × (n ≤ suc left)
  unfolding climb
  climb-Walk zero left seen current depth enough total = absurd (omega arith)
  climb-Walk (suc fuel) zero seen current depth enough total =
      elim (Option-cases (lookup current parents)) [
        | inl e ↦ (0, rw (e, climb) (omega arith), root _ _ 1 (sym (same current) ∙ e), omega arith)
        | inr (p, e) ↦ elim (Bool-cases (any (text_eq p) seen)) [
          | inl s ↦ (
            0,
            rw (e, s, climb) (omega arith),
            cycle _ _ p 1 (sym (same current) ∙ e) s,
            omega arith,
          )
          | inr s ↦
              let cap : ltb 100 (suc depth) ≡ true = ground (arith, total) in
              (
                1,
                rw (e, s, cap, climb) (omega arith),
                hop _ _ p 0 0 (sym (same current) ∙ e) s (capped _ p),
                omega arith,
              )
        ]
      ]
  climb-Walk (suc fuel) (suc left) seen current depth enough total =
      elim (Option-cases (lookup current parents)) [
        | inl e ↦ (0, rw (e, climb) (omega arith), root _ _ _ (sym (same current) ∙ e), omega arith)
        | inr (p, e) ↦ elim (Bool-cases (any (text_eq p) seen)) [
          | inl s ↦ (
            0,
            rw (e, s, climb) (omega arith),
            cycle _ _ p _ (sym (same current) ∙ e) s,
            omega arith,
          )
          | inr s ↦
              let go : ltb 100 (suc depth) ≡ false = ground (arith, total) in
              let (n, counted, walk, low) =
                climb-Walk fuel left (p ∷ seen) p (suc depth) (omega arith) (omega arith) in
              (
                suc n,
                rw (e, s, go, climb) (omega (arith, counted)),
                hop _ _ p (suc left) n (sym (same current) ∙ e) s walk,
                omega (arith, low),
              )
        ]
      ]

  -- What the loop finds from a resource.
  abbrev walked : WebPageResource → ℕ
  walked r = climb climb_fuel parents (r.url ∷ []) r.url 0

  walked-Walk :
      (r : WebPageResource) → Walk initiator (r.url ∷ []) r.url 101 (walked r) × (walked r ≤ 101)
  walked-Walk r =
      let (n, counted, walk, low) =
        climb-Walk climb_fuel 100 (r.url ∷ []) r.url 0 (omega arith) (omega arith) in
      let same_depth : n ≡ walked r = omega (arith, counted) in
      (subst (Walk initiator (r.url ∷ []) r.url 101) same_depth walk, omega (arith, counted, low))

  Longest-cons :
      (r : WebPageResource) (rs : List WebPageResource) (start d : ℕ)
      → Longest initiator rs (max start (walked r)) d
      → Longest initiator (r ∷ rs) start d
  Longest-cons r rs start d (found, each, grown) = (
    elim found [
      | inr (i, x, at, walk) ↦ inr (suc i, x, at, walk)
      | inl e ↦ elim (Bool-cases (leb (walked r) start)) [
        | inl le ↦ inl (e ∙ ground arith)
        | inr gt ↦
            let same_depth : walked r ≡ d = ground (arith, e) in
            inr (
              0,
              r,
              refl,
              subst (Walk initiator (r.url ∷ []) r.url 101) same_depth (walked-Walk r).0,
            )
      ]
    ],
    ((walked r, (walked-Walk r).0, omega (arith, grown)), each),
    omega (arith, grown),
  )

  deepest-Longest :
      (rs : List WebPageResource) (start : ℕ)
      → start ≤ 101
      → Longest initiator rs start (deepest climb_fuel parents rs start)
        × (deepest climb_fuel parents rs start ≤ 101)
  unfolding deepest
  deepest-Longest [] start h = ((inl refl, tt, omega arith), h)
  deepest-Longest (r ∷ rs) start h =
      let (longest, low) =
        deepest-Longest rs (max start (walked r)) (omega (arith, (walked-Walk r).1)) in
      (Longest-cons r rs start _ longest, low)

-- Without any initiator there is no depth. Otherwise the depth is at most 101 and is the length of the longest
-- walk up the initiators from a resource: a walk goes from a URL to the
-- initiator of the last resource with that URL, and ends exactly where there is none, where it was seen
-- on the walk, or after 101 hops.
pub compute_initiator_chain_depth-Walk :
    (resources : List WebPageResource)
    → ((any (λ r. is_some r.initiator) resources ≡ false)
        × (compute_initiator_chain_depth resources ≡ none))
      ⊎ ((any (λ r. is_some r.initiator) resources ≡ true)
          × ((d : ℕ) × (compute_initiator_chain_depth resources ≡ some d)
              × Longest (λ url. initiator_of url resources none) resources 0 d
              × (d ≤ 101)))
unfolding compute_initiator_chain_depth lookup
compute_initiator_chain_depth-Walk resources =
    elim (Bool-cases (any (λ r. is_some r.initiator) resources)) [
      | inr e ↦ inl (e, rw (e, compute_initiator_chain_depth) refl)
      | inl e ↦
          let (longest, low) =
            deepest-Longest (add_parents resources []) (λ url. initiator_of url resources none)
              (λ url. lookup-add_parents url resources []) resources 0 (omega arith) in
          inr (e, (_, rw (e, compute_initiator_chain_depth) refl, longest, low))
    ]
