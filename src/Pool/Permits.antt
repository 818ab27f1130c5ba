-- ===== src/Pool/Permits.antt =====
-- src/pool.rs: where the permits of an instance are, and what `in_flight` counts.
use browser_headless.Base.{
  ℕ, ◌+◌, ◌≡◌, ◌≢◌, sym, ap, ◌∙◌, subst, inl, inr, Bool, false, some, arith, get_elem?, set,
  Bool-cases, to_ℕ, ◌==◌, ==_iff, count, count-set, get_elem?-set_self, get_elem?-set_ne,
}
use mathlib.Core.Option.{some-injective}
use browser_headless.Pool.State.{Caller, reading, holding, abandoned, Pool, Instance}
use browser_headless.Pool.Steps.{put_caller, put_instance}

-- The requests that have a permit of instance `i`.
abbrev pub has_permit : ℕ → Caller → Bool
has_permit i (reading j) = i == j
has_permit i (holding j) = i == j
has_permit i _ = false

-- The requests that `in_flight` counts.
abbrev pub is_counted : ℕ → Caller → Bool
is_counted i (reading j) = i == j
is_counted i (holding j) = i == j
is_counted i (abandoned j) = i == j
is_counted i _ = false

-- A count of the requests at each instance that is kept against the instance's own fields.
abbrev pub Balance : (ℕ → Caller → Bool) → (Instance → ℕ) → (Instance → ℕ) → Pool → Type 0
Balance test left right p =
    (i : ℕ) (x : Instance)
    → get_elem? p.instances i ≡ some x
    → left x + count (test i) p.callers ≡ right x

module _ (test : ℕ → Caller → Bool) (left right : Instance → ℕ) where
  pub Balance-put :
      (p : Pool) (c i : ℕ) (k l : Caller) (x y : Instance)
      → get_elem? p.callers c ≡ some k
      → get_elem? p.instances i ≡ some x
      → left y + to_ℕ (test i l) + right x ≡ left x + to_ℕ (test i k) + right y
      → ((j : ℕ) → j ≢ i → test j k ≡ test j l)
      → Balance test left right p
      → Balance test left right (put_caller c l (put_instance i y p))
  unfolding put_caller put_instance
  Balance-put p c i k l x y hk hx even other bal j z hz =
      let moved = count-set (test j) p.callers c k l hk in
      elim (Bool-cases (j == i)) [
        | inl same ↦
            let ji = (==_iff j i).0 same in
            let zy = some-injective y z (
              sym (get_elem?-set_self p.instances i x y hx)
              ∙ ap (get_elem? (set p.instances i y)) (sym ji)
              ∙ hz) in
            subst (λ w. left w + count (test j) (set p.callers c l) ≡ right w) zy
              (subst (λ n. left y + count (test n) (set p.callers c l) ≡ right y) (sym ji)
                (omega (arith, even, bal i x hx, count-set (test i) p.callers c k l hk)))
        | inr apart ↦
            let ne : j ≢ i = λ e. absurd (ground (arith, (==_iff j i).1 e)) in
            let old = bal j z (sym (get_elem?-set_ne p.instances i j y (λ e. ne (sym e))) ∙ hz) in
            omega (arith, old, moved, ap to_ℕ (other j ne))
      ]

  pub Balance-put_caller :
      (p : Pool) (c : ℕ) (k l : Caller)
      → get_elem? p.callers c ≡ some k
      → ((j : ℕ) → test j k ≡ test j l)
      → Balance test left right p
      → Balance test left right (put_caller c l p)
  unfolding put_caller
  Balance-put_caller p c k l hk same bal j z hz =
      omega (arith, bal j z hz, count-set (test j) p.callers c k l hk, ap to_ℕ (same j))

  pub Balance-put_instance :
      (p : Pool) (i : ℕ) (x y : Instance)
      → get_elem? p.instances i ≡ some x
      → left y ≡ left x
      → right y ≡ right x
      → Balance test left right p
      → Balance test left right (put_instance i y p)
  unfolding put_instance
  Balance-put_instance p i x y hx l r bal j z hz = elim (Bool-cases (j == i)) [
    | inl same ↦
        let ji = (==_iff j i).0 same in
        let zy = some-injective y z (
          sym (get_elem?-set_self p.instances i x y hx)
          ∙ ap (get_elem? (set p.instances i y)) (sym ji)
          ∙ hz) in
        subst (λ w. left w + count (test j) p.callers ≡ right w) zy
          (omega (arith, l, r, bal j x (ap (get_elem? p.instances) ji ∙ hx)))
    | inr apart ↦
        let ne : j ≢ i = λ e. absurd (ground (arith, (==_iff j i).1 e)) in
        bal j z (sym (get_elem?-set_ne p.instances i j y (λ e. ne (sym e))) ∙ hz)
  ]
