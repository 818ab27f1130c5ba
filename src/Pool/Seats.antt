-- ===== src/Pool/Seats.antt =====
-- src/pool.rs: the page permits of an instance and its `in_flight` at each step of a request.
pub mod Runs
use browser_headless.Base.{
  ℕ, zero, suc, ◌+◌, ◌-◌, ◌≡◌, ◌≢◌, refl, sym, ap, subst, ◌⊎◌, inl, inr, false, Option, none, some,
  [], ◌∷◌, ◌++◌, arith, none-ne-some, get_elem?, Option-cases, Bool-cases, to_ℕ, ◌==◌, ==_iff,
  ==-refl, count-append, count_pos, get_elem?-replicate,
}
use mathlib.Core.Option.{some-injective}
use browser_headless.Pool.State.{
  PoolConfig, Caller, picking, waiting, reading, holding, abandoned, finished, Pool, Instance,
  Phase, watching, awaiting_token, waiting_drain, relaunching, launch, is_active, new_instance,
  choose,
}
use browser_headless.Pool.Steps.{
  Event, call, pick, acquire, read_handle, drop_checkout, cancel, trigger, stale_wakeup, take_token,
  drained, relaunch_failed, relaunched, step_caller, step_manager, step, at_caller, at_instance,
  put_caller, put_instance, put_managed, Managed, Reachable, start, next, granted, dropped,
  cancelled, picked, triggered, swapped,
}
use browser_headless.Pool.Permits.{
  has_permit, is_counted, Balance, Balance-put, Balance-put_caller, Balance-put_instance,
}

-- Permits that are free or held make up the instance's pages, and `in_flight` counts its requests.
abbrev pub Seats : PoolConfig → Pool → Type 0
Seats config p =
    Balance has_permit (λ x. x.permits) (λ x. config.pages_per_instance) p
    × Balance is_counted (λ x. 0) (λ x. x.in_flight) p

-- A granted permit starts a capture on an active instance, or is given back.
granted-cases :
    (i n : ℕ) (x y : Instance) (k : Caller)
    → granted i n x ≡ some (y, k)
    → ((k ≡ reading i) × (y.permits + 1 ≡ x.permits) × (y.in_flight ≡ x.in_flight + 1))
      ⊎ ((k ≡ picking n) × (y ≡ x))
unfolding granted
granted-cases i n x y k h = elim (Bool-cases (x.permits == 0)) [
  | inl e ↦ absurd (none-ne-some (rw (granted, e) at h))
  | inr e ↦ elim (Bool-cases (is_active x.status)) [
    | inl a ↦
        let same =
          some-injective
            (record x { permits = x.permits - 1; in_flight = x.in_flight + 1 }, reading i) (y, k)
            (rw (granted, e, a) at h) in
        inl (
          sym (ap (λ s. s.1) same),
          ground (arith, ap (λ s. s.0.permits) same),
          sym (ap (λ s. s.0.in_flight) same),
        )
    | inr a ↦
        let same = some-injective (x, picking n) (y, k) (rw (granted, e, a) at h) in
        inr (sym (ap (λ s. s.1) same), sym (ap (λ s. s.0) same))
  ]
]

picked-NoPermit :
    (n i : ℕ) (o : Option (ℕ × ℕ))
    → (has_permit i (picked n o) ≡ false) × (is_counted i (picked n o) ≡ false)
unfolding picked
picked-NoPermit zero i o = (refl, refl)
picked-NoPermit (suc n) i none = (refl, refl)
picked-NoPermit (suc n) i (some (j, free)) = (refl, refl)

-- The caller that an event moves.
abbrev pub target : Event → ℕ
target (pick c) = c
target (acquire c) = c
target (read_handle c) = c
target (drop_checkout c) = c
target (cancel c) = c
target _ = 0

put_caller-Seats :
    (config : PoolConfig) (p : Pool) (c : ℕ) (k l : Caller)
    → get_elem? p.callers c ≡ some k
    → ((j : ℕ) → (has_permit j k ≡ has_permit j l) × (is_counted j k ≡ is_counted j l))
    → Seats config p
    → Seats config (put_caller c l p)
put_caller-Seats config p c k l hk same (s, t) = (
  Balance-put_caller has_permit (λ x. x.permits) (λ x. config.pages_per_instance) p c k l hk
      (λ j. (same j).0) s,
  Balance-put_caller is_counted (λ x. 0) (λ x. x.in_flight) p c k l hk (λ j. (same j).1) t,
)

put-Seats :
    (config : PoolConfig) (p : Pool) (c i : ℕ) (k l : Caller) (x y : Instance)
    → get_elem? p.callers c ≡ some k
    → get_elem? p.instances i ≡ some x
    → y.permits + to_ℕ (has_permit i l) ≡ x.permits + to_ℕ (has_permit i k)
    → to_ℕ (is_counted i l) + x.in_flight ≡ to_ℕ (is_counted i k) + y.in_flight
    → ((j : ℕ) → j ≢ i → (has_permit j k ≡ has_permit j l) × (is_counted j k ≡ is_counted j l))
    → Seats config p
    → Seats config (put_caller c l (put_instance i y p))
put-Seats config p c i k l x y hk hx u v other (s, t) = (
  Balance-put has_permit (λ x. x.permits) (λ x. config.pages_per_instance) p c i k l x y hk hx
      (omega (arith, u)) (λ j e. (other j e).0) s,
  Balance-put is_counted (λ x. 0) (λ x. x.in_flight) p c i k l x y hk hx (omega (arith, v))
      (λ j e. (other j e).1) t,
)

-- A request that is at instance `i` is at no other.
apart : (j i : ℕ) → j ≢ i → (j == i) ≡ false
apart j i h = elim (Bool-cases (j == i)) [ inl e ↦ absurd (h ((==_iff j i).0 e)) | inr e ↦ e ]

acquire-Seats :
    (config : PoolConfig) (p : Pool) (c i n : ℕ) (x y : Instance) (k : Caller)
    → get_elem? p.callers c ≡ some (waiting i n)
    → get_elem? p.instances i ≡ some x
    → granted i n x ≡ some (y, k)
    → Seats config p
    → Seats config (put_caller c k (put_instance i y p))
acquire-Seats config p c i n x y k hk hx hg s = elim (granted-cases i n x y k hg) [
  | inl (kr, less, more) ↦
      put-Seats config p c i (waiting i n) k x y hk hx
        (subst (λ l. y.permits + to_ℕ (has_permit i l) ≡ x.permits + 0) (sym kr)
          (ground (arith, ==-refl i, less)))
        (subst (λ l. to_ℕ (is_counted i l) + x.in_flight ≡ 0 + y.in_flight) (sym kr)
          (ground (arith, ==-refl i, more)))
        (λ j e.
          subst (λ l. (false ≡ has_permit j l) × (false ≡ is_counted j l)) (sym kr)
            (sym (apart j i e), sym (apart j i e)))
        s
  | inr (kr, same) ↦
      put-Seats config p c i (waiting i n) k x y hk hx
        (subst (λ l. y.permits + to_ℕ (has_permit i l) ≡ x.permits + 0) (sym kr)
          (ap (λ z. z.permits + 0) same))
        (subst (λ l. to_ℕ (is_counted i l) + x.in_flight ≡ 0 + y.in_flight) (sym kr)
          (ap (λ z. 0 + z.in_flight) (sym same)))
        (λ j e.
          subst (λ l. (false ≡ has_permit j l) × (false ≡ is_counted j l)) (sym kr) (refl, refl))
        s
]

drop_checkout-Seats :
    (config : PoolConfig) (p : Pool) (c i : ℕ) (x : Instance)
    → get_elem? p.callers c ≡ some (holding i)
    → get_elem? p.instances i ≡ some x
    → Seats config p
    → Seats config (put_caller c finished (put_instance i (dropped config x) p))
unfolding dropped
drop_checkout-Seats config p c i x hk hx s =
    put-Seats config p c i (holding i) finished x (dropped config x) hk hx
      (ground (arith, ==-refl i))
      (let some_in = count_pos (is_counted i) p.callers c (holding i) hk (==-refl i) in
        ground (arith, ==-refl i, s.1 i x hx, some_in))
      (λ j e. (apart j i e, apart j i e)) s

cancel-Seats :
    (config : PoolConfig) (p : Pool) (c i : ℕ) (x : Instance)
    → get_elem? p.callers c ≡ some (reading i)
    → get_elem? p.instances i ≡ some x
    → Seats config p
    → Seats config (put_caller c (abandoned i) (put_instance i (cancelled x) p))
unfolding cancelled
cancel-Seats config p c i x hk hx s =
    put-Seats config p c i (reading i) (abandoned i) x (cancelled x) hk hx
      (ground (arith, ==-refl i)) refl (λ j e. (apart j i e, refl)) s

pub step_caller-Seats :
    (config : PoolConfig) (e : Event) (k : Caller) (p q : Pool)
    → get_elem? p.callers (target e) ≡ some k
    → step_caller config e k p ≡ some q
    → Seats config p
    → Seats config q
unfolding step_caller
step_caller-Seats config (pick c) (picking n) p q hk h s =
    subst (Seats config) (some-injective (put_caller c (picked n (choose 0 p.instances)) p) q h) (
      put_caller-Seats config p c (picking n) (picked n (choose 0 p.instances)) hk
        (λ j. let (u, v) = picked-NoPermit n j (choose 0 p.instances) in (sym u, sym v)) s)
step_caller-Seats config (read_handle c) (reading i) p q hk h s =
    subst (Seats config) (some-injective (put_caller c (holding i) p) q h)
      (put_caller-Seats config p c (reading i) (holding i) hk (λ j. (refl, refl)) s)
step_caller-Seats config (cancel c) (waiting i n) p q hk h s =
    subst (Seats config) (some-injective (put_caller c finished p) q h)
      (put_caller-Seats config p c (waiting i n) finished hk (λ j. (refl, refl)) s)
step_caller-Seats config (cancel c) (reading i) p q hk h s =
    elim (Option-cases (get_elem? p.instances i)) [
      | inl e ↦ absurd (none-ne-some (rw (step_caller, e) at h))
      | inr (x, e) ↦
          subst (Seats config)
            (some-injective (put_caller c (abandoned i) (put_instance i (cancelled x) p)) q
              (rw (step_caller, e) at h))
            (cancel-Seats config p c i x hk e s)
    ]
step_caller-Seats config (acquire c) (waiting i n) p q hk h s =
    elim (Option-cases (get_elem? p.instances i)) [
      | inl e ↦ absurd (none-ne-some (rw (step_caller, e) at h))
      | inr (x, e) ↦ elim (Option-cases (granted i n x)) [
        | inl f ↦ absurd (none-ne-some (rw (step_caller, e, f) at h))
        | inr ((y, k), f) ↦
            subst (Seats config)
              (some-injective (put_caller c k (put_instance i y p)) q (rw (step_caller, e, f) at h))
              (acquire-Seats config p c i n x y k hk e f s)
      ]
    ]
step_caller-Seats config (drop_checkout c) (holding i) p q hk h s =
    elim (Option-cases (get_elem? p.instances i)) [
      | inl e ↦ absurd (none-ne-some (rw (step_caller, e) at h))
      | inr (x, e) ↦
          subst (Seats config)
            (some-injective (put_caller c finished (put_instance i (dropped config x) p)) q
              (rw (step_caller, e) at h))
            (drop_checkout-Seats config p c i x hk e s)
    ]
step_caller-Seats config _ _ p q hk h s = absurd (none-ne-some h)
