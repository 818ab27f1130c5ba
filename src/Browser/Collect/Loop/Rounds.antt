-- ===== src/Browser/Collect/Loop/Rounds.antt =====
-- The rounds of the collect loop of src/browser/mod.rs, one by one, whatever its body does.
use browser_headless.Base.{
  ℕ, ◌≤◌, ◌<◌, ◌≡◌, refl, ◌∙◌, subst, arith, Bool, true, false, List, [], ◌∷◌, ◌++◌, leb,
  if◌then◌else◌, Result, ok, err,
}
use browser_headless.Error.{BrowserError}
use browser_headless.Browser.Collect.Loop.{
  Arrival, slept, closed, arrived, Round, Outcome, running, stopped, failed, take_arrival,
  after_event, collect_loop,
}

module _ {S : Type 0} where
  running-ne-stopped : {s t : S} → stopped s ≡ running t → ⊥
  running-ne-stopped h = cc

  take_arrival-running :
      {E : Type 0} (b : Bool) (a : Arrival E) (s u : S) (f : ℕ → E → Outcome S)
      → (if b then stopped s else take_arrival a s f) ≡ running u
      → (at : ℕ) × (ev : E) × (a ≡ arrived at ev) × (f at ev ≡ running u)
  unfolding take_arrival
  take_arrival-running true a s u f h = absurd (running-ne-stopped h)
  take_arrival-running false slept s u f h = absurd (running-ne-stopped h)
  take_arrival-running false closed s u f h = absurd (running-ne-stopped h)
  take_arrival-running false (arrived at ev) s u f h = (at, ev, refl, h)

  after_event-running :
      (r : Result S BrowserError) (u : S) (k : S → Outcome S)
      → after_event r k ≡ running u
      → (t : S) × (r ≡ ok t) × (k t ≡ running u)
  unfolding after_event
  after_event-running (ok t) u k h = (t, refl, h)
  after_event-running (err e) u k h = absurd (cc)

  continue_with : Outcome S → (S → Outcome S) → Outcome S
  continue_with (running s) next = next s
  continue_with (stopped s) next = stopped s
  continue_with (failed e) next = failed e

  after_event-continue :
      (r : Result S BrowserError) (f g next : S → Outcome S)
      → ((t : S) → f t ≡ continue_with (g t) next)
      → after_event r f ≡ continue_with (after_event r g) next
  unfolding after_event continue_with
  after_event-continue (ok t) f g next h = h t
  after_event-continue (err e) f g next h = refl

  take_arrival-continue :
      {E : Type 0} (b : Bool) (a : Arrival E) (s : S) (f g : ℕ → E → Outcome S)
      (next : S → Outcome S)
      → ((at : ℕ) (ev : E) → f at ev ≡ continue_with (g at ev) next)
      → (if b then stopped s else take_arrival a s f)
        ≡ continue_with (if b then stopped s else take_arrival a s g) next
  unfolding take_arrival continue_with
  take_arrival-continue true a s f g next h = refl
  take_arrival-continue false slept s f g next h = refl
  take_arrival-continue false closed s f g next h = refl
  take_arrival-continue false (arrived at ev) s f g next h = h at ev

module _ {E S : Type 0} (body : ℕ → E → S → Result S BrowserError) (stop : ℕ → S → ℕ) where
  collect_loop-append :
      (xs ys : List (Round E)) (s : S)
      → collect_loop body stop (xs ++ ys) s
        ≡ continue_with (collect_loop body stop xs s) (collect_loop body stop ys)
  unfolding continue_with collect_loop
  collect_loop-append [] ys s = refl
  collect_loop-append (r ∷ xs) ys s =
      take_arrival-continue (leb (stop r.last_event_at s) r.now) r.arrival s _ _ _
        λ at ev. after_event-continue (body at ev s) _ _ _ λ t. collect_loop-append xs ys t

  -- A run that goes on handled its first round's event.
  pub collect_loop-first :
      (r : Round E) (rs : List (Round E)) (s u : S)
      → collect_loop body stop (r ∷ rs) s ≡ running u
      → (at : ℕ) × (ev : E) × (t : S) × (r.arrival ≡ arrived at ev)
        × (body at ev s ≡ ok t)
        × (collect_loop body stop rs t ≡ running u)
  unfolding collect_loop
  collect_loop-first r rs s u e =
      let (at, ev, came, e') =
        take_arrival-running (leb (stop r.last_event_at s) r.now) r.arrival s u _ e in
      let (t, done, e'') = after_event-running (body at ev s) u _ e' in (at, ev, t, came, done, e'')

  -- What the body keeps holds wherever the loop gets.
  pub collect_loop-keeps {κ} :
      (P : S → Type κ) (rs : List (Round E)) (s u : S)
      → ((at : ℕ) (ev : E) (t v : S) → body at ev t ≡ ok v → P t → P v)
      → P s
      → collect_loop body stop rs s ≡ running u
      → P u
  unfolding collect_loop
  collect_loop-keeps P [] s u h ps e = subst P (running-injective e) ps
    where
      running-injective : {a b : S} → running a ≡ running b → a ≡ b
      running-injective q = cc
  collect_loop-keeps P (r ∷ rs) s u h ps e =
      let (at, ev, t, came, done, rest) = collect_loop-first r rs s u e in
      collect_loop-keeps P rs t u h (h at ev s t done ps) rest

  -- What follows a run that goes on starts from where it got.
  pub collect_loop-next :
      (xs ys : List (Round E)) (s t : S)
      → collect_loop body stop xs s ≡ running t
      → collect_loop body stop (xs ++ ys) s ≡ collect_loop body stop ys t
  unfolding continue_with
  collect_loop-next xs ys s t h = collect_loop-append xs ys s ∙ (rw h refl)

  pub collect_loop-stops :
      (r : Round E) (ys : List (Round E)) (t : S)
      → stop r.last_event_at t ≤ r.now
      → collect_loop body stop (r ∷ ys) t ≡ stopped t
  unfolding collect_loop
  collect_loop-stops r ys t h = ground arith

  pub collect_loop-waits :
      (r : Round E) (ys : List (Round E)) (t : S)
      → r.now < stop r.last_event_at t
      → collect_loop body stop (r ∷ ys) t
        ≡ take_arrival r.arrival t
            (λ at ev. after_event (body at ev t) (λ u. collect_loop body stop ys u))
  unfolding collect_loop
  collect_loop-waits r ys t h = ground arith

-- The predicate holds of the state, unless the loop returned an error.
abbrev pub Ends {κ} : {S : Type 0} → (S → Type κ) → Outcome S → Type κ
Ends P (running s) = P s
Ends P (stopped s) = P s
Ends P (failed e) = Unit

module _ {κ} {S : Type 0} (P : S → Type κ) where
  head-Ends :
      {E : Type 0} (b : Bool) (a : Arrival E) (s : S) (f : ℕ → E → Outcome S)
      → P s
      → ((at : ℕ) (ev : E) → Ends P (f at ev))
      → Ends P (if b then stopped s else take_arrival a s f)
  unfolding take_arrival
  head-Ends true a s f p h = p
  head-Ends false slept s f p h = p
  head-Ends false closed s f p h = p
  head-Ends false (arrived at ev) s f p h = h at ev

  after_event-Ends :
      (r : Result S BrowserError) (f : S → Outcome S)
      → ((t : S) → r ≡ ok t → Ends P (f t))
      → Ends P (after_event r f)
  unfolding after_event
  after_event-Ends (ok t) f h = h t refl
  after_event-Ends (err e) f h = tt

  -- What the body keeps holds in the end.
  pub collect_loop-Ends :
      {E : Type 0} (body : ℕ → E → S → Result S BrowserError) (stop : ℕ → S → ℕ)
      → ((at : ℕ) (ev : E) (s t : S) → body at ev s ≡ ok t → P s → P t)
      → (rs : List (Round E)) (s : S) → P s
      → Ends P (collect_loop body stop rs s)
  unfolding collect_loop
  collect_loop-Ends body stop h [] s p = p
  collect_loop-Ends body stop h (r ∷ rs) s p =
      head-Ends (leb (stop r.last_event_at s) r.now) r.arrival s _ p λ at ev.
        after_event-Ends (body at ev s) _
          λ t e. collect_loop-Ends body stop h rs t (h at ev s t e p)
