-- ===== src/Base/Results.antt =====
-- Rust's `Result`, its bind, and the loops over it.
use mathlib.Core.Path.{◌≡◌, refl}
use mathlib.Core.Logic.{◌⊎◌, inl, inr}
use mathlib.Core.Option.{Option, none, some}
use mathlib.Core.Bool.{Bool, true, false}
use browser_headless.Base.Tests.{if◌then◌else◌}

pub data Result {ℓ κ} (A : Type ℓ) (E : Type κ) : Type (ℓ ⊔ κ) where
  ok : A → Result A E
  err : E → Result A E

infixl 5 ◌>>=◌
abbrev pub ◌>>=◌ {ℓ κ μ} :
    {A : Type ℓ} {B : Type κ} {E : Type μ} → Result A E → (A → Result B E) → Result B E
ok a >>= f = f a
err e >>= f = err e

abbrev pub is_ok {ℓ κ} : {A : Type ℓ} {E : Type κ} → Result A E → Bool
is_ok (ok a) = true
is_ok (err e) = false

abbrev pub map_err {ℓ κ μ} :
    {A : Type ℓ} {E : Type κ} {F : Type μ} → (E → F) → Result A E → Result A F
map_err f (ok a) = ok a
map_err f (err e) = err (f e)

abbrev pub ok_or {ℓ κ} : {A : Type ℓ} {E : Type κ} → Option A → E → Result A E
ok_or none e = err e
ok_or (some a) e = ok a

pub Result-cases {ℓ κ} :
    {A : Type ℓ} {E : Type κ} (r : Result A E) → ((a : A) × (r ≡ ok a)) ⊎ ((e : E) × (r ≡ err e))
Result-cases (ok a) = inl (a, refl)
Result-cases (err e) = inr (e, refl)

pub ok-injective {ℓ κ} :
    {A : Type ℓ} {E : Type κ} {a b : A} → ◌≡◌ {A = Result A E} (ok a) (ok b) → a ≡ b
ok-injective h = cc

pub err-injective {ℓ κ} :
    {A : Type ℓ} {E : Type κ} {d e : E} → ◌≡◌ {A = Result A E} (err d) (err e) → d ≡ e
err-injective h = cc

pub err-ne-ok {ℓ κ} :
    {A : Type ℓ} {E : Type κ} {a : A} {e : E} → ◌≡◌ {A = Result A E} (err e) (ok a) → ⊥
err-ne-ok h = cc

-- A guarded chain succeeds only if the guard is off and both steps succeed.
pub guarded_ok {ℓ κ μ} :
    {A : Type ℓ} {B : Type κ} {E : Type μ} (d : Bool) (x : E) (r : Result A E) (k : A → Result B E)
    (b : B)
    → (if d then err x else (r >>= k)) ≡ ok b
    → (a : A) × (r ≡ ok a) × (k a ≡ ok b) × (d ≡ false)
guarded_ok true x r k b h = absurd (err-ne-ok h)
guarded_ok false x (ok a) k b h = (a, refl, h, refl)
guarded_ok false x (err e) k b h = absurd (err-ne-ok h)

-- A chain that succeeds did so at each step.
pub >>=-eq-ok {ℓ κ μ} :
    {A : Type ℓ} {B : Type κ} {E : Type μ} (r : Result A E) (f : A → Result B E) {b : B}
    → (r >>= f) ≡ ok b
    → (a : A) × (r ≡ ok a) × (f a ≡ ok b)
>>=-eq-ok (ok a) f h = (a, refl, h)
>>=-eq-ok (err e) f h = absurd (err-ne-ok h)
