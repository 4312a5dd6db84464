-- ===== src/Prelude/Outcomes.antt =====
-- Go's (value, error) pair as a sum: `ok v` is (v, nil), and `err e` is the zero value with `e`.
use mathlib.Core.Path.{◌≡◌, refl, ap}
use mathlib.Core.Logic.{◌⊎◌, inl, inr}
use mathlib.Core.Bool.{Bool, true, false}

pub data Outcome {ℓ κ} (E : Type ℓ) (A : Type κ) : Type (ℓ ⊔ κ) where
  ok : A → Outcome E A
  err : E → Outcome E A

infixl 5 ◌>>=◌
abbrev pub ◌>>=◌ {ℓ κ μ} :
    {E : Type ℓ} {A : Type κ} {B : Type μ} → Outcome E A → (A → Outcome E B) → Outcome E B
ok a >>= f = f a
err e >>= f = err e

-- `fmt.Errorf("...: %w", err)`: the error of a callee inside one of the caller's.
abbrev pub wrap {ℓ κ μ} :
    {E : Type ℓ} {F : Type κ} {A : Type μ} → (E → F) → Outcome E A → Outcome F A
wrap g (ok a) = ok a
wrap g (err e) = err (g e)

-- Whether the error is nil.
abbrev pub is_ok {ℓ κ} : {E : Type ℓ} {A : Type κ} → Outcome E A → Bool
is_ok (ok a) = true
is_ok (err e) = false

pub Outcome-cases {ℓ κ} :
    {E : Type ℓ} {A : Type κ} (r : Outcome E A) → ((a : A) × (r ≡ ok a)) ⊎ ((e : E) × (r ≡ err e))
Outcome-cases (ok a) = inl (a, refl)
Outcome-cases (err e) = inr (e, refl)

-- A call that goes on to a result, with and without a wrapped error.
pub bind_ok {ℓ κ μ} :
    {E : Type ℓ} {A : Type κ} {B : Type μ} (o : Outcome E A) (f : A → Outcome E B) (b : B)
    → (o >>= f) ≡ ok b
    → (a : A) × (o ≡ ok a) × (f a ≡ ok b)
bind_ok (ok a) f b h = (a, refl, h)
bind_ok (err e) f b h = cc

pub wrapped_ok {ℓ κ μ ν} :
    {E : Type ℓ} {F : Type κ} {A : Type μ} {B : Type ν} (g : E → F) (o : Outcome E A)
    (f : A → Outcome F B) (b : B)
    → (wrap g o >>= f) ≡ ok b
    → (a : A) × (o ≡ ok a) × (f a ≡ ok b)
wrapped_ok g (ok a) f b h = (a, refl, h)
wrapped_ok g (err e) f b h = cc

abbrev value_or {ℓ κ} : {E : Type ℓ} {A : Type κ} → A → Outcome E A → A
value_or a (ok b) = b
value_or a (err e) = a

pub ok-injective {ℓ κ} :
    {E : Type ℓ} {A : Type κ} (a b : A) → Path (Outcome E A) (ok a) (ok b) → a ≡ b
ok-injective a b h = ap (value_or a) h

pub wrap_ok {ℓ κ μ} :
    {E : Type ℓ} {F : Type κ} {A : Type μ} (g : E → F) (o : Outcome E A) (a : A)
    → wrap g o ≡ ok a
    → o ≡ ok a
wrap_ok g (ok b) a h = ap ok (ok-injective b a h)
wrap_ok g (err e) a h = cc
