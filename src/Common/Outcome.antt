-- ===== src/Common/Outcome.antt =====
-- How a Go call can end: with a value and an error, or in a run-time panic (a nil pointer, a slice
-- or an index out of range), which only gin recovers from, for the handlers of HTTP requests.
use mathlib.Core.Path.{◌≡◌, refl}
use mathlib.Core.Logic.{◌⊎◌, inl, inr}
use mathlib.Core.Option.{Option, none, some}

pub data Outcome {ℓ} (A : Type ℓ) : Type ℓ where
  ok : A → Outcome A
  panic : Outcome A

infixl 5 ◌>>=◌
abbrev pub ◌>>=◌ {ℓ κ} : {A : Type ℓ} {B : Type κ} → Outcome A → (A → Outcome B) → Outcome B
ok a >>= f = f a
panic >>= f = panic

-- A nil pointer that is used.
abbrev pub deref {ℓ} : {A : Type ℓ} → Option A → Outcome A
deref none = panic
deref (some a) = ok a

-- A Go pair `(value, error)`, of which one is set.
pub data Result {ℓ κ} (E : Type κ) (A : Type ℓ) : Type (ℓ ⊔ κ) where
  value : A → Result E A
  error : E → Result E A

pub Result-cases {ℓ κ} :
    {E : Type κ} {A : Type ℓ} (r : Result E A)
    → ((m : E) × (r ≡ error m)) ⊎ ((a : A) × (r ≡ value a))
Result-cases (error m) = inl (m, refl)
Result-cases (value a) = inr (a, refl)

-- A property of what a call gives, unless it panics.
abbrev pub Yields {ℓ κ} : {A : Type ℓ} → (A → Type κ) → Outcome A → Type κ
Yields P panic = Unit
Yields P (ok a) = P a

pub Yields-bind {ℓ κ ι} :
    {A : Type ℓ} {B : Type κ} (P : B → Type ι) (o : Outcome A) (f : A → Outcome B)
    → ((a : A) → Yields P (f a))
    → Yields P (o >>= f)
Yields-bind P panic f h = tt
Yields-bind P (ok a) f h = h a

pub Yields-then {ℓ κ ι ν} :
    {A : Type ℓ} {B : Type κ} (P : A → Type ν) (Q : B → Type ι) (o : Outcome A) (f : A → Outcome B)
    → Yields P o
    → ((a : A) → P a → Yields Q (f a))
    → Yields Q (o >>= f)
Yields-then P Q panic f p h = tt
Yields-then P Q (ok a) f p h = h a p

pub Yields-result {ℓ κ ι ν} :
    {E : Type ν} {A : Type ℓ} {B : Type κ} (P : B → Type ι) (r : Result E A) (f : A → Outcome B)
    (g : E → Outcome B)
    → ((a : A) → Yields P (f a))
    → ((m : E) → Yields P (g m))
    → Yields P (elim r as (λ r. Outcome B) [ value a ↦ f a | error m ↦ g m ])
Yields-result P (value a) f g h i = h a
Yields-result P (error m) f g h i = i m

-- A call that does not panic.
abbrev pub Returns {ℓ} : {A : Type ℓ} → Outcome A → Type ℓ
Returns {A = A} o = (a : A) × (o ≡ ok a)

pub Returns-bind {ℓ κ} :
    {A : Type ℓ} {B : Type κ} (o : Outcome A) (f : A → Outcome B)
    → Returns o
    → ((a : A) → Returns (f a))
    → Returns (o >>= f)
Returns-bind panic f h k = absurd (cc h.1)
Returns-bind (ok a) f h k = k a

-- What comes after panics, whatever the call before it gives; or that call does.
pub Yields-panic {ℓ κ ν} :
    {A : Type ℓ} {B : Type κ} (P : A → Type ν) (o : Outcome A) (f : A → Outcome B)
    → Yields P o
    → ((x : A) → P x → f x ≡ panic)
    → (o >>= f) ≡ panic
Yields-panic P (ok x) f h k = k x h
Yields-panic P panic f h k = refl
