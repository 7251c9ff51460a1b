-- ===== src/Base/Outcomes.antt =====
-- How a Go call ends, and rules for calls that end well.
use Prim.Native.String.{String}
use native.Mathlib.Omega.{arith}
use mathlib.Core.Path.{◌≡◌, refl}
use mathlib.Core.Logic.{◌⊎◌, inl, inr}
use mathlib.Core.Bool.{Bool, true, false}
use mathlib.Core.Option.{Option, none, some}
use kube_queue.Base.Tests.{if◌then◌else◌}

-- A run-time panic, the model's fuel running out, or a value.
pub data Outcome {ℓ} (A : Type ℓ) : Type ℓ where
  panic out_of_fuel : Outcome A
  value : A → Outcome A

-- A result or the text of an error.
pub data Result {ℓ} (A : Type ℓ) : Type ℓ where
  ok : A → Result A
  failed : String → Result A

infixl 5 ◌>>=◌
abbrev pub ◌>>=◌ {ℓ κ} : {A : Type ℓ} {B : Type κ} → Outcome A → (A → Outcome B) → Outcome B
panic >>= k = panic
out_of_fuel >>= k = out_of_fuel
value a >>= k = k a

-- What Go reads through an index or a pointer, which panics if nothing is there.
abbrev pub or_panic {ℓ} : {A : Type ℓ} → Option A → Outcome A
or_panic none = panic
or_panic (some a) = value a

-- The call ends with a value of which `P` holds: it neither panics nor runs out of fuel.
pub data Yields {ℓ κ} {A : Type ℓ} (P : A → Type κ) : Outcome A → Type (ℓ ⊔ κ) where
  yields : {a : A} → P a → Yields P (value a)

module _ {ℓ κ} {A : Type ℓ} {P : A → Type κ} where
  -- A sequence of two calls.
  pub Yields-bind {ℓ' κ'} :
      {B : Type ℓ'} {Q : B → Type κ'} {m : Outcome A} {k : A → Outcome B}
      → Yields P m
      → ((a : A) → P a → Yields Q (k a))
      → Yields Q (m >>= k)
  Yields-bind (yields p) next = next _ p

  pub Yields-weaken {κ'} :
      {Q : A → Type κ'} {m : Outcome A} → Yields P m → ((a : A) → P a → Q a) → Yields Q m
  Yields-weaken (yields p) weaker = yields (weaker _ p)

  pub Yields-both {κ'} :
      {Q : A → Type κ'} {m : Outcome A} → Yields P m → Yields Q m → Yields (λ a. P a × Q a) m
  Yields-both (yields p) (yields q) = yields (p, q)

  pub Yields-value : {m : Outcome A} → Yields P m → (a : A) × (m ≡ value a) × P a
  Yields-value (yields p) = (_, refl, p)

  pub value-Yields : {m : Outcome A} (a : A) → m ≡ value a → P a → Yields P m
  value-Yields a e p = rw e (yields p)

  pub Yields-held : {a : A} → Yields P (value a) → P a
  Yields-held (yields p) = p

  pub Yields-if :
      {x y : Outcome A} (b : Bool)
      → (b ≡ true → Yields P x)
      → (b ≡ false → Yields P y)
      → Yields P (if b then x else y)
  Yields-if true p q = p refl
  Yields-if false p q = q refl

-- A sequence that ends with a value has a first call that does.
pub bind-value {ℓ κ} :
    {A : Type ℓ} {B : Type κ} {k : A → Outcome B} {b : B} (m : Outcome A)
    → (m >>= k) ≡ value b
    → (a : A) × (m ≡ value a) × (k a ≡ value b)
bind-value panic e = absurd (ground arith)
bind-value out_of_fuel e = absurd (ground arith)
bind-value (value a) e = (a, refl, e)

pub Result-cases {ℓ} :
    {A : Type ℓ} (r : Result A) → ((a : A) × (r ≡ ok a)) ⊎ ((e : String) × (r ≡ failed e))
Result-cases (ok a) = inl (a, refl)
Result-cases (failed e) = inr (e, refl)
