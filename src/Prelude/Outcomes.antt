-- ===== src/Prelude/Outcomes.antt =====
-- A Python call that may raise. An exception is its class and its message.
use mathlib.Core.List.{List}
use mathlib.Core.Option.{Option, none, some}
use mathlib.Core.Logic.{◌⊎◌, inl, inr}
use mathlib.Core.Path.{◌≡◌, refl}
use Prim.Native.Nat.{ℕ}

-- The classes that the code tells apart in an `except` clause, or raises itself.
pub data ExnClass : Type 0 where
  value_error type_error attribute_error runtime_error key_error index_error : ExnClass
  assertion_error os_error identity_error note_signature_error other_error : ExnClass

pub record Exn : Type 0 where
  pub class : ExnClass
  pub message : List ℕ

pub data Outcome {ℓ} (A : Type ℓ) : Type ℓ where
  returned : A → Outcome A
  raised : Exn → Outcome A

-- The value of a call that returned.
abbrev pub result {ℓ} : {A : Type ℓ} → Outcome A → Option A
result (returned a) = some a
result (raised e) = none

infixl 5 ◌>>=◌
abbrev pub ◌>>=◌ {ℓ κ} : {A : Type ℓ} {B : Type κ} → Outcome A → (A → Outcome B) → Outcome B
returned a >>= f = f a
raised e >>= f = raised e

pub >>=-eq-returned {ℓ κ} :
    {A : Type ℓ} {B : Type κ} (m : Outcome A) (f : A → Outcome B) {b : B}
    → (m >>= f) ≡ returned b
    → (a : A) × (m ≡ returned a) × (f a ≡ returned b)
>>=-eq-returned (returned a) f h = (a, refl, h)
>>=-eq-returned (raised e) f h = cc

pub Outcome-cases {ℓ} :
    {A : Type ℓ} (m : Outcome A) → ((e : Exn) × (m ≡ raised e)) ⊎ ((a : A) × (m ≡ returned a))
Outcome-cases (returned a) = inr (a, refl)
Outcome-cases (raised e) = inl (e, refl)
