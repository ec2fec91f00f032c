-- ===== src/Prelude/Outcomes.antt =====
-- A Python call that returns a value or raises an error, and the values of unknown type that the
-- validators test with `isinstance`.
use Prim.Native.String.{String}
use mathlib.Core.Bool.{Bool, true, false}
use mathlib.Core.Path.{◌≡◌, refl, subst}
use mathlib.Core.Logic.{◌⊎◌, inl, inr}
use mitigate_ai_platform.Prelude.Int.{ℤ}

pub data Attempt {ℓ κ} (E : Type κ) (A : Type ℓ) : Type (ℓ ⊔ κ) where
  returned : A → Attempt E A
  raised : E → Attempt E A

-- `missing` is `None`, or an entry that is not there; `other` is a value of any other type.
pub data Value : Type 0 where
  missing other : Value
  str : String → Value
  number : ℤ → Value
  flag : Bool → Value

module _ {E : Type 0} where
  abbrev pub and_then : {A B : Type 0} → Attempt E A → (A → Attempt E B) → Attempt E B
  and_then (returned a) f = f a
  and_then (raised e) f = raised e

  abbrev pub require : Bool → E → Attempt E (Unit {0})
  require true e = returned tt
  require false e = raised e

  -- Inversion of a sequence that returns.
  pub and_then-eq-returned :
      {A B : Type 0} (m : Attempt E A) (f : A → Attempt E B) {b : B}
      → and_then m f ≡ returned b
      → (a : A) × (m ≡ returned a) × (f a ≡ returned b)
  and_then-eq-returned (returned a) f h = (a, refl, h)
  and_then-eq-returned (raised e) f h = cc

  pub Attempt-cases :
      {A : Type 0} (m : Attempt E A) → ((a : A) × (m ≡ returned a)) ⊎ ((e : E) × (m ≡ raised e))
  Attempt-cases (returned a) = inl (a, refl)
  Attempt-cases (raised e) = inr (e, refl)

pub require-true :
    {E : Type 0} (b : Bool) (e : E) {u : Unit {0}} → require b e ≡ returned u → b ≡ true
require-true true e h = refl
require-true false e h = cc

-- What holds of the value that is returned, if one is.
abbrev pub Returns : {E A : Type 0} → (A → Type 0) → Attempt E A → Type 0
Returns P (returned a) = P a
Returns P (raised e) = Unit

pub record Ensures {E A : Type 0} (P : A → Type 0) (r : Attempt E A) : Type 0 where
  pub ensured : Returns P r

pub Ensures-bind :
    {E A B : Type 0} {P : B → Type 0} (m : Attempt E A) (f : A → Attempt E B)
    → ((a : A) → m ≡ returned a → Ensures P (f a))
    → Ensures P (and_then m f)
Ensures-bind (returned a) f h = h a refl
Ensures-bind (raised e) f h = record { ensured = tt }

pub Ensures-returned :
    {E A : Type 0} {P : A → Type 0} (m : Attempt E A) {a : A} → Ensures P m → m ≡ returned a → P a
Ensures-returned {P = P} (returned b) {a} h e = let same : b ≡ a = cc in subst P same h.ensured
Ensures-returned (raised e) h e' = cc
