-- ===== src/Prelude/Outcome.antt =====
-- A Go call that returns a value and an error: the value, or an error of the caller's type.
use mathlib.Core.Path.{◌≡◌, refl}
use mathlib.Core.Logic.{◌⊎◌, inl, inr}
use mathlib.Core.Bool.{Bool, true, false}

pub data Result {ℓ κ} (E : Type κ) (A : Type ℓ) : Type (ℓ ⊔ κ) where
  ok : A → Result E A
  err : E → Result E A

infixl 5 ◌>>=◌ ◌>>◌
abbrev pub ◌>>=◌ {ℓ ℓ' κ} :
    {E : Type κ} {A : Type ℓ} {B : Type ℓ'} → Result E A → (A → Result E B) → Result E B
ok a >>= f = f a
err e >>= f = err e

abbrev pub ◌>>◌ {ℓ κ} : {E : Type κ} {B : Type ℓ} → Result E (Unit {0}) → Result E B → Result E B
m >> k = m >>= λ _. k

-- `if cond { return err }`
abbrev pub refuse_if {κ} : {E : Type κ} → Bool → E → Result E (Unit {0})
refuse_if true e = err e
refuse_if false e = ok tt

-- To split on a computed result and keep the equation.
pub Result-cases {ℓ ℓ'} :
    {E : Type ℓ} {A : Type ℓ'} (r : Result E A) → ((a : A) × (r ≡ ok a)) ⊎ ((e : E) × (r ≡ err e))
Result-cases (ok a) = inl (a, refl)
Result-cases (err e) = inr (e, refl)
