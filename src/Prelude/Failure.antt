-- ===== src/Prelude/Failure.antt =====
-- A Go call that returns a value, returns an error, or panics.
use mathlib.Core.Bool.{Bool, true, false}
use mathlib.Core.Path.{◌≡◌, refl}
use mathlib.Core.Logic.{◌⊎◌, inl, inr}

-- The errors that the modelled code tells apart; the text of a message is not modelled.
pub data Error : Type 0 where
  invalid_id invalid_bits invalid_degree invalid_succ_list : Error
  empty_input not_hex exceeds_space : Error

pub data Outcome {ℓ} (A : Type ℓ) : Type ℓ where
  ok : A → Outcome A
  err : Error → Outcome A
  panic : Outcome A

infixl 5 ◌>>=◌ ◌>>◌
abbrev pub ◌>>=◌ {ℓ κ} : {A : Type ℓ} {B : Type κ} → Outcome A → (A → Outcome B) → Outcome B
ok a >>= f = f a
err e >>= f = err e
panic >>= f = panic

abbrev pub ◌>>◌ {ℓ} : {B : Type ℓ} → Outcome (Unit {0}) → Outcome B → Outcome B
m >> k = m >>= λ _. k

-- `if !b { return err }`
abbrev pub ensure : Bool → Error → Outcome (Unit {0})
ensure true e = ok tt
ensure false e = err e

-- A call that returns a value or an error of a type of its own.
pub data Result {ℓ κ} (E : Type ℓ) (A : Type κ) : Type (ℓ ⊔ κ) where
  returned : A → Result E A
  refused : E → Result E A

pub Result-cases {ℓ κ} :
    {E : Type ℓ} {A : Type κ} (x : Result E A)
    → ((a : A) × (x ≡ returned a)) ⊎ ((e : E) × (x ≡ refused e))
Result-cases (returned a) = inl (a, refl)
Result-cases (refused e) = inr (e, refl)
