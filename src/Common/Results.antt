-- ===== src/Common/Results.antt =====
-- What a call returns or throws. One constructor for each class of exception that the code throws.
use mathlib.Core.Bool.{Bool, true, false}

pub data Exception : Type 0 where
  invalid_argument out_of_range db_exception operation_cancelled : Exception

pub data Outcome {ℓ} (A : Type ℓ) : Type ℓ where
  ok : A → Outcome A
  throws : Exception → Outcome A

infixl 5 ◌>>=◌
abbrev pub ◌>>=◌ {ℓ κ} : {A : Type ℓ} {B : Type κ} → Outcome A → (A → Outcome B) → Outcome B
ok a >>= f = f a
throws e >>= f = throws e

abbrev pub returns {ℓ} : {A : Type ℓ} → Outcome A → Bool
returns (ok a) = true
returns (throws e) = false
