-- ===== src/Text/Decimal.antt =====
-- Reading back what to_string prints.

use cpplinq.Common.{ℕ, zero, suc, ◌+◌, ◌-◌, ◌*◌, ◌/◌, ◌%◌, ◌<◌, ◌≡◌, refl, [], ◌∷◌, ◌++◌, arith}
use cpplinq.Text.{Text, digits, to_string}

-- The number that a row of decimal digits stands for, read from the left after `acc`.
pub value_from : ℕ → Text → ℕ
value_from acc [] = acc
value_from acc (c ∷ t) = value_from (acc * 10 + (c - b'0')) t

value_from-append :
    (acc : ℕ) (s t : Text) → value_from acc (s ++ t) ≡ value_from (value_from acc s) t
unfolding value_from
value_from-append acc [] t = refl
value_from-append acc (c ∷ s) t = value_from-append (acc * 10 + (c - b'0')) s t

value_from_last : (acc d : ℕ) → value_from acc ((b'0' + d) ∷ []) ≡ acc * 10 + d
unfolding value_from
value_from_last acc d = omega arith

value_from-digits : (fuel n : ℕ) → n < fuel → value_from 0 (digits fuel n) ≡ n
unfolding digits
value_from-digits zero n h = absurd (omega arith)
value_from-digits (suc fuel) n h = ground (
  arith,
  value_from_last 0 n,
  value_from-append 0 (digits fuel (n / 10)) ((b'0' + n % 10) ∷ []),
  value_from_last (value_from 0 (digits fuel (n / 10))) (n % 10),
  value_from-digits fuel (n / 10),
)

-- A printed number reads back as itself.
pub value_from-to_string : (n : ℕ) → value_from 0 (to_string n) ≡ n
unfolding to_string
value_from-to_string n = value_from-digits (suc n) n (omega arith)
