-- ===== src/Text/Quiet.antt =====
-- Quiet texts: closed under concatenation, and decimal numbers are quiet.
use cpplinq.Common.{ℕ, zero, suc, ◌+◌, ◌/◌, ◌%◌, ◌<◌, ◌≡◌, refl, true, [], ◌∷◌, ◌++◌, arith}
use cpplinq.Text.{Text, quiet, quiet_char, digits, to_string}

pub quiet-append : (s t : Text) → quiet s ≡ true → quiet t ≡ true → quiet (s ++ t) ≡ true
quiet-append [] t p q = q
quiet-append (c ∷ s) t p q = ground (arith, quiet-append s t)

quiet_char-digit : (d : ℕ) → d < 10 → quiet_char (b'0' + d) ≡ true
quiet_char-digit d h = ground arith

quiet_digit : (d : ℕ) → d < 10 → quiet ((b'0' + d) ∷ []) ≡ true
quiet_digit d h = ground (arith, quiet_char-digit d)

quiet-digits : (fuel n : ℕ) → quiet (digits fuel n) ≡ true
unfolding digits
quiet-digits zero n = refl
quiet-digits (suc fuel) n = ground (
  arith,
  quiet_digit n,
  quiet-append (digits fuel (n / 10)) ((b'0' + n % 10) ∷ []) (quiet-digits fuel (n / 10))
      (quiet_digit (n % 10) (omega arith)),
)

-- Numbers print as quiet text.
pub quiet-to_string : (n : ℕ) → quiet (to_string n) ≡ true
unfolding to_string
quiet-to_string n = quiet-digits (suc n) n
