-- ===== src/Text.antt =====
-- std::string as the list of its bytes, and what the code uses of the standard library on it.
pub mod Decimal
pub mod Quiet
use Prim.Native.Char.{code}
use Prim.Native.String.{String}
use cpplinq.Common.{
  ℕ, zero, suc, ◌+◌, ◌/◌, ◌%◌, Bool, true, false, ◌&&◌, ◌||◌, not, List, [], ◌∷◌, ◌++◌, ltb, ◌==◌,
  if◌then◌else◌,
}

abbrev pub Text : Type 0
Text = List ℕ

-- The bytes of an ASCII literal.
abbrev pub codes : String → Text
codes String.[] = []
codes (String.◌∷◌ c s) = code c ∷ codes s

-- operator== of two strings.
unfoldable pub same : Text → Text → Bool
same [] [] = true
same [] (d ∷ t) = false
same (c ∷ s) [] = false
same (c ∷ s) (d ∷ t) = c == d && same s t

unfoldable pub starts_with : Text → Text → Bool
starts_with s [] = true
starts_with [] (d ∷ t) = false
starts_with (c ∷ s) (d ∷ t) = c == d && starts_with s t

-- s.find(t) != std::string::npos
unfoldable pub contains : Text → Text → Bool
unfolding starts_with
contains [] t = starts_with [] t
contains (c ∷ s) t = starts_with (c ∷ s) t || contains s t

-- The rounds of std::to_string on an unsigned number, the last digit split off first.
unfoldable pub digits : ℕ → ℕ → Text
digits zero n = []
digits (suc fuel) n =
    let rest = digits fuel (n / 10) ++ (b'0' + n % 10) ∷ [] in
    if ltb n 10 then (b'0' + n) ∷ [] else rest

unfoldable pub to_string : ℕ → Text
unfolding digits
to_string n = digits (suc n) n

-- for (size_t i = 0; i < items.size(); ++i) { if (i > 0) sql += sep; sql += items[i]; }
unfoldable pub join_rest : Text → List Text → Text
join_rest sep [] = []
join_rest sep (t ∷ ts) = sep ++ (t ++ join_rest sep ts)

unfoldable pub join : Text → List Text → Text
unfolding join_rest
join sep [] = []
join sep (t ∷ ts) = t ++ join_rest sep ts

-- A byte that no reader of SQL text takes for a quote, a bracket or a placeholder.
abbrev pub quiet_char : ℕ → Bool
quiet_char c =
    ltb c 128
    && not (c == b'"' || (c == 39 || (c == b'?' || (c == b'[' || (c == b']' || c == b'`')))))

abbrev pub quiet : Text → Bool
quiet [] = true
quiet (c ∷ t) = quiet_char c && quiet t
