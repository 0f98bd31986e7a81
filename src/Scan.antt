-- ===== src/Scan.antt =====
-- A reader of SQL text that is independent of the generator: it follows string literals and quoted
-- identifiers, and collects the placeholders that stand outside of both.
pub mod Silent
pub mod Quoted
pub mod Span
use cpplinq.Common.{
  ℕ, Bool, true, false, ◌&&◌, ◌||◌, not, List, [], ◌∷◌, ltb, ◌==◌, if◌then◌else◌, is_empty,
}
use cpplinq.Text.{Text}

-- How a database quotes identifiers.
pub data Style : Type 0 where
  double_quoted backticked bracketed : Style

abbrev pub open_of : Style → ℕ
open_of double_quoted = b'"'
open_of backticked = b'`'
open_of bracketed = b'['

abbrev pub close_of : Style → ℕ
close_of double_quoted = b'"'
close_of backticked = b'`'
close_of bracketed = b']'

pub data Mode : Type 0 where
  plain in_literal in_identifier : Mode

-- A doubled quote leaves the quotes and enters them again at once.
unfoldable pub next : Style → Mode → ℕ → Mode
next s plain c =
    if c == 39
    then in_literal
    else if c == open_of s || c == close_of s
    then in_identifier
    else plain
next s in_literal c = if c == 39 then plain else in_literal
next s in_identifier c = if c == close_of s then plain else in_identifier

-- A question mark, and a code above the bytes, which stands for a numbered placeholder.
abbrev pub is_mark : ℕ → Bool
is_mark c = c == b'?' || not (ltb c 256)

abbrev pub is_plain : Mode → Bool
is_plain plain = true
is_plain in_literal = false
is_plain in_identifier = false

-- The placeholders outside quotes, in the order of the text.
unfoldable pub marks : Style → Mode → Text → List ℕ
unfolding next
marks s m [] = []
marks s m (c ∷ t) =
    let rest = marks s (next s m c) t in if is_plain m && is_mark c then c ∷ rest else rest

unfoldable pub final : Style → Mode → Text → Mode
unfolding next
final s m [] = m
final s m (c ∷ t) = final s (next s m c) t

-- No placeholder outside quotes, and every quote is closed.
abbrev pub silent : Style → Text → Bool
silent s t = is_empty (marks s plain t) && is_plain (final s plain t)
