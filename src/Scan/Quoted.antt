-- ===== src/Scan/Quoted.antt =====
-- Identifiers and string literals with their quotes doubled show no placeholder.
use cpplinq.Common.{[], ◌∷◌, ◌++◌, ◌≡◌, refl, arith}
use cpplinq.Text.{Text}
use cpplinq.Dialect.Quote.{escape, quote_with}
use cpplinq.Scan.{
  Style, double_quoted, backticked, bracketed, plain, in_literal, in_identifier, next, marks, final,
  open_of, close_of,
}
use cpplinq.Scan.Silent.{IsSilent, marks-append, final-append}

-- Inside the quotes of an identifier, and up to the closing quote.
marks-escape :
    (s : Style) (t u : Text)
    → marks s in_identifier (escape (close_of s) t ++ u) ≡ marks s in_identifier u
unfolding marks escape next
marks-escape s [] u = refl
marks-escape double_quoted (c ∷ t) u = ground (arith, marks-escape double_quoted t u)
marks-escape backticked (c ∷ t) u = ground (arith, marks-escape backticked t u)
marks-escape bracketed (c ∷ t) u = ground (arith, marks-escape bracketed t u)

final-escape :
    (s : Style) (t u : Text)
    → final s in_identifier (escape (close_of s) t ++ u) ≡ final s in_identifier u
unfolding final escape next
final-escape s [] u = refl
final-escape double_quoted (c ∷ t) u = ground (arith, final-escape double_quoted t u)
final-escape backticked (c ∷ t) u = ground (arith, final-escape backticked t u)
final-escape bracketed (c ∷ t) u = ground (arith, final-escape bracketed t u)

pub quote_with-IsSilent :
    (s : Style) (id : Text) → IsSilent s (quote_with (open_of s) (close_of s) id)
unfolding quote_with marks final next
quote_with-IsSilent double_quoted id = record {
  no_marks = marks-escape double_quoted id (b'"' ∷ []);
  closed = final-escape double_quoted id (b'"' ∷ []);
}
quote_with-IsSilent backticked id = record {
  no_marks = marks-escape backticked id (b'`' ∷ []);
  closed = final-escape backticked id (b'`' ∷ []);
}
quote_with-IsSilent bracketed id = record {
  no_marks = marks-escape bracketed id (b']' ∷ []);
  closed = final-escape bracketed id (b']' ∷ []);
}

marks-literal :
    (s : Style) (t u : Text) → marks s in_literal (escape 39 t ++ u) ≡ marks s in_literal u
unfolding marks escape next
marks-literal s [] u = refl
marks-literal s (c ∷ t) u = ground (arith, marks-literal s t u)

final-literal :
    (s : Style) (t u : Text) → final s in_literal (escape 39 t ++ u) ≡ final s in_literal u
unfolding final escape next
final-literal s [] u = refl
final-literal s (c ∷ t) u = ground (arith, final-literal s t u)

-- A string literal between two other texts that both close what they open.
pub literal-IsSilent :
    (s : Style) (before t behind : Text)
    → marks s plain before ≡ []
    → final s plain before ≡ in_literal
    → marks s in_literal behind ≡ []
    → final s in_literal behind ≡ plain
    → IsSilent s (before ++ (escape 39 t ++ behind))
literal-IsSilent s before t behind b1 b2 h1 h2 = record {
  no_marks = ground (
    arith,
    marks-append s plain before (escape 39 t ++ behind),
    b1,
    b2,
    marks-literal s t behind,
    h1,
  );
  closed = ground (
    arith,
    final-append s plain before (escape 39 t ++ behind),
    b2,
    final-literal s t behind,
    h2,
  );
}
