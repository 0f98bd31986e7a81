-- ===== src/Scan/Silent.antt =====
-- Texts read in pieces, and texts that show no placeholder.
use cpplinq.Common.{ℕ, List, [], ◌∷◌, ◌++◌, ◌≡◌, refl, true, arith, &&-left, &&-right, is_empty}
use cpplinq.Text.{Text, quiet}
use cpplinq.Scan.{
  Style, double_quoted, backticked, bracketed, Mode, plain, in_literal, in_identifier, next, marks,
  final, is_plain, silent,
}

pub marks-append :
    (s : Style) (m : Mode) (t u : Text)
    → marks s m (t ++ u) ≡ marks s m t ++ marks s (final s m t) u
unfolding marks final
marks-append s m [] u = refl
marks-append s plain (c ∷ t) u = ground (arith, marks-append s (next s plain c) t u)
marks-append s in_literal (c ∷ t) u = marks-append s (next s in_literal c) t u
marks-append s in_identifier (c ∷ t) u = marks-append s (next s in_identifier c) t u

pub final-append :
    (s : Style) (m : Mode) (t u : Text) → final s m (t ++ u) ≡ final s (final s m t) u
unfolding final
final-append s m [] u = refl
final-append s m (c ∷ t) u = final-append s (next s m c) t u

-- What `silent` tests.
pub record IsSilent (s : Style) (t : Text) : Type 0 where
  pub no_marks : marks s plain t ≡ []
  pub closed : final s plain t ≡ plain

no_elements : (xs : List ℕ) → is_empty xs ≡ true → xs ≡ []
no_elements [] h = refl
no_elements (x ∷ xs) h = absurd (ground arith)

pub silent-IsSilent : (s : Style) (t : Text) → silent s t ≡ true → IsSilent s t
silent-IsSilent s t h = record {
  no_marks = no_elements _ (&&-left _ _ h);
  closed = ends (final s plain t) (&&-right (is_empty (marks s plain t)) _ h);
}
  where
    ends : (m : Mode) → is_plain m ≡ true → m ≡ plain
    ends plain h = refl
    ends in_literal h = absurd (ground arith)
    ends in_identifier h = absurd (ground arith)

pub IsSilent-silent : (s : Style) (t : Text) → IsSilent s t → silent s t ≡ true
IsSilent-silent s t h = ground (arith, h.no_marks, h.closed)

pub IsSilent-append : (s : Style) (t u : Text) → IsSilent s t → IsSilent s u → IsSilent s (t ++ u)
IsSilent-append s t u g h = record {
  no_marks = ground (arith, marks-append s plain t u, g.no_marks, g.closed, h.no_marks);
  closed = ground (arith, final-append s plain t u, g.closed, h.closed);
}

marks-quiet : (s : Style) (t : Text) → quiet t ≡ true → marks s plain t ≡ []
unfolding marks next
marks-quiet s [] h = refl
marks-quiet double_quoted (c ∷ t) h = ground (arith, marks-quiet double_quoted t)
marks-quiet backticked (c ∷ t) h = ground (arith, marks-quiet backticked t)
marks-quiet bracketed (c ∷ t) h = ground (arith, marks-quiet bracketed t)

final-quiet : (s : Style) (t : Text) → quiet t ≡ true → final s plain t ≡ plain
unfolding final next
final-quiet s [] h = refl
final-quiet double_quoted (c ∷ t) h = ground (arith, final-quiet double_quoted t)
final-quiet backticked (c ∷ t) h = ground (arith, final-quiet backticked t)
final-quiet bracketed (c ∷ t) h = ground (arith, final-quiet bracketed t)

pub quiet-IsSilent : (s : Style) (t : Text) → quiet t ≡ true → IsSilent s t
quiet-IsSilent s t h = record { no_marks = marks-quiet s t h; closed = final-quiet s t h }
