-- ===== src/Scan/Span.antt =====
-- The relation of a text to the placeholders it shows.
use cpplinq.Common.{ℕ, zero, suc, ◌+◌, List, [], ◌∷◌, ◌++◌, ◌≡◌, refl, ap, ◌∙◌, arith, length}
use cpplinq.Text.{Text}
use cpplinq.Scan.{Style, plain, marks, final}
use cpplinq.Scan.Silent.{IsSilent, marks-append, final-append, quiet-IsSilent}
use cpplinq.Agree.Relation.{Relation}

-- The marks of the parameters i, i + 1, and so on.
unfoldable pub numbered : (ℕ → ℕ) → ℕ → ℕ → List ℕ
numbered mark i zero = []
numbered mark i (suc n) = mark i ∷ numbered mark (suc i) n

suc_plus : (m n : ℕ) → suc m + n ≡ suc (m + n)
suc_plus m n = omega arith

suc_shift : (i m : ℕ) → suc i + m ≡ i + suc m
suc_shift i m = omega arith

pub numbered-append :
    (mark : ℕ → ℕ) (i m n : ℕ)
    → numbered mark i (m + n) ≡ numbered mark i m ++ numbered mark (i + m) n
unfolding numbered
numbered-append mark i zero n = ground arith
numbered-append mark i (suc m) n =
    ap (λ k. numbered mark i k) (suc_plus m n)
    ∙ ap (λ l. mark i ∷ l)
        (numbered-append mark (suc i) m n
          ∙ ap (λ k. numbered mark (suc i) m ++ numbered mark k n) (suc_shift i m))

pub length-numbered : (mark : ℕ → ℕ) (i n : ℕ) → length (numbered mark i n) ≡ n
unfolding numbered
length-numbered mark i zero = refl
length-numbered mark i (suc n) = ap suc (length-numbered mark (suc i) n)

-- The text shows the parameters from i on, below j, and closes its quotes.
pub record Span (s : Style) (mark : ℕ → ℕ) (i j : ℕ) (t : Text) : Type 0 where
  pub size : ℕ
  pub ends : j ≡ i + size
  pub shown : marks s plain t ≡ numbered mark i size
  pub closed : final s plain t ≡ plain

zero_plus : (j n : ℕ) → j ≡ 0 + n → n ≡ j
zero_plus j n h = omega (arith, h)

-- A text that begins with the first parameter.
pub Span-numbered :
    (s : Style) (mark : ℕ → ℕ) (j : ℕ) (t : Text)
    → Span s mark 0 j t
    → marks s plain t ≡ numbered mark 0 j
Span-numbered s mark j t h = h.shown ∙ ap (λ n. numbered mark 0 n) (zero_plus j h.size h.ends)

module _ (s : Style) (mark : ℕ → ℕ) where
  pub silent-Span : (i : ℕ) (t : Text) → IsSilent s t → Span s mark i i t
  unfolding numbered
  silent-Span i t h = record { size = 0; ends = omega arith; shown = h.no_marks; closed = h.closed }

  pub append-Span :
      (i j k : ℕ) (t u : Text) → Span s mark i j t → Span s mark j k u → Span s mark i k (t ++ u)
  append-Span i j k t u g h = record {
    size = g.size + h.size;
    ends = omega (arith, g.ends, h.ends);
    shown = ground (
      arith,
      marks-append s plain t u,
      g.closed,
      g.shown,
      h.shown,
      g.ends,
      numbered-append mark i g.size h.size,
    );
    closed = ground (arith, final-append s plain t u, g.closed, h.closed);
  }

  unfoldable pub spans : Relation
  spans = record {
    Rel = λ i j t t'. Span s mark i j t;
    quiet_rel = λ i t q. silent-Span i t (quiet-IsSilent s t q);
    append_rel = λ i j k t t' u u' g h. append-Span i j k t u g h;
  }
