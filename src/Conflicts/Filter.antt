-- ===== src/Conflicts/Filter.antt =====
-- The loop of the Oracle dialect that leaves out conflict columns, against a relation between lists.
use cpplinq.Common.{
  ℕ, Bool, true, false, ◌||◌, List, [], ◌∷◌, ◌++◌, ◌≡◌, refl, ap, sym, subst, ◌∙◌, arith, ◌==◌,
  &&-left, &&-right, if◌then◌else◌,
}
use cpplinq.Text.{Text, same}
use cpplinq.Dialect.Oracle.{has_column, non_conflict}

-- A column stands in a list.
pub data IsIn (col : Text) : List Text → Type 0 where
  here : {cols : List Text} → IsIn col (col ∷ cols)
  there : {c : Text} {cols : List Text} → IsIn col cols → IsIn col (c ∷ cols)

-- The update columns without those that are conflict columns, in order.
pub data Kept (conflict_columns : List Text) : List Text → List Text → Type 0 where
  no_columns : Kept conflict_columns [] []
  kept :
      {us vs : List Text} (u : Text)
      → ¬ IsIn u conflict_columns
      → Kept conflict_columns us vs
      → Kept conflict_columns (u ∷ us) (u ∷ vs)
  left_out :
      {us vs : List Text} (u : Text)
      → IsIn u conflict_columns
      → Kept conflict_columns us vs
      → Kept conflict_columns (u ∷ us) vs

same_codes : (c d : ℕ) → (c == d) ≡ true → c ≡ d
same_codes c d h = ground arith

same-equal : (s t : Text) → same s t ≡ true → s ≡ t
unfolding same
same-equal [] [] h = refl
same-equal [] (d ∷ t) h = absurd (ground (arith, h))
same-equal (c ∷ s) [] h = absurd (ground (arith, h))
same-equal (c ∷ s) (d ∷ t) h =
    ap (λ x. x ∷ s) (same_codes c d (&&-left _ _ h))
    ∙ ap (λ l. d ∷ l) (same-equal s t (&&-right (c == d) _ h))

same_self : (s : Text) → same s s ≡ true
unfolding same
same_self [] = refl
same_self (c ∷ s) = ground (arith, same_self s)

pub has_column-IsIn : {u : Text} {cs : List Text} → IsIn u cs → has_column u cs ≡ true
unfolding has_column
has_column-IsIn {u} IsIn.here = ground (arith, same_self u)
has_column-IsIn (IsIn.there h) = ground (arith, has_column-IsIn h)

IsIn-has_column : (u : Text) (cs : List Text) → has_column u cs ≡ true → IsIn u cs
unfolding has_column
IsIn-has_column u [] h = absurd (ground (arith, h))
IsIn-has_column u (c ∷ cs) h = go (same c u) refl h (IsIn-has_column u cs)
  where
    go :
        (b : Bool)
        → same c u ≡ b
        → (b || has_column u cs) ≡ true
        → (has_column u cs ≡ true → IsIn u cs)
        → IsIn u (c ∷ cs)
    go true e k rest = subst (λ x. IsIn u (x ∷ cs)) (sym (same-equal c u e)) IsIn.here
    go false e k rest = IsIn.there (rest k)

kept_first :
    (u : Text) (cs us vs : List Text)
    → ¬ IsIn u cs
    → non_conflict cs us ≡ vs
    → non_conflict cs (u ∷ us) ≡ u ∷ vs
unfolding non_conflict
kept_first u cs us vs new rest = go (has_column u cs) refl
  where
    go :
        (b : Bool) → has_column u cs ≡ b → (if b then [] else u ∷ []) ++ non_conflict cs us ≡ u ∷ vs
    go true e = absurd (new (IsIn-has_column u cs e))
    go false e = ap (λ l. u ∷ l) rest

pub non_conflict-Kept : {cs us vs : List Text} → Kept cs us vs → non_conflict cs us ≡ vs
unfolding non_conflict
non_conflict-Kept Kept.no_columns = refl
non_conflict-Kept (Kept.kept u new h) = kept_first _ _ _ _ new (non_conflict-Kept h)
non_conflict-Kept (Kept.left_out u old h) = ground (arith, has_column-IsIn old, non_conflict-Kept h)

-- There is such a list for any columns: the loop makes it.
Kept-non_conflict : (cs us : List Text) → Kept cs us (non_conflict cs us)
unfolding non_conflict
Kept-non_conflict cs [] = Kept.no_columns
Kept-non_conflict cs (u ∷ us) = go (has_column u cs) refl (Kept-non_conflict cs us)
  where
    go :
        (b : Bool)
        → has_column u cs ≡ b
        → Kept cs us (non_conflict cs us)
        → Kept cs (u ∷ us) ((if b then [] else u ∷ []) ++ non_conflict cs us)
    go true e h = Kept.left_out u (IsIn-has_column u cs e) h
    go false e h = Kept.kept u (λ i. absurd (ground (arith, e, has_column-IsIn i))) h
