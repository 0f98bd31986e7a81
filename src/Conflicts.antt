-- ===== src/Conflicts.antt =====
-- What an Oracle MERGE does with its update columns.
pub mod Filter
use cpplinq.Common.{
  ℕ, true, false, List, [], ◌∷◌, ◌++◌, ◌≡◌, refl, ap, append-nil, ◌∙◌, append_assoc, arith, Outcome,
  ok, is_empty, map,
}
use cpplinq.Text.{Text, codes, starts_with, join, join_rest}
use cpplinq.Value.{BoundValue}
use cpplinq.Dialect.Quote.{pair_list, column_list}
use cpplinq.Dialect.Oracle.{
  quote_id, non_conflict, merge_update, source_list, selected, merge, generate_upsert,
}
use cpplinq.Conflicts.Filter.{Kept, non_conflict-Kept}

-- What the statement says of the columns that are updated: nothing if there are none.
abbrev pub more_updates : List Text → Text
more_updates [] = []
more_updates (v ∷ vs) =
    codes ", target." ++ (quote_id v ++ (codes " = source." ++ (quote_id v ++ more_updates vs)))

abbrev pub updates : List Text → Text
updates [] = []
updates (v ∷ vs) =
    codes " WHEN MATCHED THEN UPDATE SET target."
    ++ (quote_id v ++ (codes " = source." ++ (quote_id v ++ more_updates vs)))

assignment : Text → Text
assignment c = codes "target." ++ (quote_id c ++ (codes " = source." ++ (quote_id c ++ codes "")))

assignment_first :
    (left name middle rest : Text)
    → (left ++ (name ++ (middle ++ (name ++ [])))) ++ rest
      ≡ left ++ (name ++ (middle ++ (name ++ rest)))
assignment_first left name middle rest = simp (append_assoc, append-nil)

more_assignments : (vs : List Text) → join_rest (codes ", ") (map assignment vs) ≡ more_updates vs
unfolding join_rest assignment
more_assignments [] = refl
more_assignments (v ∷ vs) =
    ap (λ t. codes ", " ++ t)
      (assignment_first (codes "target.") (quote_id v) (codes " = source.")
        (join_rest (codes ", ") (map assignment vs)))
    ∙ ap (λ t. codes ", target." ++ (quote_id v ++ (codes " = source." ++ (quote_id v ++ t))))
        (more_assignments vs)

merge_update-updates : (vs : List Text) → merge_update vs ≡ updates vs
unfolding merge_update pair_list join assignment
merge_update-updates [] = refl
merge_update-updates (v ∷ vs) =
    ap (λ t. codes " WHEN MATCHED THEN UPDATE SET " ++ t)
      (assignment_first (codes "target.") (quote_id v) (codes " = source.")
        (join_rest (codes ", ") (map assignment vs)))
    ∙ ap
        (λ t.
          codes " WHEN MATCHED THEN UPDATE SET target."
          ++ (quote_id v ++ (codes " = source." ++ (quote_id v ++ t))))
        (more_assignments vs)

-- The text of a MERGE up to its updates, and behind them.
abbrev before_updates : (ℕ → Text) → Text → List Text → List Text → Text
before_updates placeholder t is cs =
    codes "MERGE INTO "
    ++ (quote_id t
        ++ (codes " target USING (SELECT "
            ++ (selected placeholder is
                ++ (codes " FROM DUAL) source ON ("
                    ++ (pair_list quote_id (codes " AND ") (codes "target.") (codes " = source.")
                          (codes "") cs
                        ++ codes ")")))))

abbrev after_updates : List Text → Text
after_updates is =
    codes " WHEN NOT MATCHED THEN INSERT ("
    ++ (column_list quote_id is ++ (codes ") VALUES (" ++ (source_list is ++ codes ")")))

regroup :
    (a b c d e f g rest : Text)
    → a ++ (b ++ (c ++ (d ++ (e ++ (f ++ (g ++ rest))))))
      ≡ (a ++ (b ++ (c ++ (d ++ (e ++ (f ++ g)))))) ++ rest
regroup a b c d e f g rest = simp append_assoc

merge_in_parts :
    (placeholder : ℕ → Text) (t : Text) (is cs us : List Text)
    → merge placeholder t is cs us
      ≡ before_updates placeholder t is cs
        ++ (merge_update (non_conflict cs us) ++ after_updates is)
unfolding merge
merge_in_parts placeholder t is cs us =
    regroup (codes "MERGE INTO ") (quote_id t) (codes " target USING (SELECT ")
      (selected placeholder is) (codes " FROM DUAL) source ON (")
      (pair_list quote_id (codes " AND ") (codes "target.") (codes " = source.") (codes "") cs)
      (codes ")") (merge_update (non_conflict cs us) ++ after_updates is)

generate_upsert_in_parts :
    (placeholder : ℕ → Text) (t : Text) (is : List Text) (values : List BoundValue)
    (cs us vs : List Text)
    → is_empty is ≡ false
    → is_empty cs ≡ false
    → Kept cs us vs
    → generate_upsert placeholder t is values cs us
      ≡ ok (before_updates placeholder t is cs ++ (updates vs ++ after_updates is))
unfolding generate_upsert
generate_upsert_in_parts placeholder t [] values cs us vs h k filtered = absurd (ground (arith, h))
generate_upsert_in_parts placeholder t (i ∷ is) values [] us vs h k filtered =
    absurd (ground (arith, k))
generate_upsert_in_parts placeholder t (i ∷ is) values (c ∷ cs) us vs h k filtered =
    ap ok (merge_in_parts placeholder t (i ∷ is) (c ∷ cs) us)
    ∙ ap
        (λ ws. ok (
          before_updates placeholder t (i ∷ is) (c ∷ cs)
          ++ (merge_update ws ++ after_updates (i ∷ is))))
        (non_conflict-Kept filtered)
    ∙ ap (λ w. ok (before_updates placeholder t (i ∷ is) (c ∷ cs) ++ (w ++ after_updates (i ∷ is))))
        (merge_update-updates vs)

-- For every table, insert columns and conflict columns that are not empty, and update columns: the
-- Oracle MERGE is the one without update columns, with a clause put in front of its
-- WHEN NOT MATCHED that sets the update columns that are no conflict columns, in order, each to the
-- value of its own name in the source, and that is absent where there are none.
pub generate_upsert-Kept :
    (placeholder : ℕ → Text) (table_name : Text) (insert_columns : List Text)
    (values : List BoundValue) (conflict_columns update_columns updated : List Text)
    → is_empty insert_columns ≡ false
    → is_empty conflict_columns ≡ false
    → Kept conflict_columns update_columns updated
    → (before : Text) × ((after : Text) × (generate_upsert placeholder table_name insert_columns
            values conflict_columns []
          ≡ ok (before ++ after))
        × (generate_upsert placeholder table_name insert_columns values conflict_columns
              update_columns
            ≡ ok (before ++ (updates updated ++ after)))
        × (starts_with after (codes " WHEN NOT MATCHED THEN INSERT (") ≡ true))
unfolding starts_with
generate_upsert-Kept placeholder t is values cs us vs h k filtered = (
  before_updates placeholder t is cs,
  (
    after_updates is,
    generate_upsert_in_parts placeholder t is values cs [] [] h k Kept.no_columns,
    generate_upsert_in_parts placeholder t is values cs us vs h k filtered,
    refl,
  ),
)
