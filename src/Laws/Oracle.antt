-- ===== src/Laws/Oracle.antt =====
-- OracleDialect.
use cpplinq.Common.{
  arith, ℕ, suc, List, [], ◌∷◌, ◌++◌, ◌≡◌, refl, true, false, Option, none, some, ok, length,
  is_empty,
}
use cpplinq.Text.{Text, codes, quiet, to_string}
use cpplinq.Value.{
  SqlType, integer, big_int, unsigned_big_int, real, decimal, text, wstring, blob, boolean, date,
  time, timestamp, interval, guid, BoundValue,
}
use cpplinq.Expr.{DatePart, year, month, day}
use cpplinq.Generator.Visit.{part_text}
use cpplinq.Dialect.Quote.{default_create_table_prefix}
use cpplinq.Dialect.Oracle
use cpplinq.Dialect.Oracle.{
  quote_id, timestamp_of, limit_offset, type_name, function_name, extract_part_func,
  date_add_days_func, assignments, merge_update, non_conflict, source_list, selected, merge,
  oracle_with,
}
use cpplinq.Scan.{double_quoted, marks, final, next}
use cpplinq.Agree.Relation.{Relation, Agree, BothReturn}
use cpplinq.Agree.Texts.{before, cat, behind, column_list_rel, pair_list_rel, end_at, join_imap_rel}
use cpplinq.Laws.Keeps.{Keeps, quiet_ok, quiet_between, quoted_rel, around, literal_rel}

limit_offset-quiet : (l o : Option ℕ) (t : Text) → limit_offset l o ≡ ok t → quiet t ≡ true
unfolding limit_offset
limit_offset-quiet (some l) (some o) t h =
    quiet_ok _ t
      (quiet_between (codes " OFFSET ") o
        (codes " ROWS FETCH NEXT " ++ (to_string l ++ codes " ROWS ONLY")) refl
        (quiet_between (codes " ROWS FETCH NEXT ") l (codes " ROWS ONLY") refl refl))
      h
limit_offset-quiet none (some o) t h =
    quiet_ok _ t (quiet_between (codes " OFFSET ") o (codes " ROWS") refl refl) h
limit_offset-quiet (some l) none t h =
    quiet_ok _ t
      (quiet_between (codes " OFFSET 0 ROWS FETCH NEXT ") l (codes " ROWS ONLY") refl refl) h
limit_offset-quiet none none t h = quiet_ok _ t refl h

type_name-quiet : (t : SqlType) → quiet (type_name t) ≡ true
unfolding type_name
type_name-quiet integer = refl
type_name-quiet big_int = refl
type_name-quiet unsigned_big_int = refl
type_name-quiet real = refl
type_name-quiet decimal = refl
type_name-quiet text = refl
type_name-quiet wstring = refl
type_name-quiet blob = refl
type_name-quiet boolean = refl
type_name-quiet date = refl
type_name-quiet time = refl
type_name-quiet timestamp = refl
type_name-quiet interval = refl
type_name-quiet guid = refl

module _ (r : Relation) (p p' : ℕ → Text) (keeps : Keeps r double_quoted p p') where
  id_rel : (i : ℕ) (id : Text) → r.Rel i i (quote_id id) (quote_id id)
  unfolding quote_id
  id_rel = quoted_rel r double_quoted p p' keeps

  timestamp_rel :
      (i j : ℕ) (t t' : Text) → r.Rel i j t t' → r.Rel i j (timestamp_of t) (timestamp_of t')
  unfolding marks final next
  timestamp_rel i j t t' h =
      around r double_quoted p p' keeps (codes "TO_TIMESTAMP(SUBSTR(")
        (codes ", 1, 19), 'YYYY-MM-DD HH24:MI:SS')") refl refl h

  extract_rel :
      (i j : ℕ) (part : DatePart) (t t' : Text)
      → r.Rel i j t t'
      → r.Rel i j (extract_part_func (part_text part) t) (extract_part_func (part_text part) t')
  unfolding extract_part_func part_text marks final next
  extract_rel i j year t t' h =
      cat r (r.quiet_rel i (codes "EXTRACT(YEAR FROM ") refl)
        (behind r (codes ")") refl (timestamp_rel i j t t' h))
  extract_rel i j month t t' h =
      cat r (r.quiet_rel i (codes "EXTRACT(MONTH FROM ") refl)
        (behind r (codes ")") refl (timestamp_rel i j t t' h))
  extract_rel i j day t t' h =
      cat r (r.quiet_rel i (codes "EXTRACT(DAY FROM ") refl)
        (behind r (codes ")") refl (timestamp_rel i j t t' h))

  assignments_rel :
      (i : ℕ) (sep : Text) (columns : List Text)
      → quiet sep ≡ true
      → r.Rel i i (assignments sep columns) (assignments sep columns)
  assignments_rel i sep columns h =
      pair_list_rel r _ _ sep (codes "target.") (codes " = source.") (codes "") h refl refl refl
        id_rel columns i

  merge_update_rel : (i : ℕ) (us : List Text) → r.Rel i i (merge_update us) (merge_update us)
  unfolding merge_update
  merge_update_rel i [] = r.quiet_rel i (codes "") refl
  merge_update_rel i (u ∷ us) =
      before r (codes " WHEN MATCHED THEN UPDATE SET ") refl
        (assignments_rel i (codes ", ") (u ∷ us) refl)

  source_rel : (i : ℕ) (columns : List Text) → r.Rel i i (source_list columns) (source_list columns)
  unfolding source_list
  source_rel i columns =
      column_list_rel r _ _ (λ k c. before r (codes "source.") refl (id_rel k c)) columns i

  selected_rel : (is : List Text) → r.Rel 0 (length is) (selected p is) (selected p' is)
  unfolding selected
  selected_rel is = end_at r (omega arith) (
      join_imap_rel r (codes ", ") refl _ _
        (λ i c. cat r (keeps.placeholder_rel i) (before r (codes " AS ") refl (id_rel (suc i) c)))
        is 0)

  merge_rel :
      (table_name : Text) (is cs us : List Text)
      → r.Rel 0 (length is) (merge p table_name is cs us) (merge p' table_name is cs us)
  unfolding merge marks final next
  merge_rel table_name is cs us =
      cat r (literal_rel r double_quoted p p' keeps _ (codes "MERGE INTO ") refl) (
        cat r (id_rel _ table_name) (
          cat r (literal_rel r double_quoted p p' keeps _ (codes " target USING (SELECT ") refl) (
            cat r (selected_rel is) (
              cat r
                (literal_rel r double_quoted p p' keeps _ (codes " FROM DUAL) source ON (") refl)
                (cat r (assignments_rel _ (codes " AND ") cs refl) (
                  cat r (literal_rel r double_quoted p p' keeps _ (codes ")") refl) (
                    cat r (merge_update_rel _ (non_conflict cs us)) (
                      cat r
                        (literal_rel r double_quoted p p' keeps _
                          (codes " WHEN NOT MATCHED THEN INSERT (") refl)
                        (cat r (column_list_rel r _ _ id_rel is _) (
                          cat r (literal_rel r double_quoted p p' keeps _ (codes ") VALUES (") refl)
                            (cat r (source_rel _ is)
                              (literal_rel r double_quoted p p' keeps _ (codes ")") refl))))))))))))

  upsert_rel :
      (table_name : Text) (is : List Text) (values : List BoundValue) (cs us : List Text)
      → is_empty is ≡ false
      → is_empty cs ≡ false
      → BothReturn
          (r.Rel 0 (length is))
          (Oracle.generate_upsert p table_name is values cs us)
          (Oracle.generate_upsert p' table_name is values cs us)
  unfolding Oracle.generate_upsert
  upsert_rel table_name [] values cs us h k = r.quiet_rel 0 (codes "") refl
  upsert_rel table_name (i ∷ is) values [] us h k = absurd (ground (arith, k))
  upsert_rel table_name (i ∷ is) values (c ∷ cs) us h k = merge_rel table_name (i ∷ is) (c ∷ cs) us

  prefix_rel :
      (i : ℕ) (table_name : Text)
      → r.Rel i i
          (default_create_table_prefix quote_id table_name)
          (default_create_table_prefix quote_id table_name)
  unfolding default_create_table_prefix
  prefix_rel i table_name =
      before r (codes "CREATE TABLE IF NOT EXISTS ") refl (id_rel i table_name)

  pub oracle-Agree : Agree r (oracle_with p) (oracle_with p')
  unfolding oracle_with Oracle.returning_clause Oracle.output_clause date_add_days_func
      function_name marks final next
  oracle-Agree = record {
    quote_id_rel = id_rel;
    placeholder_rel = keeps.placeholder_rel;
    limit_offset_same = λ l o. refl;
    limit_offset_quiet = limit_offset-quiet;
    prefix_same = λ l o. refl;
    prefix_quiet = λ l o. refl;
    type_name_same = λ t. refl;
    type_name_quiet = type_name-quiet;
    auto_increment_same = refl;
    auto_increment_quiet = refl;
    returning_clause_rel = λ i c. r.quiet_rel i (codes "") refl;
    output_clause_rel = λ i c. r.quiet_rel i (codes "") refl;
    create_table_prefix_rel = prefix_rel;
    function_name_rel = λ i f h. r.quiet_rel i f h;
    current_timestamp_rel = λ i. r.quiet_rel i (codes "CURRENT_TIMESTAMP") refl;
    current_date_rel = λ i. r.quiet_rel i (codes "CURRENT_DATE") refl;
    extract_part_rel = extract_rel;
    date_add_rel = λ i j k s s' t t' g h. before r (codes "(") refl (
        cat r (timestamp_rel i j s s' g) (
          around r double_quoted p p' keeps (codes " + NUMTODSINTERVAL(") (codes ", 'DAY'))") refl
            refl h));
    upsert_rel = λ t is vs cs us h1 h2. upsert_rel t is vs cs us h1 h2;
  }
