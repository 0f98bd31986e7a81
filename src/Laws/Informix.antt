-- ===== src/Laws/Informix.antt =====
-- InformixDialect.
use cpplinq.Common.{
  arith, ℕ, suc, List, [], ◌∷◌, ◌≡◌, refl, true, Option, none, some, ok, length, get_elem?, min,
}
use cpplinq.Text.{Text, codes, quiet, to_string}
use cpplinq.Text.Quiet.{quiet-append}
use cpplinq.Value.{
  SqlType, integer, big_int, unsigned_big_int, real, decimal, text, wstring, blob, boolean, date,
  time, timestamp, interval, guid, BoundValue, null, int64, uint64, double, string, wide,
  boolean_value, bytes, numeric, date_value, time_value, timestamp_value, interval_value,
  guid_value,
}
use cpplinq.Expr.{DatePart, year, month, day}
use cpplinq.Generator.Visit.{part_text}
use cpplinq.Dialect.Quote.{default_create_table_prefix}
use cpplinq.Dialect.Informix
use cpplinq.Dialect.Informix.{
  quote_id, limit_offset, prefix_part, select_prefix_limit_offset, type_name, function_name,
  extract_part_func, date_add_days_func, sized, get_informix_cast_type, cast_type, assignments,
  merge_update, source_list, selected, informix_with,
}
use cpplinq.Scan.{double_quoted, marks, final, next}
use cpplinq.Agree.Relation.{Relation, Agree, BothReturn}
use cpplinq.Agree.Texts.{before, cat, column_list_rel, pair_list_rel, end_at, join_imap_rel}
use cpplinq.Laws.Keeps.{Keeps, quiet_ok, quiet_between, quoted_rel, around, around_two, literal_rel}

limit_offset-quiet : (l o : Option ℕ) (t : Text) → limit_offset l o ≡ ok t → quiet t ≡ true
unfolding limit_offset
limit_offset-quiet l o t h = quiet_ok _ t refl h

prefix_part-quiet :
    (word : Text) (o : Option ℕ) → quiet word ≡ true → quiet (prefix_part word o) ≡ true
unfolding prefix_part
prefix_part-quiet word none h = refl
prefix_part-quiet word (some n) h = quiet_between word n (codes " ") h refl

prefix-quiet : (l o : Option ℕ) → quiet (select_prefix_limit_offset l o) ≡ true
unfolding select_prefix_limit_offset
prefix-quiet l o =
    quiet-append (prefix_part (codes "SKIP ") o) (prefix_part (codes "FIRST ") l)
      (prefix_part-quiet (codes "SKIP ") o refl) (prefix_part-quiet (codes "FIRST ") l refl)

type_name-quiet : (t : SqlType) → quiet (type_name t) ≡ true
unfolding type_name
type_name-quiet integer = refl
type_name-quiet big_int = refl
type_name-quiet unsigned_big_int = refl
type_name-quiet real = refl
type_name-quiet decimal = refl
type_name-quiet text = refl
type_name-quiet wstring = refl
type_name-quiet blob = refl
type_name-quiet boolean = refl
type_name-quiet date = refl
type_name-quiet time = refl
type_name-quiet timestamp = refl
type_name-quiet interval = refl
type_name-quiet guid = refl

sized-quiet : (n : ℕ) (short : Text) → quiet short ≡ true → quiet (sized n short) ≡ true
unfolding sized
sized-quiet n short h =
    ground (arith, h, quiet_between (codes "LVARCHAR(") (min n 32739) (codes ")") refl refl)

cast_type-quiet : (v : Option BoundValue) → quiet (cast_type v) ≡ true
unfolding cast_type get_informix_cast_type
cast_type-quiet none = refl
cast_type-quiet (some null) = refl
cast_type-quiet (some (int64 v)) = refl
cast_type-quiet (some (uint64 v)) = refl
cast_type-quiet (some (double v)) = refl
cast_type-quiet (some (string v)) = sized-quiet (length v) (codes "VARCHAR(255)") refl
cast_type-quiet (some (wide v)) = sized-quiet (length v) (codes "NVARCHAR(255)") refl
cast_type-quiet (some (boolean_value v)) = refl
cast_type-quiet (some (bytes v)) = refl
cast_type-quiet (some (numeric v)) = refl
cast_type-quiet (some (date_value v)) = refl
cast_type-quiet (some (time_value v)) = refl
cast_type-quiet (some (timestamp_value v)) = refl
cast_type-quiet (some (interval_value v)) = refl
cast_type-quiet (some (guid_value v)) = refl

module _ (r : Relation) (p p' : ℕ → Text) (keeps : Keeps r double_quoted p p') where
  id_rel : (i : ℕ) (id : Text) → r.Rel i i (quote_id id) (quote_id id)
  unfolding quote_id
  id_rel = quoted_rel r double_quoted p p' keeps

  extract_rel :
      (i j : ℕ) (part : DatePart) (t t' : Text)
      → r.Rel i j t t'
      → r.Rel i j (extract_part_func (part_text part) t) (extract_part_func (part_text part) t')
  unfolding extract_part_func part_text marks final next cpplinq.Text.same
  extract_rel i j year t t' h =
      around r double_quoted p p' keeps (codes "YEAR(CAST(") (codes " AS DATETIME YEAR TO SECOND))")
        refl refl h
  extract_rel i j month t t' h =
      around r double_quoted p p' keeps (codes "MONTH(CAST(")
        (codes " AS DATETIME YEAR TO SECOND))") refl refl h
  extract_rel i j day t t' h =
      around r double_quoted p p' keeps (codes "DAY(CAST(") (codes " AS DATETIME YEAR TO SECOND))")
        refl refl h

  assignments_rel :
      (i : ℕ) (sep : Text) (columns : List Text)
      → quiet sep ≡ true
      → r.Rel i i (assignments sep columns) (assignments sep columns)
  assignments_rel i sep columns h =
      pair_list_rel r _ _ sep (codes "target.") (codes " = source.") (codes "") h refl refl refl
        id_rel columns i

  merge_update_rel : (i : ℕ) (us : List Text) → r.Rel i i (merge_update us) (merge_update us)
  unfolding merge_update
  merge_update_rel i [] = r.quiet_rel i (codes "") refl
  merge_update_rel i (u ∷ us) =
      before r (codes " WHEN MATCHED THEN UPDATE SET ") refl
        (assignments_rel i (codes ", ") (u ∷ us) refl)

  source_rel : (i : ℕ) (columns : List Text) → r.Rel i i (source_list columns) (source_list columns)
  unfolding source_list
  source_rel i columns =
      column_list_rel r _ _ (λ k c. before r (codes "source.") refl (id_rel k c)) columns i

  selected_rel :
      (values : List BoundValue) (is : List Text)
      → r.Rel 0 (length is) (selected p values is) (selected p' values is)
  unfolding selected
  selected_rel values is = end_at r (omega arith) (
      join_imap_rel r (codes ", ") refl _ _
        (λ i c. before r (codes "CAST(") refl (
          cat r (keeps.placeholder_rel i) (
            before r (codes " AS ") refl (
              before r (cast_type (get_elem? values i)) (cast_type-quiet (get_elem? values i))
                (before r (codes ") AS ") refl (id_rel (suc i) c))))))
        is 0)

  upsert_rel :
      (table_name : Text) (is : List Text) (values : List BoundValue) (cs us : List Text)
      → BothReturn
          (r.Rel 0 (length is))
          (Informix.generate_upsert p table_name is values cs us)
          (Informix.generate_upsert p' table_name is values cs us)
  unfolding Informix.generate_upsert marks final next
  upsert_rel table_name is values cs us =
      cat r (literal_rel r double_quoted p p' keeps _ (codes "MERGE INTO ") refl) (
        cat r (id_rel _ table_name) (
          cat r (literal_rel r double_quoted p p' keeps _ (codes " AS target USING (SELECT ") refl)
            (cat r (selected_rel values is) (
              cat r
                (literal_rel r double_quoted p p' keeps _
                  (codes " FROM \"informix\".systables WHERE tabid = 1) AS source ON (") refl)
                (cat r (assignments_rel _ (codes " AND ") cs refl) (
                  cat r (literal_rel r double_quoted p p' keeps _ (codes ")") refl) (
                    cat r (merge_update_rel _ us) (
                      cat r
                        (literal_rel r double_quoted p p' keeps _
                          (codes " WHEN NOT MATCHED THEN INSERT (") refl)
                        (cat r (column_list_rel r _ _ id_rel is _) (
                          cat r (literal_rel r double_quoted p p' keeps _ (codes ") VALUES (") refl)
                            (cat r (source_rel _ is)
                              (literal_rel r double_quoted p p' keeps _ (codes ")") refl))))))))))))

  prefix_rel :
      (i : ℕ) (table_name : Text)
      → r.Rel i i
          (default_create_table_prefix quote_id table_name)
          (default_create_table_prefix quote_id table_name)
  unfolding default_create_table_prefix
  prefix_rel i table_name =
      before r (codes "CREATE TABLE IF NOT EXISTS ") refl (id_rel i table_name)

  pub informix-Agree : Agree r (informix_with p) (informix_with p')
  unfolding informix_with Informix.returning_clause Informix.output_clause date_add_days_func
      function_name marks final next
  informix-Agree = record {
    quote_id_rel = id_rel;
    placeholder_rel = keeps.placeholder_rel;
    limit_offset_same = λ l o. refl;
    limit_offset_quiet = limit_offset-quiet;
    prefix_same = λ l o. refl;
    prefix_quiet = prefix-quiet;
    type_name_same = λ t. refl;
    type_name_quiet = type_name-quiet;
    auto_increment_same = refl;
    auto_increment_quiet = refl;
    returning_clause_rel = λ i c. r.quiet_rel i (codes "") refl;
    output_clause_rel = λ i c. r.quiet_rel i (codes "") refl;
    create_table_prefix_rel = prefix_rel;
    function_name_rel = λ i f h. r.quiet_rel i f h;
    current_timestamp_rel = λ i. r.quiet_rel i (codes "CURRENT YEAR TO FRACTION(3)") refl;
    current_date_rel = λ i. r.quiet_rel i (codes "TODAY") refl;
    extract_part_rel = extract_rel;
    date_add_rel = λ i j k s s' t t' g h.
        around_two r double_quoted p p' keeps (codes "(") (codes " + (") (codes ") UNITS DAY)") refl
          refl refl g h;
    upsert_rel = λ t is vs cs us h1 h2. upsert_rel t is vs cs us;
  }
