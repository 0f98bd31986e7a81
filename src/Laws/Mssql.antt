-- ===== src/Laws/Mssql.antt =====
-- MssqlDialect.
use cpplinq.Common.{
  arith, ℕ, suc, zero, List, [], ◌∷◌, ◌++◌, ◌≡◌, refl, true, false, Option, none, some, ok, throws,
  length, is_empty, invalid_argument,
}
use cpplinq.Text.{Text, codes, quiet, to_string}
use cpplinq.Value.{
  SqlType, integer, big_int, unsigned_big_int, real, decimal, text, wstring, blob, boolean, date,
  time, timestamp, interval, guid, BoundValue,
}
use cpplinq.Expr.{DatePart, year, month, day}
use cpplinq.Generator.Visit.{part_text}
use cpplinq.Dialect.Quote.{escape}
use cpplinq.Dialect.Mssql
use cpplinq.Dialect.Mssql.{
  quote_id, limit_offset, offset_fetch, type_name, output_clause, create_table_prefix,
  function_name, extract_part_func, date_add_days_func, merge_update, assignments, source_list,
  merge, mssql_with,
}
use cpplinq.Scan.{bracketed, marks, final, next}
use cpplinq.Scan.Quoted.{literal-IsSilent, quote_with-IsSilent}
use cpplinq.Agree.Relation.{Relation, Agree, BothReturn}
use cpplinq.Agree.Texts.{before, cat, column_list_rel, placeholder_list_rel, join_rel}
use cpplinq.Laws.Keeps.{Keeps, quiet_ok, quiet_between, quoted_rel, around, around_two, literal_rel}

offset_fetch-quiet : (l o : Option ℕ) → quiet (offset_fetch l o) ≡ true
unfolding offset_fetch
offset_fetch-quiet (some l) (some o) =
    quiet_between (codes " OFFSET ") o
      (codes " ROWS FETCH NEXT " ++ (to_string l ++ codes " ROWS ONLY")) refl
      (quiet_between (codes " ROWS FETCH NEXT ") l (codes " ROWS ONLY") refl refl)
offset_fetch-quiet none (some o) = quiet_between (codes " OFFSET ") o (codes " ROWS") refl refl
offset_fetch-quiet (some l) none =
    quiet_between (codes " OFFSET 0 ROWS FETCH NEXT ") l (codes " ROWS ONLY") refl refl
offset_fetch-quiet none none = refl

throws_nothing : (t : Text) → throws invalid_argument ≡ ok t → quiet t ≡ true
throws_nothing t h = absurd (ground (arith, h))

limit_offset-quiet : (l o : Option ℕ) (t : Text) → limit_offset l o ≡ ok t → quiet t ≡ true
unfolding limit_offset
limit_offset-quiet (some zero) o t h = throws_nothing t h
limit_offset-quiet (some (suc l)) o t h = quiet_ok _ t (offset_fetch-quiet (some (suc l)) o) h
limit_offset-quiet none o t h = quiet_ok _ t (offset_fetch-quiet none o) h

type_name-quiet : (t : SqlType) → quiet (type_name t) ≡ true
unfolding type_name
type_name-quiet integer = refl
type_name-quiet big_int = refl
type_name-quiet unsigned_big_int = refl
type_name-quiet real = refl
type_name-quiet decimal = refl
type_name-quiet text = refl
type_name-quiet wstring = refl
type_name-quiet blob = refl
type_name-quiet boolean = refl
type_name-quiet date = refl
type_name-quiet time = refl
type_name-quiet timestamp = refl
type_name-quiet interval = refl
type_name-quiet guid = refl

function_name-quiet : (f : Text) → quiet f ≡ true → quiet (function_name f) ≡ true
unfolding function_name
function_name-quiet f h = ground (arith, h)

module _ (r : Relation) (p p' : ℕ → Text) (keeps : Keeps r bracketed p p') where
  id_rel : (i : ℕ) (id : Text) → r.Rel i i (quote_id id) (quote_id id)
  unfolding quote_id
  id_rel = quoted_rel r bracketed p p' keeps

  extract_rel :
      (i j : ℕ) (part : DatePart) (t t' : Text)
      → r.Rel i j t t'
      → r.Rel i j (extract_part_func (part_text part) t) (extract_part_func (part_text part) t')
  unfolding extract_part_func part_text marks final next cpplinq.Text.same
  extract_rel i j year t t' h =
      around r bracketed p p' keeps (codes "YEAR(") (codes ")") refl refl h
  extract_rel i j month t t' h =
      around r bracketed p p' keeps (codes "MONTH(") (codes ")") refl refl h
  extract_rel i j day t t' h = around r bracketed p p' keeps (codes "DAY(") (codes ")") refl refl h

  prefix_rel :
      (i : ℕ) (table_name : Text)
      → r.Rel i i (create_table_prefix table_name) (create_table_prefix table_name)
  unfolding create_table_prefix quote_id marks final next
  prefix_rel i table_name = keeps.silent_rel i _ (
      literal-IsSilent bracketed (codes "IF OBJECT_ID(N'") table_name
        (codes "', N'U') IS NULL CREATE TABLE " ++ quote_id table_name) refl refl
        (quote_with-IsSilent bracketed table_name).no_marks
        (quote_with-IsSilent bracketed table_name).closed)

  assignments_rel :
      (i : ℕ) (sep : Text) (columns : List Text)
      → quiet sep ≡ true
      → r.Rel i i (assignments sep columns) (assignments sep columns)
  unfolding cpplinq.Dialect.Quote.pair_list marks final next
  assignments_rel i sep columns h =
      join_rel r sep h _ _
        (λ k c.
          around_two r bracketed p p' keeps (codes "[target].") (codes " = [source].") (codes "")
            refl refl refl (id_rel k c) (id_rel k c))
        columns i

  merge_update_rel : (i : ℕ) (us : List Text) → r.Rel i i (merge_update us) (merge_update us)
  unfolding merge_update
  merge_update_rel i [] = r.quiet_rel i (codes "") refl
  merge_update_rel i (u ∷ us) =
      before r (codes " WHEN MATCHED THEN UPDATE SET ") refl
        (assignments_rel i (codes ", ") (u ∷ us) refl)

  source_rel : (i : ℕ) (columns : List Text) → r.Rel i i (source_list columns) (source_list columns)
  unfolding source_list marks final next
  source_rel i columns =
      column_list_rel r _ _
        (λ k c. cat r (literal_rel r bracketed p p' keeps k (codes "[source].") refl) (id_rel k c))
        columns i

  merge_rel :
      (table_name : Text) (is cs us : List Text)
      → r.Rel 0 (length is) (merge p table_name is cs us) (merge p' table_name is cs us)
  unfolding merge marks final next
  merge_rel table_name is cs us =
      cat r (literal_rel r bracketed p p' keeps _ (codes "MERGE INTO ") refl) (
        cat r (id_rel _ table_name) (
          cat r
            (literal_rel r bracketed p p' keeps _
              (codes " WITH (HOLDLOCK) AS [target] USING (VALUES (") refl)
            (cat r (placeholder_list_rel r p p' keeps.placeholder_rel is) (
              cat r (literal_rel r bracketed p p' keeps _ (codes ")) AS [source] (") refl) (
                cat r (column_list_rel r _ _ id_rel is _) (
                  cat r (literal_rel r bracketed p p' keeps _ (codes ") ON (") refl) (
                    cat r (assignments_rel _ (codes " AND ") cs refl) (
                      cat r (literal_rel r bracketed p p' keeps _ (codes ")") refl) (
                        cat r (merge_update_rel _ us) (
                          cat r
                            (literal_rel r bracketed p p' keeps _
                              (codes " WHEN NOT MATCHED THEN INSERT (") refl)
                            (cat r (column_list_rel r _ _ id_rel is _) (
                              cat r (literal_rel r bracketed p p' keeps _ (codes ") VALUES (") refl)
                                (cat r (source_rel _ is) (
                                  literal_rel r bracketed p p' keeps _ (codes ");")
                                    refl))))))))))))))

  upsert_rel :
      (table_name : Text) (is : List Text) (values : List BoundValue) (cs us : List Text)
      → is_empty is ≡ false
      → is_empty cs ≡ false
      → BothReturn
          (r.Rel 0 (length is))
          (Mssql.generate_upsert p table_name is values cs us)
          (Mssql.generate_upsert p' table_name is values cs us)
  unfolding Mssql.generate_upsert
  upsert_rel table_name [] values cs us h k = refl
  upsert_rel table_name (i ∷ is) values [] us h k = refl
  upsert_rel table_name (i ∷ is) values (c ∷ cs) us h k = merge_rel table_name (i ∷ is) (c ∷ cs) us

  -- DATEADD takes the days first: the relation has to allow the parameters to stand in that order.
  pub mssql-Agree :
      ((i j k : ℕ) (s s' t t' : Text)
        → r.Rel i j s s'
        → r.Rel j k t t'
        → r.Rel i k (date_add_days_func s t) (date_add_days_func s' t'))
      → Agree r (mssql_with p) (mssql_with p')
  unfolding mssql_with Mssql.returning_clause output_clause date_add_days_func marks final next
  mssql-Agree swap = record {
    quote_id_rel = id_rel;
    placeholder_rel = keeps.placeholder_rel;
    limit_offset_same = λ l o. refl;
    limit_offset_quiet = limit_offset-quiet;
    prefix_same = λ l o. refl;
    prefix_quiet = λ l o. refl;
    type_name_same = λ t. refl;
    type_name_quiet = type_name-quiet;
    auto_increment_same = refl;
    auto_increment_quiet = refl;
    returning_clause_rel = λ i c. r.quiet_rel i (codes "") refl;
    output_clause_rel = λ i c. before r (codes " OUTPUT INSERTED.") refl (id_rel i c);
    create_table_prefix_rel = prefix_rel;
    function_name_rel = λ i f h. r.quiet_rel i (function_name f) (function_name-quiet f h);
    current_timestamp_rel = λ i. r.quiet_rel i (codes "CURRENT_TIMESTAMP") refl;
    current_date_rel = λ i. r.quiet_rel i (codes "CAST(GETDATE() AS DATE)") refl;
    extract_part_rel = extract_rel;
    date_add_rel = swap;
    upsert_rel = λ t is vs cs us h1 h2. upsert_rel t is vs cs us h1 h2;
  }
