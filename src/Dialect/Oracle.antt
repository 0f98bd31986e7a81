-- ===== src/Dialect/Oracle.antt =====
-- src/dialect/oracle_dialect.cpp.
use cpplinq.Common.{
  ℕ, List, [], ◌∷◌, ◌++◌, true, Bool, false, ◌&&◌, ◌||◌, not, imap, Option, none, some, Outcome, ok,
  is_empty, if◌then◌else◌,
}
use cpplinq.Text.{Text, codes, same, join, to_string}
use cpplinq.Value.{
  SqlType, BoundValue, integer, big_int, unsigned_big_int, real, decimal, text, wstring, blob,
  boolean, date, time, timestamp, interval, guid,
}
use cpplinq.Dialect.Quote.{
  Dialect, quote_with, default_select_prefix, default_create_table_prefix, column_list, pair_list,
}

unfoldable pub quote_id : Text → Text
unfolding quote_with
quote_id = quote_with b'"' b'"'

unfoldable pub limit_offset : Option ℕ → Option ℕ → Outcome Text
limit_offset (some l) (some o) = ok (
    codes " OFFSET "
    ++ (to_string o ++ (codes " ROWS FETCH NEXT " ++ (to_string l ++ codes " ROWS ONLY"))))
limit_offset none (some o) = ok (codes " OFFSET " ++ (to_string o ++ codes " ROWS"))
limit_offset (some l) none =
    ok (codes " OFFSET 0 ROWS FETCH NEXT " ++ (to_string l ++ codes " ROWS ONLY"))
limit_offset none none = ok (codes "")

unfoldable pub type_name : SqlType → Text
type_name integer = codes "NUMBER(10)"
type_name big_int = codes "NUMBER(19)"
type_name unsigned_big_int = codes "NUMBER(20, 0)"
type_name real = codes "DOUBLE PRECISION"
type_name decimal = codes "NUMBER(28, 10)"
type_name text = codes "VARCHAR2(255)"
type_name wstring = codes "NVARCHAR2(255)"
type_name blob = codes "BLOB"
type_name boolean = codes "NUMBER(1)"
type_name date = codes "DATE"
type_name time = codes "VARCHAR2(20)"
type_name timestamp = codes "TIMESTAMP"
type_name interval = codes "VARCHAR2(100)"
type_name guid = codes "VARCHAR2(36)"

unfoldable pub returning_clause : Text → Text
returning_clause column = codes ""

unfoldable pub output_clause : Text → Text
output_clause column = codes ""

unfoldable pub last_insert_id_query : Text → Text → Text
unfolding quote_id
last_insert_id_query table_name pk_col =
    if not (is_empty table_name) && not (is_empty pk_col)
    then codes "SELECT NVL(MAX("
      ++ (quote_id pk_col ++ (codes "), 0) FROM " ++ quote_id table_name))
    else codes "SELECT 0 FROM DUAL"

unfoldable pub function_name : Text → Text
function_name func = func

-- The first 19 bytes of the expression's value, read as a timestamp.
abbrev pub timestamp_of : Text → Text
timestamp_of expr_sql =
    codes "TO_TIMESTAMP(SUBSTR(" ++ (expr_sql ++ codes ", 1, 19), 'YYYY-MM-DD HH24:MI:SS')")

unfoldable pub extract_part_func : Text → Text → Text
extract_part_func part expr_sql =
    codes "EXTRACT(" ++ (part ++ (codes " FROM " ++ (timestamp_of expr_sql ++ codes ")")))

unfoldable pub date_add_days_func : Text → Text → Text
date_add_days_func expr_sql days_sql =
    codes "("
    ++ (timestamp_of expr_sql ++ (codes " + NUMTODSINTERVAL(" ++ (days_sql ++ codes ", 'DAY'))")))

-- std::find(columns.begin(), columns.end(), col) != columns.end()
unfoldable pub has_column : Text → List Text → Bool
unfolding same
has_column col [] = false
has_column col (c ∷ cs) = same c col || has_column col cs

-- The loop that fills non_conflict_updates.
unfoldable pub non_conflict : List Text → List Text → List Text
unfolding has_column
non_conflict conflict_columns [] = []
non_conflict conflict_columns (u ∷ us) =
    (if has_column u conflict_columns then [] else u ∷ []) ++ non_conflict conflict_columns us

abbrev pub assignments : Text → List Text → Text
assignments sep columns =
    pair_list quote_id sep (codes "target.") (codes " = source.") (codes "") columns

unfoldable pub merge_update : List Text → Text
unfolding quote_id pair_list
merge_update columns =
    if is_empty columns
    then codes ""
    else codes " WHEN MATCHED THEN UPDATE SET " ++ assignments (codes ", ") columns

unfoldable pub source_list : List Text → Text
unfolding quote_id column_list
source_list columns = column_list (λ c. codes "source." ++ quote_id c) columns

unfoldable pub selected : (ℕ → Text) → List Text → Text
unfolding join quote_id
selected placeholder insert_columns =
    join (codes ", ") (imap (λ i c. placeholder i ++ (codes " AS " ++ quote_id c)) 0 insert_columns)

unfoldable pub merge : (ℕ → Text) → Text → List Text → List Text → List Text → Text
unfolding quote_id column_list selected pair_list merge_update source_list non_conflict
merge placeholder table_name insert_columns conflict_columns update_columns =
    codes "MERGE INTO "
    ++ (quote_id table_name
        ++ (codes " target USING (SELECT "
            ++ (selected placeholder insert_columns
                ++ (codes " FROM DUAL) source ON ("
                    ++ (assignments (codes " AND ") conflict_columns
                        ++ (codes ")"
                            ++ (merge_update (non_conflict conflict_columns update_columns)
                                ++ (codes " WHEN NOT MATCHED THEN INSERT ("
                                    ++ (column_list quote_id insert_columns
                                        ++ (codes ") VALUES ("
                                            ++ (source_list insert_columns ++ codes ")")))))))))))

unfoldable pub generate_upsert :
    (ℕ → Text) → Text → List Text → List BoundValue → List Text → List Text → Outcome Text
unfolding merge
generate_upsert placeholder table_name insert_columns values conflict_columns update_columns =
    if is_empty insert_columns || is_empty conflict_columns
    then ok (codes "")
    else ok (merge placeholder table_name insert_columns conflict_columns update_columns)

-- The dialect with `placeholder` overridden.
unfoldable pub oracle_with : (ℕ → Text) → Dialect
oracle_with placeholder = record {
  quote_id = quote_id;
  placeholder = placeholder;
  limit_offset = limit_offset;
  select_prefix_limit_offset = default_select_prefix;
  type_name = type_name;
  auto_increment_type = codes "NUMBER GENERATED BY DEFAULT ON NULL AS IDENTITY PRIMARY KEY";
  returning_clause = returning_clause;
  output_clause = output_clause;
  last_insert_id_query = last_insert_id_query;
  supports_last_insert_id = true;
  create_table_prefix = default_create_table_prefix quote_id;
  function_name = function_name;
  supports_truncate = true;
  current_timestamp_func = codes "CURRENT_TIMESTAMP";
  current_date_func = codes "CURRENT_DATE";
  extract_part_func = extract_part_func;
  date_add_days_func = date_add_days_func;
  generate_upsert = generate_upsert placeholder;
}

unfoldable pub placeholder : ℕ → Text
placeholder index = codes "?"

unfoldable pub oracle : Dialect
unfolding oracle_with placeholder
oracle = oracle_with placeholder
