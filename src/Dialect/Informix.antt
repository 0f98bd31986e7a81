-- ===== src/Dialect/Informix.antt =====
-- src/dialect/informix_dialect.cpp.
use cpplinq.Common.{
  ℕ, List, ◌++◌, true, imap, Option, none, some, Outcome, ok, min, length, get_elem?, ltb, is_empty,
  if◌then◌else◌,
}
use cpplinq.Text.{Text, codes, same, join, to_string}
use cpplinq.Value.{
  SqlType, BoundValue, integer, big_int, unsigned_big_int, real, decimal, text, wstring, blob,
  boolean, date, time, timestamp, interval, guid, null, int64, uint64, double, string, wide,
  boolean_value, bytes, numeric, date_value, time_value, timestamp_value, interval_value,
  guid_value,
}
use cpplinq.Dialect.Quote.{Dialect, quote_with, default_create_table_prefix, column_list, pair_list}

unfoldable pub quote_id : Text → Text
unfolding quote_with
quote_id = quote_with b'"' b'"'

unfoldable pub limit_offset : Option ℕ → Option ℕ → Outcome Text
limit_offset limit offset = ok (codes "")

unfoldable pub prefix_part : Text → Option ℕ → Text
prefix_part word (some n) = word ++ (to_string n ++ codes " ")
prefix_part word none = codes ""

unfoldable pub select_prefix_limit_offset : Option ℕ → Option ℕ → Text
unfolding prefix_part
select_prefix_limit_offset limit offset =
    prefix_part (codes "SKIP ") offset ++ prefix_part (codes "FIRST ") limit

unfoldable pub type_name : SqlType → Text
type_name integer = codes "INTEGER"
type_name big_int = codes "BIGINT"
type_name unsigned_big_int = codes "DECIMAL(20, 0)"
type_name real = codes "FLOAT"
type_name decimal = codes "DECIMAL(28, 10)"
type_name text = codes "VARCHAR(255)"
type_name wstring = codes "NVARCHAR(255)"
type_name blob = codes "BLOB"
type_name boolean = codes "BOOLEAN"
type_name date = codes "DATE"
type_name time = codes "DATETIME HOUR TO SECOND"
type_name timestamp = codes "DATETIME YEAR TO FRACTION(3)"
type_name interval = codes "VARCHAR(100)"
type_name guid = codes "VARCHAR(36)"

unfoldable pub returning_clause : Text → Text
returning_clause column = codes ""

unfoldable pub output_clause : Text → Text
output_clause column = codes ""

unfoldable pub last_insert_id_query : Text → Text → Text
last_insert_id_query table_name pk_col =
    codes "SELECT DBINFO('sqlca.sqlerrd1') FROM \"informix\".systables WHERE tabid = 1"

unfoldable pub function_name : Text → Text
function_name func = func

abbrev year_to_second : Text → Text
year_to_second expr_sql = codes "CAST(" ++ (expr_sql ++ codes " AS DATETIME YEAR TO SECOND))")

unfoldable pub extract_part_func : Text → Text → Text
unfolding same
extract_part_func part expr_sql =
    if same part (codes "YEAR")
    then codes "YEAR(" ++ year_to_second expr_sql
    else if same part (codes "MONTH")
    then codes "MONTH(" ++ year_to_second expr_sql
    else if same part (codes "DAY")
    then codes "DAY(" ++ year_to_second expr_sql
    else codes "EXTRACT(" ++ (part ++ (codes " FROM " ++ year_to_second expr_sql))

unfoldable pub date_add_days_func : Text → Text → Text
date_add_days_func expr_sql days_sql =
    codes "(" ++ (expr_sql ++ (codes " + (" ++ (days_sql ++ codes ") UNITS DAY)")))

-- A text of up to 255 units fits `short`; a longer one is cast to LVARCHAR.
unfoldable pub sized : ℕ → Text → Text
sized size short =
    if ltb 255 size then codes "LVARCHAR(" ++ (to_string (min size 32739) ++ codes ")") else short

unfoldable pub get_informix_cast_type : BoundValue → Text
unfolding sized
get_informix_cast_type null = codes "VARCHAR(255)"
get_informix_cast_type (int64 v) = codes "BIGINT"
get_informix_cast_type (uint64 v) = codes "DECIMAL(20, 0)"
get_informix_cast_type (double v) = codes "FLOAT"
get_informix_cast_type (string v) = sized (length v) (codes "VARCHAR(255)")
get_informix_cast_type (wide v) = sized (length v) (codes "NVARCHAR(255)")
get_informix_cast_type (boolean_value v) = codes "BOOLEAN"
get_informix_cast_type (bytes v) = codes "BLOB"
get_informix_cast_type (numeric v) = codes "DECIMAL(28, 10)"
get_informix_cast_type (date_value v) = codes "DATE"
get_informix_cast_type (time_value v) = codes "DATETIME HOUR TO SECOND"
get_informix_cast_type (timestamp_value v) = codes "DATETIME YEAR TO FRACTION(3)"
get_informix_cast_type (interval_value v) = codes "VARCHAR(100)"
get_informix_cast_type (guid_value v) = codes "VARCHAR(36)"

-- (i < values.size()) ? get_informix_cast_type(values[i]) : "VARCHAR(255)"
unfoldable pub cast_type : Option BoundValue → Text
unfolding get_informix_cast_type
cast_type (some v) = get_informix_cast_type v
cast_type none = codes "VARCHAR(255)"

unfoldable pub selected : (ℕ → Text) → List BoundValue → List Text → Text
unfolding join quote_id cast_type
selected placeholder values insert_columns = join (codes ", ") (
    imap
      (λ i c.
        codes "CAST("
        ++ (placeholder i
            ++ (codes " AS " ++ (cast_type (get_elem? values i) ++ (codes ") AS " ++ quote_id c)))))
      0 insert_columns)

abbrev pub assignments : Text → List Text → Text
assignments sep columns =
    pair_list quote_id sep (codes "target.") (codes " = source.") (codes "") columns

unfoldable pub merge_update : List Text → Text
unfolding quote_id pair_list
merge_update columns =
    if is_empty columns
    then codes ""
    else codes " WHEN MATCHED THEN UPDATE SET " ++ assignments (codes ", ") columns

unfoldable pub source_list : List Text → Text
unfolding quote_id column_list
source_list columns = column_list (λ c. codes "source." ++ quote_id c) columns

unfoldable pub generate_upsert :
    (ℕ → Text) → Text → List Text → List BoundValue → List Text → List Text → Outcome Text
unfolding quote_id column_list selected pair_list merge_update source_list
generate_upsert placeholder table_name insert_columns values conflict_columns update_columns = ok (
    codes "MERGE INTO "
    ++ (quote_id table_name
        ++ (codes " AS target USING (SELECT "
            ++ (selected placeholder values insert_columns
                ++ (codes " FROM \"informix\".systables WHERE tabid = 1) AS source ON ("
                    ++ (assignments (codes " AND ") conflict_columns
                        ++ (codes ")"
                            ++ (merge_update update_columns
                                ++ (codes " WHEN NOT MATCHED THEN INSERT ("
                                    ++ (column_list quote_id insert_columns
                                        ++ (codes ") VALUES ("
                                            ++ (source_list insert_columns ++ codes ")"))))))))))))

-- The dialect with `placeholder` overridden.
unfoldable pub informix_with : (ℕ → Text) → Dialect
informix_with placeholder = record {
  quote_id = quote_id;
  placeholder = placeholder;
  limit_offset = limit_offset;
  select_prefix_limit_offset = select_prefix_limit_offset;
  type_name = type_name;
  auto_increment_type = codes "SERIAL PRIMARY KEY";
  returning_clause = returning_clause;
  output_clause = output_clause;
  last_insert_id_query = last_insert_id_query;
  supports_last_insert_id = true;
  create_table_prefix = default_create_table_prefix quote_id;
  function_name = function_name;
  supports_truncate = true;
  current_timestamp_func = codes "CURRENT YEAR TO FRACTION(3)";
  current_date_func = codes "TODAY";
  extract_part_func = extract_part_func;
  date_add_days_func = date_add_days_func;
  generate_upsert = generate_upsert placeholder;
}

unfoldable pub placeholder : ℕ → Text
placeholder index = codes "?"

unfoldable pub informix : Dialect
unfolding informix_with placeholder
informix = informix_with placeholder
