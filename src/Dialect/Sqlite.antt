-- ===== src/Dialect/Sqlite.antt =====
-- src/dialect/sqlite_dialect.cpp and its header.
use cpplinq.Common.{ℕ, ◌++◌, true, false, Option, none, some, Outcome, ok, if◌then◌else◌}
use cpplinq.Text.{Text, codes, same, to_string}
use cpplinq.Value.{
  SqlType, integer, big_int, unsigned_big_int, real, decimal, text, wstring, blob, boolean, date,
  time, timestamp, interval, guid,
}
use cpplinq.Dialect.Quote.{
  Dialect, quote_with, default_select_prefix, default_output_clause, default_create_table_prefix,
  default_function_name, default_generate_upsert,
}

unfoldable pub quote_id : Text → Text
unfolding quote_with
quote_id = quote_with b'"' b'"'

-- The first branch, and then the second `if`.
unfoldable pub limit_part : Option ℕ → Option ℕ → Text
limit_part (some l) offset = codes " LIMIT " ++ to_string l
limit_part none (some o) = codes " LIMIT -1"
limit_part none none = codes ""

unfoldable pub offset_part : Option ℕ → Text
offset_part (some o) = codes " OFFSET " ++ to_string o
offset_part none = codes ""

unfoldable pub limit_offset : Option ℕ → Option ℕ → Outcome Text
unfolding limit_part offset_part
limit_offset limit offset = ok (limit_part limit offset ++ offset_part offset)

unfoldable pub type_name : SqlType → Text
type_name integer = codes "INTEGER"
type_name big_int = codes "INTEGER"
type_name unsigned_big_int = codes "INTEGER"
type_name real = codes "REAL"
type_name decimal = codes "TEXT"
type_name text = codes "TEXT"
type_name wstring = codes "TEXT"
type_name blob = codes "BLOB"
type_name boolean = codes "INTEGER"
type_name date = codes "TEXT"
type_name time = codes "TEXT"
type_name timestamp = codes "TEXT"
type_name interval = codes "TEXT"
type_name guid = codes "TEXT"

unfoldable pub returning_clause : Text → Text
unfolding quote_id
returning_clause column = codes " RETURNING " ++ quote_id column

abbrev strftime : Text → Text → Text
strftime format expr_sql =
    codes "CAST(strftime('%" ++ (format ++ (codes "', " ++ (expr_sql ++ codes ") AS INTEGER)")))

unfoldable pub extract_part_func : Text → Text → Text
unfolding same
extract_part_func part expr_sql =
    if same part (codes "YEAR")
    then strftime (codes "Y") expr_sql
    else if same part (codes "MONTH")
    then strftime (codes "m") expr_sql
    else if same part (codes "DAY")
    then strftime (codes "d") expr_sql
    else if same part (codes "HOUR")
    then strftime (codes "H") expr_sql
    else if same part (codes "MINUTE")
    then strftime (codes "M") expr_sql
    else if same part (codes "SECOND")
    then strftime (codes "S") expr_sql
    else codes "strftime('" ++ (part ++ (codes "', " ++ (expr_sql ++ codes ")")))

unfoldable pub date_add_days_func : Text → Text → Text
date_add_days_func expr_sql days_sql =
    codes "date(" ++ (expr_sql ++ (codes ", (" ++ (days_sql ++ codes ") || ' days')")))

-- The dialect with `placeholder` overridden.
unfoldable pub sqlite_with : (ℕ → Text) → Dialect
sqlite_with placeholder = record {
  quote_id = quote_id;
  placeholder = placeholder;
  limit_offset = limit_offset;
  select_prefix_limit_offset = default_select_prefix;
  type_name = type_name;
  auto_increment_type = codes "INTEGER PRIMARY KEY AUTOINCREMENT";
  returning_clause = returning_clause;
  output_clause = default_output_clause;
  last_insert_id_query = λ table_name pk_col. codes "SELECT last_insert_rowid()";
  supports_last_insert_id = true;
  create_table_prefix = default_create_table_prefix quote_id;
  function_name = default_function_name;
  supports_truncate = false;
  current_timestamp_func = codes "CURRENT_TIMESTAMP";
  current_date_func = codes "CURRENT_DATE";
  extract_part_func = extract_part_func;
  date_add_days_func = date_add_days_func;
  generate_upsert = default_generate_upsert quote_id placeholder;
}

unfoldable pub placeholder : ℕ → Text
placeholder index = codes "?"

unfoldable pub sqlite : Dialect
unfolding sqlite_with placeholder
sqlite = sqlite_with placeholder
