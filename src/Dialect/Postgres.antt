-- ===== src/Dialect/Postgres.antt =====
-- src/dialect/postgres_dialect.cpp.
use cpplinq.Common.{ℕ, ◌++◌, true, Option, none, some, Outcome, ok}
use cpplinq.Text.{Text, codes, to_string}
use cpplinq.Value.{
  SqlType, integer, big_int, unsigned_big_int, real, decimal, text, wstring, blob, boolean, date,
  time, timestamp, interval, guid,
}
use cpplinq.Dialect.Quote.{
  Dialect, quote_with, default_select_prefix, default_output_clause, default_last_insert_id_query,
  default_create_table_prefix, default_function_name, default_extract_part_func,
  default_date_add_days_func, default_generate_upsert,
}

unfoldable pub quote_id : Text → Text
unfolding quote_with
quote_id = quote_with b'"' b'"'

unfoldable pub limit_part : Option ℕ → Text
limit_part (some l) = codes " LIMIT " ++ to_string l
limit_part none = codes ""

unfoldable pub offset_part : Option ℕ → Text
offset_part (some o) = codes " OFFSET " ++ to_string o
offset_part none = codes ""

unfoldable pub limit_offset : Option ℕ → Option ℕ → Outcome Text
unfolding limit_part offset_part
limit_offset limit offset = ok (limit_part limit ++ offset_part offset)

unfoldable pub type_name : SqlType → Text
type_name integer = codes "INTEGER"
type_name big_int = codes "BIGINT"
type_name unsigned_big_int = codes "NUMERIC(20, 0)"
type_name real = codes "DOUBLE PRECISION"
type_name decimal = codes "NUMERIC"
type_name text = codes "TEXT"
type_name wstring = codes "TEXT"
type_name blob = codes "BYTEA"
type_name boolean = codes "BOOLEAN"
type_name date = codes "DATE"
type_name time = codes "TIME"
type_name timestamp = codes "TIMESTAMP"
type_name interval = codes "INTERVAL"
type_name guid = codes "UUID"

unfoldable pub returning_clause : Text → Text
unfolding quote_id
returning_clause column = codes " RETURNING " ++ quote_id column

-- The dialect with `placeholder` overridden.
unfoldable pub postgres_with : (ℕ → Text) → Dialect
postgres_with placeholder = record {
  quote_id = quote_id;
  placeholder = placeholder;
  limit_offset = limit_offset;
  select_prefix_limit_offset = default_select_prefix;
  type_name = type_name;
  auto_increment_type = codes "BIGSERIAL PRIMARY KEY";
  returning_clause = returning_clause;
  output_clause = default_output_clause;
  last_insert_id_query = default_last_insert_id_query;
  supports_last_insert_id = true;
  create_table_prefix = default_create_table_prefix quote_id;
  function_name = default_function_name;
  supports_truncate = true;
  current_timestamp_func = codes "CURRENT_TIMESTAMP";
  current_date_func = codes "CURRENT_DATE";
  extract_part_func = default_extract_part_func;
  date_add_days_func = default_date_add_days_func;
  generate_upsert = default_generate_upsert quote_id placeholder;
}

unfoldable pub placeholder : ℕ → Text
placeholder index = codes "?"

unfoldable pub postgres : Dialect
unfolding postgres_with placeholder
postgres = postgres_with placeholder
