-- ===== src/Dialect/Mssql.antt =====
-- src/dialect/mssql_dialect.cpp.
use cpplinq.Common.{
  ℕ, zero, suc, List, [], ◌∷◌, ◌++◌, true, Option, none, some, Outcome, ok, throws,
  invalid_argument, is_empty, if◌then◌else◌,
}
use cpplinq.Text.{Text, codes, same, to_string}
use cpplinq.Value.{
  SqlType, BoundValue, integer, big_int, unsigned_big_int, real, decimal, text, wstring, blob,
  boolean, date, time, timestamp, interval, guid,
}
use cpplinq.Dialect.Quote.{
  Dialect, escape, quote_with, default_select_prefix, default_last_insert_id_query, column_list,
  placeholder_list, pair_list,
}

unfoldable pub quote_id : Text → Text
unfolding quote_with
quote_id = quote_with b'[' b']'

-- Past the guard a limit that is there is positive.
unfoldable pub offset_fetch : Option ℕ → Option ℕ → Text
offset_fetch (some l) (some o) =
    codes " OFFSET "
    ++ (to_string o ++ (codes " ROWS FETCH NEXT " ++ (to_string l ++ codes " ROWS ONLY")))
offset_fetch none (some o) = codes " OFFSET " ++ (to_string o ++ codes " ROWS")
offset_fetch (some l) none =
    codes " OFFSET 0 ROWS FETCH NEXT " ++ (to_string l ++ codes " ROWS ONLY")
offset_fetch none none = codes ""

unfoldable pub limit_offset : Option ℕ → Option ℕ → Outcome Text
unfolding offset_fetch
limit_offset (some zero) offset = throws invalid_argument
limit_offset (some (suc l)) offset = ok (offset_fetch (some (suc l)) offset)
limit_offset none offset = ok (offset_fetch none offset)

unfoldable pub type_name : SqlType → Text
type_name integer = codes "INT"
type_name big_int = codes "BIGINT"
type_name unsigned_big_int = codes "NUMERIC(20, 0)"
type_name real = codes "FLOAT"
type_name decimal = codes "DECIMAL(28, 10)"
type_name text = codes "NVARCHAR(255)"
type_name wstring = codes "NVARCHAR(255)"
type_name blob = codes "VARBINARY(MAX)"
type_name boolean = codes "BIT"
type_name date = codes "DATE"
type_name time = codes "TIME"
type_name timestamp = codes "DATETIME2"
type_name interval = codes "VARCHAR(100)"
type_name guid = codes "UNIQUEIDENTIFIER"

unfoldable pub returning_clause : Text → Text
returning_clause column = codes ""

unfoldable pub output_clause : Text → Text
unfolding quote_id
output_clause column = codes " OUTPUT INSERTED." ++ quote_id column

-- 39 is the single quote.
unfoldable pub create_table_prefix : Text → Text
unfolding quote_id escape
create_table_prefix table_name =
    codes "IF OBJECT_ID(N'"
    ++ (escape 39 table_name ++ (codes "', N'U') IS NULL CREATE TABLE " ++ quote_id table_name))

unfoldable pub function_name : Text → Text
unfolding same
function_name func =
    if same func (codes "LENGTH")
    then codes "LEN"
    else if same func (codes "SUBSTR")
    then codes "SUBSTRING"
    else func

unfoldable pub extract_part_func : Text → Text → Text
unfolding same
extract_part_func part expr_sql =
    if same part (codes "YEAR")
    then codes "YEAR(" ++ (expr_sql ++ codes ")")
    else if same part (codes "MONTH")
    then codes "MONTH(" ++ (expr_sql ++ codes ")")
    else if same part (codes "DAY")
    then codes "DAY(" ++ (expr_sql ++ codes ")")
    else codes "DATEPART(" ++ (part ++ (codes ", " ++ (expr_sql ++ codes ")")))

-- The days stand before the date.
unfoldable pub date_add_days_func : Text → Text → Text
date_add_days_func expr_sql days_sql =
    codes "DATEADD(day, " ++ (days_sql ++ (codes ", " ++ (expr_sql ++ codes ")")))

abbrev pub assignments : Text → List Text → Text
assignments sep columns =
    pair_list quote_id sep (codes "[target].") (codes " = [source].") (codes "") columns

unfoldable pub merge_update : List Text → Text
unfolding quote_id pair_list
merge_update columns =
    if is_empty columns
    then codes ""
    else codes " WHEN MATCHED THEN UPDATE SET " ++ assignments (codes ", ") columns

-- `[source].` before each column.
unfoldable pub source_list : List Text → Text
unfolding quote_id column_list
source_list columns = column_list (λ c. codes "[source]." ++ quote_id c) columns

unfoldable pub merge : (ℕ → Text) → Text → List Text → List Text → List Text → Text
unfolding quote_id column_list placeholder_list pair_list merge_update source_list
merge placeholder table_name insert_columns conflict_columns update_columns =
    codes "MERGE INTO "
    ++ (quote_id table_name
        ++ (codes " WITH (HOLDLOCK) AS [target] USING (VALUES ("
            ++ (placeholder_list placeholder insert_columns
                ++ (codes ")) AS [source] ("
                    ++ (column_list quote_id insert_columns
                        ++ (codes ") ON ("
                            ++ (assignments (codes " AND ") conflict_columns
                                ++ (codes ")"
                                    ++ (merge_update update_columns
                                        ++ (codes " WHEN NOT MATCHED THEN INSERT ("
                                            ++ (column_list quote_id insert_columns
                                                ++ (codes ") VALUES ("
                                                    ++ (source_list insert_columns
                                                        ++ codes ");")))))))))))))

unfoldable pub generate_upsert :
    (ℕ → Text) → Text → List Text → List BoundValue → List Text → List Text → Outcome Text
unfolding merge
generate_upsert placeholder table_name [] values conflict_columns update_columns =
    throws invalid_argument
generate_upsert placeholder table_name (i ∷ is) values [] update_columns = throws invalid_argument
generate_upsert placeholder table_name (i ∷ is) values (c ∷ cs) update_columns =
    ok (merge placeholder table_name (i ∷ is) (c ∷ cs) update_columns)

-- The dialect with `placeholder` overridden.
unfoldable pub mssql_with : (ℕ → Text) → Dialect
mssql_with placeholder = record {
  quote_id = quote_id;
  placeholder = placeholder;
  limit_offset = limit_offset;
  select_prefix_limit_offset = default_select_prefix;
  type_name = type_name;
  auto_increment_type = codes "INT IDENTITY(1,1) PRIMARY KEY";
  returning_clause = returning_clause;
  output_clause = output_clause;
  last_insert_id_query = default_last_insert_id_query;
  supports_last_insert_id = true;
  create_table_prefix = create_table_prefix;
  function_name = function_name;
  supports_truncate = true;
  current_timestamp_func = codes "CURRENT_TIMESTAMP";
  current_date_func = codes "CAST(GETDATE() AS DATE)";
  extract_part_func = extract_part_func;
  date_add_days_func = date_add_days_func;
  generate_upsert = generate_upsert placeholder;
}

unfoldable pub placeholder : ℕ → Text
placeholder index = codes "?"

unfoldable pub mssql : Dialect
unfolding mssql_with placeholder
mssql = mssql_with placeholder
