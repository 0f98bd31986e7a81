-- ===== src/Dialect/Mysql.antt =====
-- src/dialect/mysql_dialect.cpp.
use cpplinq.Common.{
  ℕ, List, [], ◌∷◌, ◌++◌, true, Option, none, some, Outcome, ok, throws, invalid_argument,
  if◌then◌else◌,
}
use cpplinq.Text.{Text, codes, same, to_string}
use cpplinq.Value.{
  SqlType, BoundValue, integer, big_int, unsigned_big_int, real, decimal, text, wstring, blob,
  boolean, date, time, timestamp, interval, guid,
}
use cpplinq.Dialect.Quote.{
  Dialect, quote_with, default_select_prefix, default_output_clause, default_last_insert_id_query,
  default_create_table_prefix, column_list, placeholder_list, pair_list,
}

unfoldable pub quote_id : Text → Text
unfolding quote_with
quote_id = quote_with b'`' b'`'

unfoldable pub limit_offset : Option ℕ → Option ℕ → Outcome Text
limit_offset (some l) (some o) =
    ok (codes " LIMIT " ++ (to_string l ++ (codes " OFFSET " ++ to_string o)))
limit_offset (some l) none = ok (codes " LIMIT " ++ to_string l)
limit_offset none (some o) = ok (codes " LIMIT 18446744073709551615 OFFSET " ++ to_string o)
limit_offset none none = ok (codes "")

unfoldable pub type_name : SqlType → Text
type_name integer = codes "INT"
type_name big_int = codes "BIGINT"
type_name unsigned_big_int = codes "BIGINT UNSIGNED"
type_name real = codes "DOUBLE"
type_name decimal = codes "DECIMAL(28, 10)"
type_name text = codes "VARCHAR(255)"
type_name wstring = codes "VARCHAR(255) CHARACTER SET utf8mb4"
type_name blob = codes "LONGBLOB"
type_name boolean = codes "TINYINT(1)"
type_name date = codes "DATE"
type_name time = codes "TIME"
type_name timestamp = codes "DATETIME"
type_name interval = codes "VARCHAR(100)"
type_name guid = codes "VARCHAR(36)"

unfoldable pub returning_clause : Text → Text
returning_clause column = codes ""

unfoldable pub function_name : Text → Text
unfolding same
function_name func =
    if same func (codes "LENGTH")
    then codes "CHAR_LENGTH"
    else if same func (codes "SUBSTR")
    then codes "SUBSTRING"
    else func

unfoldable pub extract_part_func : Text → Text → Text
unfolding same
extract_part_func part expr_sql =
    if same part (codes "YEAR")
    then codes "YEAR(" ++ (expr_sql ++ codes ")")
    else if same part (codes "MONTH")
    then codes "MONTH(" ++ (expr_sql ++ codes ")")
    else if same part (codes "DAY")
    then codes "DAY(" ++ (expr_sql ++ codes ")")
    else codes "EXTRACT(" ++ (part ++ (codes " FROM " ++ (expr_sql ++ codes ")")))

unfoldable pub date_add_days_func : Text → Text → Text
date_add_days_func expr_sql days_sql =
    codes "DATE_ADD(" ++ (expr_sql ++ (codes ", INTERVAL (" ++ (days_sql ++ codes ") DAY)")))

abbrev pub self_assign : Text → Text
self_assign column = quote_id column ++ (codes " = " ++ quote_id column)

-- The last branch: insert_columns[0], which the first guard shows to be there.
unfoldable pub upsert_action : List Text → List Text → List Text → Text
unfolding quote_id pair_list
upsert_action insert_columns conflict_columns (u ∷ us) =
    pair_list quote_id (codes ", ") [] (codes " = VALUES(") (codes ")") (u ∷ us)
upsert_action insert_columns (c ∷ cs) [] = self_assign c
upsert_action (c ∷ cs) [] [] = self_assign c
upsert_action [] [] [] = []

unfoldable pub generate_upsert :
    (ℕ → Text) → Text → List Text → List BoundValue → List Text → List Text → Outcome Text
unfolding quote_id upsert_action column_list placeholder_list
generate_upsert placeholder table_name [] values conflict_columns update_columns =
    throws invalid_argument
generate_upsert placeholder table_name (i ∷ is) values conflict_columns update_columns = ok (
    codes "INSERT INTO "
    ++ (quote_id table_name
        ++ (codes " ("
            ++ (column_list quote_id (i ∷ is)
                ++ (codes ") VALUES ("
                    ++ (placeholder_list placeholder (i ∷ is)
                        ++ (codes ") ON DUPLICATE KEY UPDATE "
                            ++ upsert_action (i ∷ is) conflict_columns update_columns)))))))

-- The dialect with `placeholder` overridden.
unfoldable pub mysql_with : (ℕ → Text) → Dialect
mysql_with placeholder = record {
  quote_id = quote_id;
  placeholder = placeholder;
  limit_offset = limit_offset;
  select_prefix_limit_offset = default_select_prefix;
  type_name = type_name;
  auto_increment_type = codes "INT AUTO_INCREMENT PRIMARY KEY";
  returning_clause = returning_clause;
  output_clause = default_output_clause;
  last_insert_id_query = default_last_insert_id_query;
  supports_last_insert_id = true;
  create_table_prefix = default_create_table_prefix quote_id;
  function_name = function_name;
  supports_truncate = true;
  current_timestamp_func = codes "CURRENT_TIMESTAMP";
  current_date_func = codes "CURRENT_DATE()";
  extract_part_func = extract_part_func;
  date_add_days_func = date_add_days_func;
  generate_upsert = generate_upsert placeholder;
}

unfoldable pub placeholder : ℕ → Text
placeholder index = codes "?"

unfoldable pub mysql : Dialect
unfolding mysql_with placeholder
mysql = mysql_with placeholder
