-- ===== src/Dialect/Quote.antt =====
-- ISqlDialect and its default methods, and the loop that every quote_id runs.
use cpplinq.Common.{
  ℕ, Bool, List, [], ◌∷◌, ◌++◌, map, imap, Option, Outcome, ok, is_empty, ◌==◌, if◌then◌else◌,
}
use cpplinq.Text.{Text, codes, join}
use cpplinq.Value.{SqlType, BoundValue}

pub record Dialect : Type 0 where
  pub quote_id : Text → Text
  pub placeholder : ℕ → Text
  pub limit_offset : Option ℕ → Option ℕ → Outcome Text
  pub select_prefix_limit_offset : Option ℕ → Option ℕ → Text
  pub type_name : SqlType → Text
  pub auto_increment_type : Text
  pub returning_clause : Text → Text
  pub output_clause : Text → Text
  pub last_insert_id_query : Text → Text → Text
  pub supports_last_insert_id : Bool
  pub create_table_prefix : Text → Text
  pub function_name : Text → Text
  pub supports_truncate : Bool
  pub current_timestamp_func : Text
  pub current_date_func : Text
  pub extract_part_func : Text → Text → Text
  pub date_add_days_func : Text → Text → Text
  pub generate_upsert : Text → List Text → List BoundValue → List Text → List Text → Outcome Text

-- for (char c : id) { if (c == q) quoted += qq; else quoted += c; }
unfoldable pub escape : ℕ → Text → Text
escape q [] = []
escape q (c ∷ t) = (if c == q then q ∷ q ∷ [] else c ∷ []) ++ escape q t

-- The identifier between `open_quote` and `q`, each `q` inside written twice.
unfoldable pub quote_with : ℕ → ℕ → Text → Text
unfolding escape
quote_with open_quote q id = open_quote ∷ (escape q id ++ q ∷ [])

abbrev pub default_select_prefix : Option ℕ → Option ℕ → Text
default_select_prefix limit offset = []

abbrev pub default_output_clause : Text → Text
default_output_clause column = []

abbrev pub default_last_insert_id_query : Text → Text → Text
default_last_insert_id_query table_name pk_col = codes "SELECT LAST_INSERT_ID()"

unfoldable pub default_create_table_prefix : (Text → Text) → Text → Text
default_create_table_prefix quote_id table_name =
    codes "CREATE TABLE IF NOT EXISTS " ++ quote_id table_name

abbrev pub default_function_name : Text → Text
default_function_name func = func

unfoldable pub default_extract_part_func : Text → Text → Text
default_extract_part_func part expr_sql =
    codes "EXTRACT(" ++ (part ++ (codes " FROM CAST(" ++ (expr_sql ++ codes " AS TIMESTAMP))")))

unfoldable pub default_date_add_days_func : Text → Text → Text
default_date_add_days_func expr_sql days_sql =
    codes "(CAST("
    ++ (expr_sql ++ (codes " AS TIMESTAMP) + (" ++ (days_sql ++ codes " || ' days')::interval)")))

-- Pieces of the upsert statements: the columns, and the placeholders of those columns.
unfoldable pub column_list : (Text → Text) → List Text → Text
unfolding join
column_list quote_id columns = join (codes ", ") (map quote_id columns)

unfoldable pub placeholder_list : (ℕ → Text) → List Text → Text
unfolding join
placeholder_list placeholder columns = join (codes ", ") (imap (λ i c. placeholder i) 0 columns)

-- Rows `<left><column><middle><column><right>`, joined by `sep`.
unfoldable pub pair_list : (Text → Text) → Text → Text → Text → Text → List Text → Text
unfolding join
pair_list quote_id sep left middle right columns =
    join sep (map (λ c. left ++ (quote_id c ++ (middle ++ (quote_id c ++ right)))) columns)

-- The second overload, which the first calls with `values` dropped.
unfoldable pub default_generate_upsert :
    (Text → Text)
    → (ℕ → Text)
    → Text
    → List Text
    → List BoundValue
    → List Text
    → List Text
    → Outcome Text
unfolding column_list placeholder_list pair_list
default_generate_upsert quote_id placeholder table_name insert_columns values conflict_columns
      update_columns =
    ok (
      codes "INSERT INTO "
      ++ (quote_id table_name
          ++ (codes " ("
              ++ (column_list quote_id insert_columns
                  ++ (codes ") VALUES ("
                      ++ (placeholder_list placeholder insert_columns
                          ++ (codes ") ON CONFLICT ("
                              ++ (column_list quote_id conflict_columns
                                  ++ (if is_empty update_columns
                                      then codes ") DO NOTHING"
                                      else codes ") DO UPDATE SET "
                                        ++ pair_list quote_id (codes ", ") [] (codes " = EXCLUDED.")
                                            [] update_columns)))))))))
