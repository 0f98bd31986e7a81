-- ===== src/Tests/Statements.antt =====
-- One UPDATE with a quote and a question mark in its names, for several dialects.
use cpplinq.Common.{
  ℕ, arith, length, returns, true, false, [], ◌∷◌, ◌++◌, ◌≡◌, refl, none, some, ok,
}
use cpplinq.Common.Int.{pos}
use cpplinq.Text.{Text, codes}
use cpplinq.Value.{int64, string}
use cpplinq.Expr.{ExprNode, binary, column_ref, literal, eq, in_list, nil, date_add}
use cpplinq.Generator.State.{GeneratedSql, State, initial, static_slot, dynamic_slot}
use cpplinq.Generator.Select.{SelectQuery}
use cpplinq.Generator.Request.{Request, update, generate, plain_select}
use cpplinq.Generator.State
use cpplinq.Generator.Visit
use cpplinq.Generator.Select
use cpplinq.Generator.Modify
use cpplinq.Dialect.Quote
use cpplinq.Dialect.Postgres
use cpplinq.Dialect.Mssql
use cpplinq.Agree.Requests.{regular_request, all_of}
use cpplinq.Agree.Requests
use cpplinq.Agree.Regular.{regular, bound}
use cpplinq.Scan.{plain, marks, final, bracketed, double_quoted}
use cpplinq.Scan.Span.{numbered}
use cpplinq.Placeholders.{
  sqlite_db, postgres_db, mssql_db, dialect_with, dialect_of, numbered_dialect, count_placeholders,
  numbered_mark,
}
use cpplinq.Placeholders.Count.{generate-count_placeholders, generate-final, generate-static_values}
use cpplinq.Placeholders.Order.{generate-numbered, date_add-swapped}
use cpplinq.Placeholders.Errors.{generate-returns, limit_of, in_list-nil}
use cpplinq.Dialect.Oracle
use cpplinq.Agree.Writer.{IsGood, static_values}
use cpplinq.Conflicts.Filter.{has_column-IsIn, IsIn, Kept}
use cpplinq.Conflicts.{generate_upsert-Kept}
use cpplinq.Text.{starts_with, same}
use cpplinq.Identifiers.{read_quoted, read_quoted-quote_id}

abbrev age_is : ExprNode
age_is = binary (column_ref (codes "t") (codes "a?")) eq (literal (int64 (pos 7)))

abbrev renaming : Request
renaming =
    update (codes "t")
      (record { table_name = []; column_name = codes "n]"; value = literal (string (codes "x")) }
        ∷ [])
      (some age_is)

abbrev renamed : Text → GeneratedSql
renamed sql = record {
  sql = sql;
  params = string (codes "x") ∷ int64 (pos 7) ∷ [];
  slots = static_slot (string (codes "x")) ∷ static_slot (int64 (pos 7)) ∷ [];
}

abbrev mssql_text : Text
mssql_text = codes "UPDATE [t] SET [n]]] = ? WHERE ([t].[a?] = ?)"

abbrev numbered_text : Text
numbered_text =
    codes "UPDATE \"t\" SET \"n]\" = "
    ++ (numbered_mark 0 ∷ codes " WHERE (\"t\".\"a?\" = " ++ (numbered_mark 1 ∷ codes ")"))

generate_mssql : generate (dialect_of mssql_db) renaming ≡ ok (renamed mssql_text)
unfolding generate Modify.generate_update Modify.write_assignments Modify.write_assignments_rest
    Modify.write_assignment Modify.assigned_column Select.write_clause Visit.visit
    Visit.compare_text Visit.column_text State.write State.◌<>◌ State.bind_value State.finish
    State.sql_value_to_bound_value dialect_with Mssql.mssql_with Mssql.quote_id Quote.quote_with
    Quote.escape
generate_mssql = refl

generate_numbered : generate (numbered_dialect postgres_db) renaming ≡ ok (renamed numbered_text)
unfolding generate Modify.generate_update Modify.write_assignments Modify.write_assignments_rest
    Modify.write_assignment Modify.assigned_column Select.write_clause Visit.visit
    Visit.compare_text Visit.column_text State.write State.◌<>◌ State.bind_value State.finish
    State.sql_value_to_bound_value dialect_with Postgres.postgres_with Postgres.quote_id
    Quote.quote_with Quote.escape
generate_numbered = refl

renaming-regular : regular_request renaming ≡ true
unfolding regular_request all_of regular
renaming-regular = refl

generate-count_placeholders_example : count_placeholders bracketed mssql_text ≡ 2
generate-count_placeholders_example =
    generate-count_placeholders mssql_db renaming (renamed mssql_text) renaming-regular
      generate_mssql

generate-final_example : final bracketed plain mssql_text ≡ plain
generate-final_example =
    generate-final mssql_db renaming (renamed mssql_text) renaming-regular generate_mssql

generate-static_values_example :
    (string (codes "x") ∷ int64 (pos 7) ∷ []) ≡ static_values (renamed mssql_text).slots
generate-static_values_example =
    generate-static_values mssql_db renaming (renamed mssql_text) renaming-regular generate_mssql

generate-numbered_example : marks double_quoted plain numbered_text ≡ 256 ∷ 257 ∷ []
unfolding numbered
generate-numbered_example =
    generate-numbered postgres_db renaming (renamed numbered_text) refl renaming-regular
      generate_numbered

abbrev no_rows : Request
no_rows = plain_select (record {
  table_name = codes "t";
  columns = [];
  condition = none;
  order_by = [];
  limit = some 0;
  offset = none;
  is_distinct = false;
  group_by = [];
  having = none;
  ctes = [];
})

no_rows-regular : regular_request no_rows ≡ true
unfolding regular_request Requests.regular_query all_of
no_rows-regular = refl

literal-regular : regular (literal (int64 (pos 7))) ≡ true
unfolding regular
literal-regular = refl

generate-returns_example : returns (generate (dialect_of mssql_db) no_rows) ≡ false
unfolding limit_of
generate-returns_example = generate-returns mssql_db no_rows no_rows-regular

initial-IsGood : IsGood initial
initial-IsGood = record { counted = refl; static = refl }

in_list-nil_example :
    (count_placeholders double_quoted
        (Visit.visit (dialect_of sqlite_db) (in_list (literal (int64 (pos 7))) nil false) initial).0
      ≡ 0)
    × ((Visit.visit (dialect_of sqlite_db) (in_list (literal (int64 (pos 7))) nil false) initial).1
        ≡ (Visit.visit (dialect_of sqlite_db) (literal (int64 (pos 7))) initial).1)
    × (length (Visit.visit (dialect_of sqlite_db) (literal (int64 (pos 7))) initial).1.slots ≡ 1)
    × ((Visit.visit (dialect_of sqlite_db) (literal (int64 (pos 7))) initial).1.params
        ≡ static_values
            (Visit.visit (dialect_of sqlite_db) (literal (int64 (pos 7))) initial).1.slots)
unfolding bound
in_list-nil_example =
    in_list-nil sqlite_db (literal (int64 (pos 7))) false initial literal-regular initial-IsGood

date_add-swapped_example :
    (marks bracketed plain
        (Visit.visit
          (numbered_dialect mssql_db)
          (date_add (literal (string (codes "d"))) (literal (int64 (pos 7))))
          initial).0
      ≡ 257 ∷ 256 ∷ [])
    × ((Visit.visit
          (numbered_dialect mssql_db)
          (date_add (literal (string (codes "d"))) (literal (int64 (pos 7))))
          initial).1.params
        ≡ string (codes "d") ∷ int64 (pos 7) ∷ [])
unfolding State.sql_value_to_bound_value
date_add-swapped_example = date_add-swapped (string (codes "d")) (int64 (pos 7)) initial

read_quoted-quote_id_example :
    read_quoted bracketed ((dialect_of mssql_db).quote_id (codes "n]") ++ codes " = ?")
    ≡ some (codes "n]", codes " = ?")
read_quoted-quote_id_example = read_quoted-quote_id mssql_db (codes "n]") (codes " = ?") refl

age_is-regular : regular age_is ≡ true
unfolding regular
age_is-regular = refl

only_a : ¬ IsIn (codes "b") (codes "a" ∷ [])
unfolding Oracle.has_column same
only_a h = absurd (ground (arith, has_column-IsIn h))

-- "a" is a conflict column, "b" is updated.
a_left_out : Kept (codes "a" ∷ []) (codes "a" ∷ codes "b" ∷ []) (codes "b" ∷ [])
a_left_out = Kept.left_out (codes "a") IsIn.here (Kept.kept (codes "b") only_a Kept.no_columns)

abbrev question : ℕ → Text
question index = codes "?"

generate_upsert-Kept_example :
    (before : Text) × ((after : Text) × (Oracle.generate_upsert question
          (codes "t")
          (codes "a" ∷ codes "b" ∷ [])
          []
          (codes "a" ∷ [])
          []
        ≡ ok (before ++ after))
      × (Oracle.generate_upsert question
            (codes "t")
            (codes "a" ∷ codes "b" ∷ [])
            []
            (codes "a" ∷ [])
            (codes "a" ∷ codes "b" ∷ [])
          ≡ ok (
              before
              ++ (codes " WHEN MATCHED THEN UPDATE SET target.\"b\" = source.\"b\"" ++ after)))
      × (starts_with after (codes " WHEN NOT MATCHED THEN INSERT (") ≡ true))
unfolding Oracle.quote_id
generate_upsert-Kept_example =
    generate_upsert-Kept question (codes "t") (codes "a" ∷ codes "b" ∷ []) [] (codes "a" ∷ [])
      (codes "a" ∷ codes "b" ∷ []) (codes "b" ∷ []) refl refl a_left_out
