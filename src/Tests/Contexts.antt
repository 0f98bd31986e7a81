-- ===== src/Tests/Contexts.antt =====
-- The operations of DbContext with a driver that grants every call.
use cpplinq.Common.{ℕ, true, false, List, [], ◌∷◌, ◌++◌, map, imap, ok, ◌≡◌, refl, arith}
use cpplinq.Common.Int.{pos}
use cpplinq.Text.{Text, codes}
use cpplinq.Value.{SqlType, int64}
use cpplinq.Generator.State.{GeneratedSql, static_slot}
use cpplinq.Generator.Modify
use cpplinq.Dialect.Quote
use cpplinq.Dialect.Sqlite
use cpplinq.Dialect.Sqlite.{sqlite}
use cpplinq.Text
use cpplinq.Table.{ColumnDef, TableDef}
use cpplinq.Session.{Command, Answer, History, Driver}
use cpplinq.Session.Observed.{Execution, observe, array_of}
use cpplinq.Session.Triples.{Ends, Leads, Inside, Outside, Working}
use cpplinq.Driver.Defaults.{insert_many_batch, insert_many_batch-array_of}
use cpplinq.Context.{
  DriverCapabilities, insert, insert_statement, generated_key, inserted_columns, values_of,
  chunk_size_of,
}
use cpplinq.Context.Slices.{All}
use cpplinq.Context.Inserted.{Attempted, Inserted, insert-executed}
use cpplinq.Context.Rows.{execution}
use cpplinq.Context.InsertMany.{insert_many, insert_many_sql, insert_many-executed}
use cpplinq.Context.UpdateMany.{update_many, update_many_sql, update_many-executed}
use cpplinq.Context.DeleteMany.{PkValue, pk_value, delete_many, deletions}
use cpplinq.Context.DeleteMany.Executed.{delete_many-executed, bound_values, HasSize}
use cpplinq.Context.Upsert.{
  upsert, upsert_many, upsert_statement, auto_conflict_cols, actual_update_cols, contains,
  upsert-executed, upsert_many-executed, auto_conflict_cols-first,
}

abbrev granted : (c : Command) → Answer c
granted (Command.prepare sql) = tt
granted Command.reset = tt
granted (Command.bind i v) = tt
granted Command.execute_query = true
granted Command.next = false
granted (Command.get_int64 col) = pos 0
granted (Command.is_null col) = true
granted (Command.get_double col) = 0
granted (Command.set_timeout seconds) = tt
granted Command.set_stop_token = tt
granted Command.execute_non_query = 1
granted (Command.execute sql) = tt
granted (Command.execute_query_direct sql) = true
granted (Command.execute_non_query_direct sql) = 1
granted (Command.insert_many_batch sql flat_params col_count row_count) = row_count
granted Command.begin_transaction = tt
granted Command.commit = tt
granted Command.rollback = tt

abbrev pub granting : Driver
granting h c = ok (granted c)

abbrev pub id_column : ColumnDef ℕ
id_column = record {
  name = codes "id";
  sql_type = SqlType.integer;
  nullable = false;
  read = λ n. int64 (pos n);
  is_primary_key = true;
  is_auto_increment = false;
  is_not_null = false;
  is_unique = false;
}

abbrev pub age_column : ColumnDef ℕ
age_column = record id_column { name = codes "age"; is_primary_key = false }

abbrev pub people : TableDef ℕ
people = record { name = codes "people"; columns = id_column ∷ age_column ∷ [] }

abbrev arrays : DriverCapabilities
arrays = record { array_batch_insert = true; default_batch_chunk_size = 2 }

insert_many-executed_example :
    Ends
      (Outside [])
      (Outside (
        []
        ++ map
            (execution (insert_many_sql sqlite people) (values_of (inserted_columns people)))
            (7 ∷ 8 ∷ 9 ∷ [])))
      (insert_many granting sqlite people arrays (7 ∷ 8 ∷ 9 ∷ []) 0 [])
insert_many-executed_example =
    insert_many-executed granting sqlite people arrays (7 ∷ 8 ∷ 9 ∷ []) 0 [] (λ _. omega arith) refl

update_many-executed_example :
    Ends
      (Outside [])
      (Outside (
        []
        ++ map
            (λ e. record {
              sql = update_many_sql sqlite people;
              values = int64 (pos e) ∷ int64 (pos e) ∷ [];
            })
            (7 ∷ 8 ∷ 9 ∷ [])))
      (update_many granting sqlite people arrays (7 ∷ 8 ∷ 9 ∷ []) 2 [])
update_many-executed_example =
    update_many-executed granting sqlite people arrays (7 ∷ 8 ∷ 9 ∷ []) 2 [] refl refl

abbrev ids : List PkValue
ids = PkValue.unsigned 3 ∷ PkValue.unsigned 4 ∷ PkValue.unsigned 5 ∷ []

delete_many-executed_example :
    let es = deletions sqlite true (codes "people") (codes "id") (chunk_size_of arrays 0) ids in
    Ends (Outside []) (Outside ([] ++ es)) (delete_many granting sqlite arrays people ids 0 [])
    × (bound_values es ≡ map pk_value ids)
    × All (HasSize (chunk_size_of arrays 0)) es
delete_many-executed_example =
    delete_many-executed granting sqlite arrays people id_column ids 0 [] refl refl

abbrev upserted : GeneratedSql
upserted = record {
  sql =
      codes
        "INSERT INTO \"people\" (\"id\", \"age\") VALUES (?, ?) ON CONFLICT (\"id\") DO UPDATE SET \"age\" = EXCLUDED.\"age\"";
  params = int64 (pos 7) ∷ int64 (pos 7) ∷ [];
  slots = static_slot (int64 (pos 7)) ∷ static_slot (int64 (pos 7)) ∷ [];
}

upsert_statement-upserted : upsert_statement sqlite people 7 [] [] ≡ ok upserted
unfolding upsert_statement auto_conflict_cols actual_update_cols contains Text.same Text.join
    Modify.generate_upsert Sqlite.sqlite Sqlite.sqlite_with Sqlite.placeholder Sqlite.quote_id
    Quote.quote_with Quote.escape Quote.default_generate_upsert Quote.column_list
    Quote.placeholder_list Quote.pair_list imap
upsert_statement-upserted = refl

upsert_many-executed_example :
    Ends
      (Outside [])
      (Outside ([] ++ map (execution upserted.sql (values_of people.columns)) (7 ∷ 8 ∷ [])))
      (upsert_many granting sqlite people (7 ∷ 8 ∷ []) [] [] [])
upsert_many-executed_example =
    upsert_many-executed granting sqlite people 7 (8 ∷ []) [] [] upserted []
      upsert_statement-upserted refl

upsert-executed_example :
    Ends
      (Outside [])
      (Outside ([] ++ record { sql = upserted.sql; values = upserted.params } ∷ []))
      (upsert granting sqlite people 7 [] [] [])
upsert-executed_example =
    upsert-executed granting sqlite people 7 [] [] upserted [] upsert_statement-upserted refl

auto_conflict_cols-first_example :
    auto_conflict_cols [] (id_column ∷ record id_column { name = codes "tenant" } ∷ [])
    ≡ codes "id" ∷ []
auto_conflict_cols-first_example =
    auto_conflict_cols-first (id_column ∷ record id_column { name = codes "tenant" } ∷ [])

abbrev begun : History
begun = record { command = Command.begin_transaction; succeeded = true } ∷ []

insert_many_batch-array_of_example :
    Leads
      (Inside [])
      (observe begun)
      (insert_many_batch granting (codes "INSERT") (int64 (pos 7) ∷ int64 (pos 8) ∷ []) 1 2)
      (Working [] ([] ++ array_of (codes "INSERT") (int64 (pos 7) ∷ int64 (pos 8) ∷ []) 1 2))
insert_many_batch-array_of_example =
    insert_many_batch-array_of granting (codes "INSERT") (int64 (pos 7) ∷ int64 (pos 8) ∷ []) 1 2 []
      [] (observe begun) ((refl, refl), refl)

insert-executed_example :
    let g = insert_statement sqlite people 7 in
    let x : Execution = record { sql = g.sql; values = g.params } in
    let q : Execution = record {
      sql = sqlite.last_insert_id_query people.name (generated_key people);
      values = [];
    } in
    Ends (Attempted [] x q) (Inserted [] x q) (insert granting sqlite people 7 [])
insert-executed_example = insert-executed granting sqlite people 7 [] refl
