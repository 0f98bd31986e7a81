-- ===== src/Context/InsertMany.antt =====
-- DbContext::insert_many.
use cpplinq.Common.{
  ℕ, ◌<◌, true, false, List, [], ◌∷◌, ◌++◌, map, none, length, length-map, is_empty, if◌then◌else◌,
  ◌≡◌, refl, sym, append-nil,
}
use cpplinq.Common.Int.{pos}
use cpplinq.Text.{Text}
use cpplinq.Value.{SqlValue}
use cpplinq.Dialect.Quote.{Dialect}
use cpplinq.Generator.Modify.{generate_insert}
use cpplinq.Session.{Driver, History, Session, pure, ◌>>◌}
use cpplinq.Session.Observed.{observe}
use cpplinq.Session.Triples.{Ends, Outside}
use cpplinq.Table.{TableDef}
use cpplinq.Context.{DriverCapabilities, chunk_size_of, inserted_columns, values_of}
use cpplinq.Context.Slices.{chunk_size_of-positive}
use cpplinq.Context.Rows.{send_rows, execution, dropped-Leads, send_rows-Leads}

module _ {ℓ} {E : Type ℓ} where
  -- The statement of the bulk insert, made with a dummy value for each column.
  unfoldable pub insert_many_sql : Dialect → TableDef E → Text
  insert_many_sql d table =
      let names = map (λ c. c.name) (inserted_columns table) in
      (generate_insert d table.name names (map (λ n. SqlValue.int64 (pos 0)) names) none).sql

module _ {ℓ} {E : Type ℓ} (driver : Driver) (d : Dialect) (table : TableDef E) where
  -- The affected rows are dropped.
  unfoldable pub insert_many : DriverCapabilities → List E → ℕ → Session {0} Unit
  unfolding insert_many_sql chunk_size_of send_rows
  insert_many caps entities chunk_size =
      if is_empty entities
      then pure tt
      else (send_rows driver (values_of (inserted_columns table)) caps.array_batch_insert
            (insert_many_sql d table) (length (inserted_columns table))
            (chunk_size_of caps chunk_size) entities
          >> pure {0} tt)

  -- For every driver, dialect and table, any entities and any chunk size, from a state outside of
  -- transactions, where a driver that takes arrays of rows has a column to insert: if insert_many
  -- returns, the database has executed the insert statement once for each entity, in order, with
  -- the values of its columns, whichever way the driver works; if it throws, the database has
  -- executed nothing more than before; and no transaction stays open.
  pub insert_many-executed :
      (caps : DriverCapabilities) (entities : List E) (chunk_size : ℕ) (h : History)
      → (caps.array_batch_insert ≡ true → 0 < length (inserted_columns table))
      → (observe h).within ≡ false
      → Ends
          (Outside (observe h).executed)
          (Outside (
            (observe h).executed
            ++ map
                (execution (insert_many_sql d table) (values_of (inserted_columns table)))
                entities))
          (insert_many caps entities chunk_size h)
  unfolding insert_many
  insert_many-executed caps [] chunk_size h some_column out =
      (out, sym (append-nil (observe h).executed))
  insert_many-executed caps (e ∷ es) chunk_size h some_column out =
      let row = values_of (inserted_columns table) in
      let sql = insert_many_sql d table in
      let width = length (inserted_columns table) in
      let n = chunk_size_of caps chunk_size in
      let w = (observe h).executed in
      dropped-Leads (Outside w) (Outside (w ++ map (execution sql row) (e ∷ es)))
        (send_rows driver row caps.array_batch_insert sql width n (e ∷ es)) (observe h)
        (send_rows-Leads driver row sql caps.array_batch_insert width n (e ∷ es) (observe h)
          some_column (λ x. sym (length-map (λ c. c.read x) (inserted_columns table)))
          (chunk_size_of-positive caps chunk_size) out)
        h refl
