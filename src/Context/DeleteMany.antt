-- ===== src/Context/DeleteMany.antt =====
-- DbContext::delete_many.
pub mod Executed
use cpplinq.Common.{
  ℕ, zero, suc, ◌<◌, ◌≤◌, Bool, true, false, List, [], ◌∷◌, ◌++◌, map, imap, length, is_empty, ltb,
  ◌==◌, db_exception, if◌then◌else◌, ◌≡◌, refl, ap, sym, ◌∙◌, subst, arith, append-nil,
}
use cpplinq.Common.Int.{ℤ}
use cpplinq.Text.{Text, codes, join}
use cpplinq.Value.{SqlValue, BoundValue}
use cpplinq.Dialect.Quote.{Dialect}
use cpplinq.Session.{
  Command, Driver, History, Session, pure, raise, send, ◌>>=◌, ◌>>◌, sum_of, bind_all,
}
use cpplinq.Session.Transaction.{in_transaction}
use cpplinq.Session.Observed.{Execution, observe}
use cpplinq.Session.Triples.{Ends, Outside}
use cpplinq.Table.{ColumnDef, TableDef}
use cpplinq.Context.{DriverCapabilities, filter, chunk_size_of, slices}
use cpplinq.Context.Slices.{chunk_size_of-positive}
use cpplinq.Context.Rows.{send_chunk, execution}
use cpplinq.Context.UpdateMany.{key_columns}

-- The types that a primary key may have; `other` is a type that a BoundValue holds as it is.
pub data PkValue : Type 0 where
  boolean : Bool → PkValue
  unsigned : ℕ → PkValue
  signed : ℤ → PkValue
  floating : ℕ → PkValue
  text : Text → PkValue
  other : BoundValue → PkValue

unfoldable pub pk_value : PkValue → BoundValue
pk_value (PkValue.boolean b) = SqlValue.boolean_value b
pk_value (PkValue.unsigned n) = SqlValue.uint64 n
pk_value (PkValue.signed i) = SqlValue.int64 i
pk_value (PkValue.floating bits) = SqlValue.double bits
pk_value (PkValue.text t) = SqlValue.string t
pk_value (PkValue.other v) = v

-- The row of an id on the way of arrays.
abbrev pub pk_row : PkValue → List BoundValue
pk_row id = pk_value id ∷ []

module _ (d : Dialect) (table_name pk_col : Text) where
  unfoldable pub delete_one_sql : Text
  delete_one_sql =
      codes "DELETE FROM "
      ++ (d.quote_id table_name
          ++ (codes " WHERE " ++ (d.quote_id pk_col ++ (codes " = " ++ d.placeholder 0))))

  unfoldable pub delete_in_sql : List PkValue → Text
  unfolding join
  delete_in_sql ids =
      codes "DELETE FROM "
      ++ (d.quote_id table_name
          ++ (codes " WHERE "
              ++ (d.quote_id pk_col
                  ++ (codes " IN ("
                      ++ (join (codes ", ") (imap (λ i id. d.placeholder i) 0 ids) ++ codes ")")))))

module _ (driver : Driver) (d : Dialect) where
  -- One round of the loop over the chunks.
  unfoldable pub delete_chunk : Text → Text → List PkValue → Session ℕ
  unfolding delete_in_sql pk_value
  delete_chunk table_name pk_col ids = do
    send driver (Command.prepare (delete_in_sql d table_name pk_col ids))
    bind_all driver 0 (map pk_value ids)
    send driver Command.execute_non_query

  unfoldable pub delete_ids : Bool → Text → Text → ℕ → List PkValue → Session ℕ
  unfolding delete_one_sql delete_chunk slices pk_value send_chunk
  delete_ids true table_name pk_col n ids = in_transaction driver (
      sum_of (send_chunk driver pk_row (delete_one_sql d table_name pk_col) 1) 0
        (slices (length ids) n 0 ids))
  delete_ids false table_name pk_col n ids =
      in_transaction driver
        (sum_of (delete_chunk table_name pk_col) 0 (slices (length ids) n 0 ids))

  -- By the columns of the key: none and several are refused.
  unfoldable pub delete_by {ℓ} :
      {E : Type ℓ} → List (ColumnDef E) → Bool → Text → ℕ → List PkValue → Session ℕ
  unfolding delete_ids
  delete_by [] array table_name n ids = raise db_exception
  delete_by (c ∷ []) array table_name n ids = delete_ids array table_name c.name n ids
  delete_by (c ∷ _ ∷ _) array table_name n ids = raise db_exception

  unfoldable pub delete_many {ℓ} :
      {E : Type ℓ} → DriverCapabilities → TableDef E → List PkValue → ℕ → Session ℕ
  unfolding delete_by chunk_size_of
  delete_many caps table ids chunk_size =
      if is_empty ids
      then pure 0
      else delete_by (key_columns table) caps.array_batch_insert table.name
          (chunk_size_of caps chunk_size) ids

-- What the database executes for the ids, on either way.
abbrev pub deletions : Dialect → Bool → Text → Text → ℕ → List PkValue → List Execution
deletions d true table_name pk_col n ids =
    map (execution (delete_one_sql d table_name pk_col) pk_row) ids
deletions d false table_name pk_col n ids =
    map (λ c. record { sql = delete_in_sql d table_name pk_col c; values = map pk_value c })
      (slices (length ids) n 0 ids)
