-- ===== src/Context.antt =====
-- include/cpplinq/core/db_context.h: DbContext. The operations are sessions with the driver; the
-- children hold the bulk operations.
pub mod Slices
pub mod Rows
pub mod Inserted
pub mod InsertMany
pub mod DeleteMany
pub mod UpdateMany
pub mod Upsert
use cpplinq.Common.{
  ℕ, zero, suc, ◌+◌, ◌-◌, min, Bool, true, false, not, List, [], ◌∷◌, ◌++◌, map, Option, none, some,
  length, is_empty, ltb, ◌==◌, ◌||◌, if◌then◌else◌,
}
use cpplinq.Common.Int.{ℤ, pos}
use cpplinq.Text.{Text, codes}
use cpplinq.Value.{BoundValue}
use cpplinq.Dialect.Quote.{Dialect}
use cpplinq.Generator.State.{GeneratedSql}
use cpplinq.Generator.Schema.{generate_create_table}
use cpplinq.Generator.Modify.{generate_insert}
use cpplinq.Session.{Command, Driver, Session, pure, send, ◌>>=◌, ◌>>◌, bind_all}
use cpplinq.Session.Observed.{take, drop}
use cpplinq.Table.{ColumnDef, TableDef, make_column_info}

-- The fields of DriverCapabilities that DbContext reads.
pub record DriverCapabilities : Type 0 where
  pub array_batch_insert : Bool
  pub default_batch_chunk_size : ℕ

module _ {ℓ} {A : Type ℓ} where
  -- The elements for which a test holds.
  abbrev pub filter : (A → Bool) → List A → List A
  filter p [] = []
  filter p (x ∷ xs) = let rest = filter p xs in if p x then x ∷ rest else rest

  -- The element that the last round of a loop has assigned.
  abbrev pub last_of : Option A → List A → Option A
  last_of o [] = o
  last_of o (x ∷ xs) = last_of (some x) xs

  -- for (offset = 0; offset < xs.size(); offset += chunk_size): the elements of each round, those
  -- from `offset` on, as many as count = min(chunk_size, xs.size() - offset).
  unfoldable pub slices : ℕ → ℕ → ℕ → List A → List (List A)
  slices zero chunk_size offset xs = []
  slices (suc fuel) chunk_size offset xs =
      let rest = slices fuel chunk_size (offset + chunk_size) xs in
      if ltb offset (length xs)
      then take (min chunk_size (length xs - offset)) (drop offset xs) ∷ rest
      else []

-- The size of the chunks, where 0 asks for the driver's.
unfoldable pub chunk_size_of : DriverCapabilities → ℕ → ℕ
chunk_size_of caps chunk_size =
    if chunk_size == 0
    then (if caps.default_batch_chunk_size == 0 then 1000 else caps.default_batch_chunk_size)
    else chunk_size

module _ {ℓ} {E : Type ℓ} (driver : Driver) (d : Dialect) where
  unfoldable pub ensure_table : TableDef E → Session {0} Unit
  ensure_table table = send driver (
      Command.execute (generate_create_table d table.name (map make_column_info table.columns)).sql)

  unfoldable pub truncate : TableDef E → Session {0} Unit
  truncate table =
      if d.supports_truncate
      then send driver (Command.execute (codes "TRUNCATE TABLE " ++ d.quote_id table.name))
      else send driver (Command.execute (codes "DELETE FROM " ++ d.quote_id table.name))

-- The columns that an INSERT names, and their values in an entity.
module _ {ℓ} {E : Type ℓ} where
  abbrev pub inserted_columns : TableDef E → List (ColumnDef E)
  inserted_columns table = filter (λ c. not c.is_auto_increment) table.columns

  abbrev pub values_of : List (ColumnDef E) → E → List BoundValue
  values_of columns e = map (λ c. c.read e) columns

  -- pk_col: the name of the last column that the database numbers, and else the empty text.
  abbrev pub generated_key : TableDef E → Text
  generated_key table = elim (last_of none (filter (λ c. c.is_auto_increment) table.columns)) [
    | none ↦ []
    | some c ↦ c.name
  ]

  unfoldable pub insert_statement : Dialect → TableDef E → E → GeneratedSql
  insert_statement d table entity =
      let returning = if is_empty (generated_key table) then none else some (generated_key table) in
      generate_insert d table.name (map (λ c. c.name) (inserted_columns table))
        (values_of (inserted_columns table) entity) returning

module _ (driver : Driver) where
  unfoldable pub execute_raw : Text → Session {0} Unit
  execute_raw sql = send driver (Command.execute sql)

  -- reader && reader->next() ? reader->get_int64(0) : 0
  unfoldable pub first_int64 : Bool → Session ℤ
  first_int64 false = pure (pos 0)
  first_int64 true = do
    row ← send driver Command.next
    if row then send driver (Command.get_int64 0) else pure (pos 0)

  unfoldable pub last_inserted : Dialect → Text → Text → Session ℤ
  unfolding first_int64
  last_inserted d table_name pk_col =
      let query = d.last_insert_id_query table_name pk_col in
      if not d.supports_last_insert_id || is_empty query then pure (pos 0) else do
        send driver (Command.prepare query)
        reader ← send driver Command.execute_query
        first_int64 reader

  -- The rest of insert, once the values have been bound.
  unfoldable pub run_insert : Dialect → Text → Text → Session ℤ
  unfolding first_int64 last_inserted
  run_insert d table_name pk_col =
      if is_empty pk_col
      then (do send driver Command.execute_non_query; pure (pos 0))
      else (if not (is_empty (d.returning_clause pk_col)) || not (is_empty (d.output_clause pk_col))
          then (do reader ← send driver Command.execute_query; first_int64 reader)
          else (do send driver Command.execute_non_query; last_inserted d table_name pk_col))

  unfoldable pub insert {ℓ} : {E : Type ℓ} → Dialect → TableDef E → E → Session ℤ
  unfolding insert_statement run_insert
  insert d table entity = do
    send driver (Command.prepare (insert_statement d table entity).sql)
    bind_all driver 0 (insert_statement d table entity).params
    run_insert d table.name (generated_key table)
