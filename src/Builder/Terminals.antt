-- ===== src/Builder/Terminals.antt =====
-- include/cpplinq/core/query_builder.h: the terminal operations of the builders, as sessions with
-- the driver. `map_row` stands for the RowMapper, which reads the fields of a row.
pub mod Executed
pub mod Others
use cpplinq.Common.{
  ℕ, zero, suc, ◌-◌, ◌%◌, ◌^◌, Bool, true, false, not, List, [], ◌∷◌, map, Option, none, some,
  Outcome, ok, throws, db_exception, is_empty, ◌&&◌, if◌then◌else◌,
}
use cpplinq.Common.Int.{ℤ, pos, negsuc}
use cpplinq.Text.{Text, codes}
use cpplinq.Value.{BoundValue}
use cpplinq.Expr.{ExprNode, AssignExpr, column_ref}
use cpplinq.Dialect.Quote.{Dialect}
use cpplinq.Generator.State.{GeneratedSql, ParameterSlot}
use cpplinq.Generator.Request.{Request, generate}
use cpplinq.Session.{
  Command, Driver, History, Session, pure, raise, lift, send, ◌>>=◌, ◌>>◌, bind_all,
}
use cpplinq.Builder.{QueryBuilder, get_column_names, select_query, select_request}

-- The terminals of all builders: directly if nothing is to be bound, and else through a statement.
module _ (driver : Driver) where
  unfoldable pub open_reader : GeneratedSql → Session Bool
  open_reader result =
      if is_empty result.params
      then send driver (Command.execute_query_direct result.sql)
      else (send driver (Command.prepare result.sql)
          >> (bind_all driver 0 result.params >> send driver Command.execute_query))

  unfoldable pub run_command : GeneratedSql → Session ℕ
  run_command result =
      if is_empty result.params
      then send driver (Command.execute_non_query_direct result.sql)
      else (send driver (Command.prepare result.sql)
          >> (bind_all driver 0 result.params >> send driver Command.execute_non_query))

  -- while (reader->next()) map_row(...). `fuel` bounds the rows; none where the driver has more.
  unfoldable pub read_rows {ℓ} : {R : Type ℓ} → Session R → ℕ → Session (Option (List R))
  read_rows map_row zero = pure none
  read_rows map_row (suc fuel) = do
    row ← send driver Command.next
    if row
        then (do
          r ← map_row
          rest ← read_rows map_row fuel
          pure (elim rest [ none ↦ none | some rs ↦ some (r ∷ rs) ]))
        else pure (some [])

  -- reader && reader->next()
  unfoldable pub next_row : Bool → Session Bool
  next_row false = pure false
  next_row true = send driver Command.next

  unfoldable pub fetch_all {ℓ} :
      {R : Type ℓ} → Dialect → Session R → ℕ → Request → Session (Option (List R))
  unfolding open_reader read_rows
  fetch_all d map_row fuel request = do
    result ← lift (generate d request)
    reader ← open_reader result
    if reader then read_rows map_row fuel else pure (some [])

-- static_cast<size_t>
unfoldable pub to_size : ℤ → ℕ
to_size (pos n) = n % 2 ^ 64
to_size (negsuc n) = 2 ^ 64 - 1 - n % 2 ^ 64

unfoldable pub column_of : ExprNode → Text
column_of (column_ref table_name column_name) = column_name
column_of _ = []

module _ (driver : Driver) (d : Dialect) where
  -- count() of each builder, with its call of the generator.
  unfoldable pub fetch_count : Request → Session ℕ
  unfolding open_reader next_row to_size
  fetch_count request = do
    result ← lift (generate d request)
    reader ← open_reader driver result
    row ← next_row driver reader
    if row then (do n ← send driver (Command.get_int64 0); pure (to_size n)) else pure 0

  -- What the code after `reader->next()` reads of the row of an aggregate.
  unfoldable pub read_double : Bool → Session (Option ℕ)
  read_double false = pure none
  read_double true = do
    is_null ← send driver (Command.is_null 0)
    if is_null then pure none else (do x ← send driver (Command.get_double 0); pure (some x))

  -- prepare_update, prepare_remove and prepare: the statement is prepared, and its slots are kept.
  unfoldable pub prepare_request : Request → Session (List ParameterSlot)
  prepare_request request = do
    result ← lift (generate d request)
    send driver (Command.prepare result.sql)
    pure result.slots

-- results.empty() ? std::nullopt : results[0]
abbrev pub first_of {ℓ} : {R : Type ℓ} → Outcome (Option (List R)) → Outcome (Option (Option R))
first_of (throws e) = throws e
first_of (ok none) = ok none
first_of (ok (some [])) = ok (some none)
first_of (ok (some (r ∷ rs))) = ok (some (some r))

module _ {ℓ} {E : Type ℓ} (driver : Driver) (d : Dialect) where
  unfoldable pub to_list {κ} :
      {R : Type κ} → Session R → ℕ → QueryBuilder E → Session (Option (List R))
  unfolding fetch_all select_request
  to_list map_row fuel q = fetch_all driver d map_row fuel (select_request q)

  -- Up to the reader that the stream takes; `timeout` and `stoppable` are the options.
  unfoldable pub stream : Option ℕ → Bool → QueryBuilder E → Session Bool
  unfolding select_request open_reader
  stream timeout stoppable q = do
    result ← lift (generate d (select_request q))
    if is_empty result.params && (not (has timeout) && not stoppable)
        then send driver (Command.execute_query_direct result.sql)
        else (do
          send driver (Command.prepare result.sql)
          set_timeout timeout
          (if stoppable then send driver Command.set_stop_token else pure {0} tt)
          bind_all driver 0 result.params
          send driver Command.execute_query)
    where
      has : Option ℕ → Bool
      has none = false
      has (some n) = true

      set_timeout : Option ℕ → Session {0} Unit
      set_timeout none = pure tt
      set_timeout (some n) = send driver (Command.set_timeout n)

  unfoldable pub count : QueryBuilder E → Session ℕ
  unfolding fetch_count
  count q = fetch_count driver d (Request.count q.table_name q.condition false none)

  unfoldable pub count_distinct : ExprNode → QueryBuilder E → Session ℕ
  unfolding fetch_count column_of
  count_distinct column q =
      if is_empty (column_of column)
      then raise db_exception
      else fetch_count driver d
          (Request.count q.table_name q.condition true (some (column_of column)))

  unfoldable pub aggregate_impl : Text → ExprNode → QueryBuilder E → Session (Option ℕ)
  unfolding open_reader next_row read_double column_of
  aggregate_impl func_name column q =
      if is_empty (column_of column) then raise db_exception else (do
        result ←
            lift
              (generate d (Request.aggregate func_name q.table_name (column_of column) q.condition))
        reader ← open_reader driver result
        row ← next_row driver reader
        read_double driver d row)

  unfoldable pub avg : ExprNode → QueryBuilder E → Session (Option ℕ)
  unfolding aggregate_impl
  avg column q = aggregate_impl (codes "AVG") column q

  unfoldable pub sum : ExprNode → QueryBuilder E → Session (Option ℕ)
  unfolding aggregate_impl
  sum column q = aggregate_impl (codes "SUM") column q

  unfoldable pub min_val : ExprNode → QueryBuilder E → Session (Option ℕ)
  unfolding aggregate_impl
  min_val column q = aggregate_impl (codes "MIN") column q

  unfoldable pub max_val : ExprNode → QueryBuilder E → Session (Option ℕ)
  unfolding aggregate_impl
  max_val column q = aggregate_impl (codes "MAX") column q

  unfoldable pub update : List AssignExpr → QueryBuilder E → Session ℕ
  unfolding run_command
  update assignments q =
      lift (generate d (Request.update q.table_name assignments q.condition)) >>= run_command driver

  unfoldable pub remove : QueryBuilder E → Session ℕ
  unfolding run_command
  remove q = lift (generate d (Request.delete q.table_name q.condition)) >>= run_command driver

  unfoldable pub prepare_update : List AssignExpr → QueryBuilder E → Session (List ParameterSlot)
  unfolding prepare_request
  prepare_update assignments q =
      prepare_request driver d (Request.update q.table_name assignments q.condition)

  unfoldable pub prepare_remove : QueryBuilder E → Session (List ParameterSlot)
  unfolding prepare_request
  prepare_remove q = prepare_request driver d (Request.delete q.table_name q.condition)

  unfoldable pub prepare : QueryBuilder E → Session (List ParameterSlot)
  unfolding prepare_request select_request
  prepare q = prepare_request driver d (select_request q)

  -- The first column, or "1"; not the offset, the DISTINCT and the common table expressions.
  unfoldable pub exists_request : QueryBuilder E → Request
  unfolding select_query get_column_names
  exists_request q = Request.plain_select (record (select_query q) {
    ctes = [];
    columns = first_column (get_column_names q);
    limit = some 1;
    offset = none;
    is_distinct = false;
  })
    where
      first_column : List Text → List Text
      first_column [] = codes "1" ∷ []
      first_column (c ∷ cs) = c ∷ []

  unfoldable pub exists : QueryBuilder E → Session Bool
  unfolding exists_request open_reader next_row
  exists q = do
    result ← lift (generate d (exists_request q))
    reader ← open_reader driver result
    next_row driver reader

  -- The builder is left with its limit, whatever to_list does: LimitGuard restores it.
  unfoldable pub first {κ} :
      {R : Type κ}
      → Session R
      → ℕ
      → QueryBuilder E
      → History
      → (Outcome (Option (Option R)) × QueryBuilder E) × History
  unfolding to_list
  first map_row fuel q h =
      let limited = record q { limit = some 1 } in
      let (r, h') = to_list map_row fuel limited h in
      ((first_of r, record limited { limit = q.limit }), h')
