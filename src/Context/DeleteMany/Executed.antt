-- ===== src/Context/DeleteMany/Executed.antt =====
-- What delete_many has executed.
use cpplinq.Common.{
  ℕ, ◌<◌, ◌≤◌, Bool, true, false, List, [], ◌∷◌, ◌++◌, map, length, length-map, ◌≡◌, refl, ap, sym,
  ◌∙◌, subst, arith, append-nil,
}
use cpplinq.Text.{Text}
use cpplinq.Value.{BoundValue}
use cpplinq.Dialect.Quote.{Dialect}
use cpplinq.Session.{Command, Driver, History, send, ◌>>◌, sum_of, bind_all}
use cpplinq.Session.Observed.{Observed, Execution, observe, succeed}
use cpplinq.Session.Triples.{
  Ends, Leads, Inside, Outside, Working, weaken-Leads, call-Leads, sum_of-Leads,
  in_transaction-Leads,
}
use cpplinq.Session.Rows.{Prepared, execute_row-Leads}
use cpplinq.Table.{ColumnDef, TableDef}
use cpplinq.Context.{DriverCapabilities, chunk_size_of, slices}
use cpplinq.Context.Slices.{All, flatten, flatten-slices, slices-bounded, chunk_size_of-positive}
use cpplinq.Context.Rows.{execution, map-append, gathered-each, chunks-Leads}
use cpplinq.Context.UpdateMany.{key_columns}
use cpplinq.Context.DeleteMany.{
  PkValue, pk_value, pk_row, delete_one_sql, delete_in_sql, delete_chunk, delete_ids, delete_by,
  delete_many, deletions,
}

abbrev pub bound_values : List Execution → List BoundValue
bound_values [] = []
bound_values (x ∷ xs) = x.values ++ bound_values xs

abbrev pub HasSize : ℕ → Execution → Type 0
HasSize n x = (0 < length x.values) × (length x.values ≤ n)

module _ (d : Dialect) (table_name pk_col : Text) where
  abbrev chunk_execution : List PkValue → Execution
  chunk_execution c = record { sql = delete_in_sql d table_name pk_col c; values = map pk_value c }

  one_by_one :
      (ids : List PkValue)
      → bound_values (map (execution (delete_one_sql d table_name pk_col) pk_row) ids)
        ≡ map pk_value ids
  one_by_one [] = refl
  one_by_one (i ∷ ids) = ap (λ l. pk_value i ∷ l) (one_by_one ids)

  in_chunks :
      (cs : List (List PkValue)) → bound_values (map chunk_execution cs) ≡ map pk_value (flatten cs)
  in_chunks [] = refl
  in_chunks (c ∷ cs) =
      ap (λ l. map pk_value c ++ l) (in_chunks cs) ∙ sym (map-append pk_value c (flatten cs))

  -- The values of the executions are the ids, in order.
  deletions-values :
      (array : Bool) (n : ℕ) (ids : List PkValue)
      → 0 < n
      → bound_values (deletions d array table_name pk_col n ids) ≡ map pk_value ids
  deletions-values true n ids some = one_by_one ids
  deletions-values false n ids some =
      in_chunks (slices (length ids) n 0 ids)
      ∙ ap (map pk_value) (flatten-slices (length ids) n 0 ids some (omega arith))

  one-HasSize :
      (n : ℕ) (ids : List PkValue)
      → 0 < n
      → All (HasSize n) (map (execution (delete_one_sql d table_name pk_col) pk_row) ids)
  one-HasSize n [] some = tt
  one-HasSize n (i ∷ ids) some = ((omega arith, omega (arith, some)), one-HasSize n ids some)

  chunks-HasSize :
      (n : ℕ) (cs : List (List PkValue))
      → All (λ c. (0 < length c) × (length c ≤ n)) cs
      → All (HasSize n) (map chunk_execution cs)
  chunks-HasSize n [] h = tt
  chunks-HasSize n (c ∷ cs) h = (
    (omega (arith, h.0.0, length-map pk_value c), omega (arith, h.0.1, length-map pk_value c)),
    chunks-HasSize n cs h.1,
  )

  deletions-HasSize :
      (array : Bool) (n : ℕ) (ids : List PkValue)
      → 0 < n
      → All (HasSize n) (deletions d array table_name pk_col n ids)
  deletions-HasSize true n ids some = one-HasSize n ids some
  deletions-HasSize false n ids some =
      chunks-HasSize n (slices (length ids) n 0 ids) (slices-bounded (length ids) n 0 ids some)

module _ (driver : Driver) (d : Dialect) (table_name pk_col : Text) where
  delete_chunk-Leads :
      (w : List Execution) (c : List PkValue) (p : List Execution) (s : Observed)
      → Working w p s
      → Leads
          (Inside w)
          s
          (delete_chunk driver d table_name pk_col c)
          (Working w (p ++ chunk_execution d table_name pk_col c ∷ []))
  unfolding delete_chunk
  delete_chunk-Leads w c p s i =
      let sql = delete_in_sql d table_name pk_col c in
      let vs = map pk_value c in
      call-Leads driver (Command.prepare sql) (Inside w)
        (Working w (p ++ chunk_execution d table_name pk_col c ∷ [])) s
        (λ _. bind_all driver 0 vs >> send driver Command.execute_non_query) i.0
        (λ _.
          weaken-Leads (Inside w) (Prepared sql w (p ++ chunk_execution d table_name pk_col c ∷ []))
            (Working w (p ++ chunk_execution d table_name pk_col c ∷ []))
            (succeed (Command.prepare sql) s)
            (bind_all driver 0 vs >> send driver Command.execute_non_query) (λ t q. q.1)
            (execute_row-Leads driver sql vs w p (succeed (Command.prepare sql) s) (refl, i) refl))

  delete_ids-Leads :
      (array : Bool) (n : ℕ) (ids : List PkValue) (s : Observed)
      → 0 < n
      → s.within ≡ false
      → Leads
          (Outside s.executed)
          s
          (delete_ids driver d array table_name pk_col n ids)
          (Outside (s.executed ++ deletions d array table_name pk_col n ids))
  unfolding delete_ids
  delete_ids-Leads true n ids s some out =
      chunks-Leads driver pk_row (delete_one_sql d table_name pk_col) 1 n ids s (omega arith)
        (λ _. refl) some out
  delete_ids-Leads false n ids s some out =
      let chunks = slices (length ids) n 0 ids in
      let run = chunk_execution d table_name pk_col in
      in_transaction-Leads driver s (map run chunks)
        (sum_of (delete_chunk driver d table_name pk_col) 0 chunks) out
        (subst
          (λ p.
            Leads (Inside s.executed) (succeed Command.begin_transaction s)
              (sum_of (delete_chunk driver d table_name pk_col) 0 chunks) (Working s.executed p))
          (gathered-each run chunks)
          (sum_of-Leads (Inside s.executed) (Working s.executed)
            (delete_chunk driver d table_name pk_col) (λ c. run c ∷ [])
            (λ c p s' i. delete_chunk-Leads s.executed c p s' i) chunks 0 []
            (succeed Command.begin_transaction s) ((refl, refl), refl)))

-- For a table with one key column, every driver, dialect and ids, and any chunk size, from a state
-- outside of transactions: if delete_many returns, the database has executed the deletions, whose
-- values are the ids, in order, each with at least one and at most a chunk of them; if it throws,
-- the database has executed nothing more than before; and no transaction stays open.
pub delete_many-executed {ℓ} :
    {E : Type ℓ} (driver : Driver) (d : Dialect) (caps : DriverCapabilities) (table : TableDef E)
    (c : ColumnDef E) (ids : List PkValue) (chunk_size : ℕ) (h : History)
    → key_columns table ≡ c ∷ []
    → (observe h).within ≡ false
    → let n = chunk_size_of caps chunk_size in
      let es = deletions d caps.array_batch_insert table.name c.name n ids in
      Ends
        (Outside (observe h).executed)
        (Outside ((observe h).executed ++ es))
        (delete_many driver d caps table ids chunk_size h)
      × (bound_values es ≡ map pk_value ids)
      × All (HasSize n) es
unfolding delete_many delete_by slices
delete_many-executed driver d caps table c ids chunk_size h one_key out = (
  run ids,
  deletions-values d table.name c.name caps.array_batch_insert n ids some,
  deletions-HasSize d table.name c.name caps.array_batch_insert n ids some,
)
  where
    n : ℕ
    n = chunk_size_of caps chunk_size

    some : 0 < n
    some = chunk_size_of-positive caps chunk_size

    array : Bool
    array = caps.array_batch_insert

    w : List Execution
    w = (observe h).executed

    none_deleted : (b : Bool) → deletions d b table.name c.name n [] ≡ []
    none_deleted true = refl
    none_deleted false = refl

    run :
        (ids : List PkValue)
        → Ends
            (Outside w)
            (Outside (w ++ deletions d array table.name c.name n ids))
            (delete_many driver d caps table ids chunk_size h)
    run [] = (out, sym (ap (λ l. w ++ l) (none_deleted array) ∙ append-nil w))
    run (i ∷ ids) =
        subst
          (λ ks.
            Ends (Outside w) (Outside (w ++ deletions d array table.name c.name n (i ∷ ids)))
              (delete_by driver d ks array table.name n (i ∷ ids) h))
          (sym one_key)
          (delete_ids-Leads driver d table.name c.name array n (i ∷ ids) (observe h) some out h
            refl)
