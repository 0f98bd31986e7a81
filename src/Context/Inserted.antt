-- ===== src/Context/Inserted.antt =====
-- What insert has executed.
use cpplinq.Common.{
  Bool, true, false, not, ◌||◌, List, [], ◌∷◌, ◌++◌, is_empty, if◌then◌else◌, ◌≡◌, refl, sym, subst,
  ◌⊎◌, inl, inr,
}
use cpplinq.Common.Int.{pos}
use cpplinq.Text.{Text}
use cpplinq.Dialect.Quote.{Dialect}
use cpplinq.Session.{Command, Driver, History, pure, send, ◌>>=◌, ◌>>◌, bind_all}
use cpplinq.Session.Observed.{Observed, Execution, observe, succeed, run_statement}
use cpplinq.Session.Triples.{Ends, Leads, Outside, pure-Leads, send-Leads, call-Leads}
use cpplinq.Session.Rows.{bind_row-Leads, executes-Outside}
use cpplinq.Table.{TableDef}
use cpplinq.Context.{
  first_int64, last_inserted, run_insert, insert, insert_statement, generated_key,
}

-- `x` has been executed once, and after it at most the query `q`.
abbrev pub Inserted : List Execution → Execution → Execution → Observed → Type 0
Inserted w x q s = Outside (w ++ x ∷ []) s ⊎ Outside ((w ++ x ∷ []) ++ q ∷ []) s

-- The same, or nothing.
abbrev pub Attempted : List Execution → Execution → Execution → Observed → Type 0
Attempted w x q s = Outside w s ⊎ Inserted w x q s

module _ (driver : Driver) (d : Dialect) (w : List Execution) (x q : Execution) where
  first_int64-Leads :
      (reader : Bool) (s : Observed)
      → Inserted w x q s
      → Leads (Attempted w x q) s (first_int64 driver reader) (Inserted w x q)
  unfolding first_int64
  first_int64-Leads false s i = pure-Leads (Attempted w x q) (Inserted w x q) s (pos 0) i
  first_int64-Leads true s i =
      call-Leads driver Command.next (Attempted w x q) (Inserted w x q) s
        (λ row. if row then send driver (Command.get_int64 0) else pure (pos 0)) (inr i)
        (λ row. read row)
    where
      read :
          (row : Bool)
          → Leads
              (Attempted w x q)
              s
              (if row then send driver (Command.get_int64 0) else pure (pos 0))
              (Inserted w x q)
      read true =
          send-Leads driver (Command.get_int64 0) (Attempted w x q) (Inserted w x q) s (inr i) i
      read false = pure-Leads (Attempted w x q) (Inserted w x q) s (pos 0) i

  last_inserted-Leads :
      (table_name pk_col : Text) (s : Observed)
      → q ≡ record { sql = d.last_insert_id_query table_name pk_col; values = [] }
      → Outside (w ++ x ∷ []) s
      → Leads (Attempted w x q) s (last_inserted driver d table_name pk_col) (Inserted w x q)
  unfolding last_inserted
  last_inserted-Leads table_name pk_col s is_query i =
      go (not d.supports_last_insert_id || is_empty (d.last_insert_id_query table_name pk_col))
    where
      query : Text
      query = d.last_insert_id_query table_name pk_col

      t : Observed
      t = succeed (Command.prepare query) s

      asked : Outside ((w ++ x ∷ []) ++ q ∷ []) (run_statement t)
      asked =
          subst (λ e. Outside ((w ++ x ∷ []) ++ e ∷ []) (run_statement t)) (sym is_query)
            (subst (λ l. Outside (l ++ record { sql = query; values = [] } ∷ []) (run_statement t))
              i.1 (executes-Outside (record { sql = query; values = [] } ∷ []) t i.0))

      go :
          (b : Bool)
          → Leads
              (Attempted w x q)
              s
              (if b
                then pure (pos 0)
                else (send driver (Command.prepare query)
                    >> (send driver Command.execute_query >>= first_int64 driver)))
              (Inserted w x q)
      go true = pure-Leads (Attempted w x q) (Inserted w x q) s (pos 0) (inl i)
      go false =
          call-Leads driver (Command.prepare query) (Attempted w x q) (Inserted w x q) s
            (λ _. send driver Command.execute_query >>= first_int64 driver) (inr (inl i))
            (λ _.
              call-Leads driver Command.execute_query (Attempted w x q) (Inserted w x q) t
                (first_int64 driver) (inr (inl i))
                (λ reader. first_int64-Leads reader (run_statement t) (inr asked)))

  run_insert-Leads :
      (table_name pk_col : Text) (s : Observed)
      → q ≡ record { sql = d.last_insert_id_query table_name pk_col; values = [] }
      → Outside w s
      → Outside (w ++ x ∷ []) (run_statement s)
      → Leads (Attempted w x q) s (run_insert driver d table_name pk_col) (Inserted w x q)
  unfolding run_insert
  run_insert-Leads table_name pk_col s is_query before i =
      go (is_empty pk_col)
        (not (is_empty (d.returning_clause pk_col)) || not (is_empty (d.output_clause pk_col)))
    where
      go :
          (no_key answers : Bool)
          → Leads
              (Attempted w x q)
              s
              (if no_key
                then send driver Command.execute_non_query >> pure (pos 0)
                else (if answers
                    then send driver Command.execute_query >>= first_int64 driver
                    else send driver Command.execute_non_query
                      >> last_inserted driver d table_name pk_col))
              (Inserted w x q)
      go true answers =
          call-Leads driver Command.execute_non_query (Attempted w x q) (Inserted w x q) s
            (λ _. pure (pos 0)) (inl before)
            (λ _. pure-Leads (Attempted w x q) (Inserted w x q) (run_statement s) (pos 0) (inl i))
      go false true =
          call-Leads driver Command.execute_query (Attempted w x q) (Inserted w x q) s
            (first_int64 driver) (inl before)
            (λ reader. first_int64-Leads reader (run_statement s) (inl i))
      go false false =
          call-Leads driver Command.execute_non_query (Attempted w x q) (Inserted w x q) s
            (λ _. last_inserted driver d table_name pk_col) (inl before)
            (λ _. last_inserted-Leads table_name pk_col (run_statement s) is_query i)

-- For every driver, dialect, table and entity, from a state outside of transactions: if insert
-- returns, the database has executed the insert statement once, with its parameters, and after it
-- at most the query for the last inserted id; if it throws, the same or nothing more than before.
pub insert-executed {ℓ} :
    {E : Type ℓ} (driver : Driver) (d : Dialect) (table : TableDef E) (e : E) (h : History)
    → (observe h).within ≡ false
    → let g = insert_statement d table e in
      let w = (observe h).executed in
      let x : Execution = record { sql = g.sql; values = g.params } in
      let q : Execution = record {
        sql = d.last_insert_id_query table.name (generated_key table);
        values = [];
      } in
      Ends (Attempted w x q) (Inserted w x q) (insert driver d table e h)
unfolding insert
insert-executed driver d table e h out =
    let g = insert_statement d table e in
    let w = (observe h).executed in
    let x : Execution = record { sql = g.sql; values = g.params } in
    let q : Execution = record {
      sql = d.last_insert_id_query table.name (generated_key table);
      values = [];
    } in
    let s = succeed (Command.prepare g.sql) (observe h) in
    let t : Observed = record s { bound = g.params } in
    let rest = run_insert driver d table.name (generated_key table) in
    call-Leads driver (Command.prepare g.sql) (Attempted w x q) (Inserted w x q) (observe h)
      (λ _. bind_all driver 0 g.params >> rest) (inl (out, refl))
      (λ _.
        bind_row-Leads driver (Attempted w x q) (Inserted w x q) g.params s rest refl
          (λ b. inl (out, refl))
          (run_insert-Leads driver d w x q table.name (generated_key table) t refl (out, refl)
            (executes-Outside (x ∷ []) t out)))
      h refl
