-- ===== src/Context/Upsert.antt =====
-- DbContext::upsert and upsert_many.
use cpplinq.Common.{
  ℕ, Bool, true, false, not, List, [], ◌∷◌, ◌++◌, map, ◌&&◌, is_empty, Outcome, ok, if◌then◌else◌,
  ◌≡◌, refl, ap, sym, ◌∙◌, subst,
}
use cpplinq.Text.{Text, same}
use cpplinq.Dialect.Quote.{Dialect}
use cpplinq.Generator.State.{GeneratedSql}
use cpplinq.Generator.Modify.{generate_upsert}
use cpplinq.Session.{
  Command, Driver, History, Session, pure, lift, send, ◌>>=◌, ◌>>◌, sum_of, bind_all,
}
use cpplinq.Session.Transaction.{in_transaction}
use cpplinq.Session.Observed.{observe, succeed, take}
use cpplinq.Session.Triples.{Ends, Outside, call-Leads}
use cpplinq.Session.Rows.{execute_row-Outside}
use cpplinq.Table.{ColumnDef, TableDef}
use cpplinq.Context.{filter, values_of}
use cpplinq.Context.Rows.{send_row, execution, each-Leads}

-- for (c : names) if (c == name) return true
unfoldable pub contains : List Text → Text → Bool
contains [] name = false
contains (c ∷ cs) name = let rest = contains cs name in if same c name then true else rest

-- actual_update_cols
unfoldable pub actual_update_cols : List Text → List Text → List Text → List Text
unfolding contains
actual_update_cols update_columns insert_cols conflict_cols =
    if is_empty update_columns
    then filter (λ name. not (contains conflict_cols name)) insert_cols
    else update_columns

module _ {ℓ} {E : Type ℓ} where
  -- auto_conflict_cols, after the loop over the columns.
  unfoldable pub auto_conflict_cols : List Text → List (ColumnDef E) → List Text
  auto_conflict_cols names [] = names
  auto_conflict_cols names (c ∷ cs) =
      auto_conflict_cols
        (if c.is_primary_key && is_empty names then names ++ c.name ∷ [] else names) cs

  unfoldable pub upsert_statement :
      Dialect → TableDef E → E → List Text → List Text → Outcome GeneratedSql
  unfolding auto_conflict_cols actual_update_cols
  upsert_statement d table entity conflict_columns update_columns =
      let insert_cols = map (λ c. c.name) table.columns in
      let conflict_cols = auto_conflict_cols conflict_columns table.columns in
      generate_upsert d table.name insert_cols (values_of table.columns entity) conflict_cols
        (actual_update_cols update_columns insert_cols conflict_cols)

module _ {ℓ} {E : Type ℓ} (driver : Driver) (d : Dialect) (table : TableDef E) where
  unfoldable pub upsert : E → List Text → List Text → Session ℕ
  unfolding upsert_statement
  upsert entity conflict_columns update_columns = do
    result ← lift (upsert_statement d table entity conflict_columns update_columns)
    send driver (Command.prepare result.sql)
    bind_all driver 0 result.params
    send driver Command.execute_non_query

  -- The statement is made with the values of the first entity.
  unfoldable pub upsert_many : List E → List Text → List Text → Session ℕ
  unfolding upsert_statement send_row
  upsert_many [] conflict_columns update_columns = pure 0
  upsert_many (e ∷ es) conflict_columns update_columns = do
    result ← lift (upsert_statement d table e conflict_columns update_columns)
    send driver (Command.prepare result.sql)
    in_transaction driver (sum_of (send_row driver (values_of table.columns)) 0 (e ∷ es))

module _ {ℓ} {E : Type ℓ} where
  -- The conflict columns that are given stay as they are.
  given_conflict_cols :
      (n : Text) (ns : List Text) (cs : List (ColumnDef E))
      → auto_conflict_cols (n ∷ ns) cs ≡ n ∷ ns
  unfolding auto_conflict_cols
  given_conflict_cols n ns [] = refl
  given_conflict_cols n ns (c ∷ cs) =
      ap (λ l. auto_conflict_cols l cs) (kept c.is_primary_key) ∙ given_conflict_cols n ns cs
    where
      kept : (b : Bool) → (if b && false then (n ∷ ns) ++ c.name ∷ [] else n ∷ ns) ≡ n ∷ ns
      kept true = refl
      kept false = refl

  -- Without conflict columns, an upsert takes the first column of the primary key as its only
  -- conflict column, and no column where the table has no key.
  pub auto_conflict_cols-first :
      (columns : List (ColumnDef E))
      → auto_conflict_cols [] columns
        ≡ take 1 (map (λ c. c.name) (filter (λ c. c.is_primary_key) columns))
  unfolding auto_conflict_cols
  auto_conflict_cols-first [] = refl
  auto_conflict_cols-first (c ∷ cs) = go c.is_primary_key (auto_conflict_cols-first cs)
    where
      go :
          (b : Bool)
          → auto_conflict_cols [] cs
            ≡ take 1 (map (λ c. c.name) (filter (λ c. c.is_primary_key) cs))
          → auto_conflict_cols (if b && true then c.name ∷ [] else []) cs
            ≡ take 1 (
                map
                  (λ c. c.name)
                  (if b
                    then c ∷ filter (λ c. c.is_primary_key) cs
                    else filter (λ c. c.is_primary_key) cs))
      go true later = given_conflict_cols c.name [] cs
      go false later = later

module _ {ℓ} {E : Type ℓ} (driver : Driver) (d : Dialect) (table : TableDef E) where
  -- For every driver, dialect and table, any entities and columns for which the dialect makes a
  -- statement, from a state outside of transactions: if upsert_many returns, the database has
  -- executed that statement once for each entity, in order, with the values of all its columns; if
  -- it throws, the database has executed nothing more than before; and no transaction stays open.
  pub upsert_many-executed :
      (e : E) (es : List E) (conflict_columns update_columns : List Text) (g : GeneratedSql)
      (h : History)
      → upsert_statement d table e conflict_columns update_columns ≡ ok g
      → (observe h).within ≡ false
      → Ends
          (Outside (observe h).executed)
          (Outside
            ((observe h).executed ++ map (execution g.sql (values_of table.columns)) (e ∷ es)))
          (upsert_many driver d table (e ∷ es) conflict_columns update_columns h)
  unfolding upsert_many
  upsert_many-executed e es conflict_columns update_columns g h made out =
      let row = values_of table.columns in
      let w = (observe h).executed in
      let Q = Outside (w ++ map (execution g.sql row) (e ∷ es)) in
      let rest : GeneratedSql → Session ℕ = λ r.
        send driver (Command.prepare r.sql)
        >> in_transaction driver (sum_of (send_row driver row) 0 (e ∷ es)) in
      subst (λ r. Ends (Outside w) Q ((lift r >>= rest) h)) (sym made)
        (call-Leads driver (Command.prepare g.sql) (Outside w) Q (observe h)
          (λ _. in_transaction driver (sum_of (send_row driver row) 0 (e ∷ es))) (out, refl)
          (λ _.
            each-Leads driver row g.sql (e ∷ es) (succeed (Command.prepare g.sql) (observe h)) refl
              out)
          h refl)

  -- For every driver, dialect, table and entity, and columns for which the dialect makes a
  -- statement, from a state outside of transactions: if upsert returns, the database has executed
  -- that statement once, with its parameters; if it throws, the database has executed nothing more
  -- than before; and no transaction stays open.
  pub upsert-executed :
      (e : E) (conflict_columns update_columns : List Text) (g : GeneratedSql) (h : History)
      → upsert_statement d table e conflict_columns update_columns ≡ ok g
      → (observe h).within ≡ false
      → Ends
          (Outside (observe h).executed)
          (Outside ((observe h).executed ++ record { sql = g.sql; values = g.params } ∷ []))
          (upsert driver d table e conflict_columns update_columns h)
  unfolding upsert
  upsert-executed e conflict_columns update_columns g h made out =
      let w = (observe h).executed in
      let Q = Outside (w ++ record { sql = g.sql; values = g.params } ∷ []) in
      let rest : GeneratedSql → Session ℕ = λ r.
        send driver (Command.prepare r.sql)
        >> (bind_all driver 0 r.params >> send driver Command.execute_non_query) in
      subst (λ r. Ends (Outside w) Q ((lift r >>= rest) h)) (sym made)
        (call-Leads driver (Command.prepare g.sql) (Outside w) Q (observe h)
          (λ _. bind_all driver 0 g.params >> send driver Command.execute_non_query) (out, refl)
          (λ _.
            execute_row-Outside driver Command.execute_non_query g.sql g.params
              (succeed (Command.prepare g.sql) (observe h)) (λ _. refl) (λ _. refl) refl refl out)
          h refl)
