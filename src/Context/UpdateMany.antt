-- ===== src/Context/UpdateMany.antt =====
-- DbContext::update_many.
use cpplinq.Common.{
  ℕ, ◌+◌, ◌<◌, false, not, List, [], ◌∷◌, ◌++◌, map, imap, length, length-map, length-append,
  is_empty, db_exception, if◌then◌else◌, ◌≡◌, refl, sym, subst, arith, append-nil,
}
use cpplinq.Text.{Text, codes, join}
use cpplinq.Value.{BoundValue}
use cpplinq.Dialect.Quote.{Dialect}
use cpplinq.Session.{Driver, History, Session, pure, raise}
use cpplinq.Session.Observed.{observe}
use cpplinq.Session.Triples.{Ends, Outside}
use cpplinq.Table.{ColumnDef, TableDef}
use cpplinq.Context.{DriverCapabilities, filter, chunk_size_of, values_of}
use cpplinq.Context.Slices.{chunk_size_of-positive}
use cpplinq.Context.Rows.{send_rows, execution, send_rows-Leads}

module _ {ℓ} {E : Type ℓ} where
  abbrev pub key_columns : TableDef E → List (ColumnDef E)
  key_columns table = filter (λ c. c.is_primary_key) table.columns

  abbrev pub other_columns : TableDef E → List (ColumnDef E)
  other_columns table = filter (λ c. not c.is_primary_key) table.columns

  -- `<name> = <placeholder>` for each column, numbered from `i` on.
  unfoldable pub assignments : Dialect → Text → ℕ → List (ColumnDef E) → Text
  unfolding join
  assignments d sep i columns =
      join sep (imap (λ k c. d.quote_id c.name ++ (codes " = " ++ d.placeholder k)) i columns)

  unfoldable pub update_many_sql : Dialect → TableDef E → Text
  unfolding assignments
  update_many_sql d table =
      codes "UPDATE "
      ++ (d.quote_id table.name
          ++ (codes " SET "
              ++ (assignments d (codes ", ") 0 (other_columns table)
                  ++ (codes " WHERE "
                      ++ assignments d (codes " AND ") (length (other_columns table))
                          (key_columns table)))))

  -- The values of the other columns, and then those of the key.
  abbrev pub update_row : TableDef E → E → List BoundValue
  update_row table e = values_of (other_columns table) e ++ values_of (key_columns table) e

module _ {ℓ} {E : Type ℓ} (driver : Driver) (d : Dialect) (table : TableDef E) where
  unfoldable pub update_many : DriverCapabilities → List E → ℕ → Session ℕ
  unfolding update_many_sql chunk_size_of send_rows
  update_many caps entities chunk_size =
      if is_empty entities
      then pure 0
      else (if is_empty (key_columns table)
          then raise db_exception
          else send_rows driver (update_row table) caps.array_batch_insert (update_many_sql d table)
              (length (other_columns table) + length (key_columns table))
              (chunk_size_of caps chunk_size) entities)

  -- For a table with a primary key, every driver, dialect and entities, and any chunk size, from a
  -- state outside of transactions: if update_many returns, the database has executed the update
  -- statement once for each entity, in order, with the values of the other columns and then those
  -- of the key, whichever way the driver works; if it throws, the database has executed nothing
  -- more than before; and no transaction stays open.
  pub update_many-executed :
      (caps : DriverCapabilities) (entities : List E) (chunk_size : ℕ) (h : History)
      → is_empty (key_columns table) ≡ false
      → (observe h).within ≡ false
      → Ends
          (Outside (observe h).executed)
          (Outside (
            (observe h).executed
            ++ map
                (λ e. record {
                  sql = update_many_sql d table;
                  values =
                      map (λ c. c.read e) (other_columns table)
                      ++ map (λ c. c.read e) (key_columns table);
                })
                entities))
          (update_many caps entities chunk_size h)
  unfolding update_many
  update_many-executed caps [] chunk_size h some_key out =
      (out, sym (append-nil (observe h).executed))
  update_many-executed caps (e ∷ es) chunk_size h some_key out =
      subst
        (λ b.
          Ends (Outside (observe h).executed)
            (Outside ((observe h).executed ++ map (execution sql (update_row table)) (e ∷ es)))
            ((if b
                then raise db_exception
                else send_rows driver (update_row table) caps.array_batch_insert sql width
                    (chunk_size_of caps chunk_size) (e ∷ es))
              h))
        (sym some_key)
        (send_rows-Leads driver (update_row table) sql caps.array_batch_insert width
          (chunk_size_of caps chunk_size) (e ∷ es) (observe h)
          (λ _. some_column (key_columns table) some_key)
          (λ x. omega (
            arith,
            length-append (values_of (other_columns table) x) (values_of (key_columns table) x),
            length-map (λ c. c.read x) (other_columns table),
            length-map (λ c. c.read x) (key_columns table),
          ))
          (chunk_size_of-positive caps chunk_size) out h refl)
    where
      sql : Text
      sql = update_many_sql d table

      width : ℕ
      width = length (other_columns table) + length (key_columns table)

      some_column :
          (cs : List (ColumnDef E))
          → is_empty cs ≡ false
          → 0 < length (other_columns table) + length cs
      some_column [] e = absurd (ground (arith, e))
      some_column (c ∷ cs) e = omega arith
