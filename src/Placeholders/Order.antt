-- ===== src/Placeholders/Order.antt =====
-- The order of the placeholders.
use cpplinq.Common.{suc, [], ◌∷◌, ◌++◌, ◌≡◌, refl, true, arith, length, ok}
use cpplinq.Value.{SqlValue}
use cpplinq.Expr.{literal, date_add}
use cpplinq.Generator.State.{GeneratedSql, State, wrap_two, bind_value, sql_value_to_bound_value}
use cpplinq.Generator.Visit.{visit}
use cpplinq.Generator.Request.{Request, generate}
use cpplinq.Dialect.Mssql
use cpplinq.Scan.{bracketed, plain, marks, next}
use cpplinq.Scan.Span.{Span-numbered, spans, numbered}
use cpplinq.Agree.Requests.{regular_request}
use cpplinq.Placeholders.{
  Database, mssql_db, dialect_with, numbered_dialect, style_of, in_order, numbered_mark,
}
use cpplinq.Placeholders.Rules.{numbered_statement}

-- For the dialects of SQLite, PostgreSQL, MySQL, Oracle and Informix, with a placeholder that
-- shows the index it is given, and every regular request: the placeholders outside quotes are
-- those of the slots 0, 1, 2, and so on, in the order of the text, each once.
pub generate-numbered :
    (db : Database) (q : Request) (s : GeneratedSql)
    → in_order db ≡ true
    → regular_request q ≡ true
    → generate (numbered_dialect db) q ≡ ok s
    → marks (style_of db) plain s.sql ≡ numbered numbered_mark 0 (length s.slots)
unfolding spans
generate-numbered db q s o h e =
    Span-numbered (style_of db) numbered_mark (length s.slots) s.sql
      (numbered_statement db q s o h e).related

-- For MSSQL, with a placeholder that shows the index it is given, any two literals and any state:
-- DATE_ADD binds the date as the next parameter and the number of days as the one after it, and
-- the text shows them the other way round.
pub date_add-swapped :
    (date days : SqlValue) (st : State)
    → (marks bracketed plain
          (visit (numbered_dialect mssql_db) (date_add (literal date) (literal days)) st).0
        ≡ numbered_mark (suc st.param_counter) ∷ numbered_mark st.param_counter ∷ [])
      × ((visit (numbered_dialect mssql_db) (date_add (literal date) (literal days)) st).1.params
          ≡ (st.params ++ sql_value_to_bound_value date ∷ []) ++ sql_value_to_bound_value days ∷ [])
unfolding visit wrap_two bind_value marks next dialect_with Mssql.mssql_with
    Mssql.date_add_days_func
date_add-swapped date days st = (ground arith, refl)
