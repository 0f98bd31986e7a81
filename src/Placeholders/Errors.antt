-- ===== src/Placeholders/Errors.antt =====
-- Which requests return a statement, and what an empty IN list leaves behind.
use cpplinq.Common.{
  returns, ℕ, zero, suc, ◌+◌, Bool, true, false, List, [], ◌∷◌, ◌≡◌, refl, arith, Option, none,
  some, Outcome, ok, throws, ◌>>=◌, is_empty, length, if◌then◌else◌, &&-left, &&-right, ◌∙◌,
}
use cpplinq.Text.{Text, codes}
use cpplinq.Value.{BoundValue}
use cpplinq.Expr.{ExprNode, in_list, nil}
use cpplinq.Generator.State.{GeneratedSql, State, replace_by}
use cpplinq.Generator.Visit.{visit}
use cpplinq.Generator.Select.{generate_cte_select, generate_select, generate_joined_select}
use cpplinq.Generator.SetOps.{generate_set_operation, generate_set_operation_count}
use cpplinq.Generator.Modify.{generate_upsert}
use cpplinq.Generator.Request.{
  Request, cte_select, plain_select, joined_select, joined_count, set_operation,
  set_operation_count, insert, upsert, update, update_values, delete, create_table, count,
  aggregate, expression, generate,
}
use cpplinq.Dialect.Quote.{default_generate_upsert}
use cpplinq.Dialect.Sqlite
use cpplinq.Dialect.Postgres
use cpplinq.Dialect.Mysql
use cpplinq.Dialect.Mssql
use cpplinq.Dialect.Oracle
use cpplinq.Dialect.Informix
use cpplinq.Scan.{Style, double_quoted, backticked, bracketed, marks, next}
use cpplinq.Agree.Regular.{regular, bound}
use cpplinq.Agree.Requests.{regular_request}
use cpplinq.Agree.Visit.{visit-Agrees}
use cpplinq.Agree.Writer.{IsGood, static_values}
use cpplinq.Agree.Statements.All.{from_negation}
use cpplinq.Placeholders.{
  Database, sqlite_db, postgres_db, mysql_db, mssql_db, oracle_db, informix_db, dialect_with,
  dialect_of, style_of, count_placeholders,
}
use cpplinq.Placeholders.Rules.{question_mark-Agree}

-- The limit that a request hands to the dialect.
unfoldable pub limit_of : Request → Option ℕ
limit_of (cte_select q) = q.limit
limit_of (plain_select q) = q.limit
limit_of (joined_select q) = q.limit
limit_of (set_operation q) = q.limit
limit_of _ = none

abbrev pub accepts_zero : Database → Bool
accepts_zero sqlite_db = true
accepts_zero postgres_db = true
accepts_zero mysql_db = true
accepts_zero mssql_db = false
accepts_zero oracle_db = true
accepts_zero informix_db = true

abbrev pub allows_limit : Database → Option ℕ → Bool
allows_limit db none = true
allows_limit db (some zero) = accepts_zero db
allows_limit db (some (suc l)) = true

returns_after :
    (x : Outcome Text) (f : Text → GeneratedSql) → returns (x >>= λ t. ok (f t)) ≡ returns x
returns_after (ok t) f = refl
returns_after (throws e) f = refl

returns_limit :
    (db : Database) (l o : Option ℕ)
    → returns ((dialect_of db).limit_offset l o) ≡ allows_limit db l
unfolding dialect_with Sqlite.sqlite_with Postgres.postgres_with Mysql.mysql_with Mssql.mssql_with
    Oracle.oracle_with Informix.informix_with Sqlite.limit_offset Postgres.limit_offset
    Mysql.limit_offset Mssql.limit_offset Oracle.limit_offset Informix.limit_offset
returns_limit sqlite_db none o = refl
returns_limit sqlite_db (some zero) o = refl
returns_limit sqlite_db (some (suc l)) o = refl
returns_limit postgres_db none o = refl
returns_limit postgres_db (some zero) o = refl
returns_limit postgres_db (some (suc l)) o = refl
returns_limit mysql_db none none = refl
returns_limit mysql_db none (some o) = refl
returns_limit mysql_db (some zero) none = refl
returns_limit mysql_db (some zero) (some o) = refl
returns_limit mysql_db (some (suc l)) none = refl
returns_limit mysql_db (some (suc l)) (some o) = refl
returns_limit mssql_db none o = refl
returns_limit mssql_db (some zero) o = refl
returns_limit mssql_db (some (suc l)) o = refl
returns_limit oracle_db none none = refl
returns_limit oracle_db none (some o) = refl
returns_limit oracle_db (some zero) none = refl
returns_limit oracle_db (some zero) (some o) = refl
returns_limit oracle_db (some (suc l)) none = refl
returns_limit oracle_db (some (suc l)) (some o) = refl
returns_limit informix_db none o = refl
returns_limit informix_db (some zero) o = refl
returns_limit informix_db (some (suc l)) o = refl

returns_upsert :
    (db : Database) (table_name : Text) (is : List Text) (values : List BoundValue)
    (cs us : List Text)
    → is_empty is ≡ false
    → is_empty cs ≡ false
    → returns ((dialect_of db).generate_upsert table_name is values cs us) ≡ true
unfolding dialect_with Sqlite.sqlite_with Postgres.postgres_with Mysql.mysql_with Mssql.mssql_with
    Oracle.oracle_with Informix.informix_with default_generate_upsert Mysql.generate_upsert
    Mssql.generate_upsert Oracle.generate_upsert Informix.generate_upsert
returns_upsert sqlite_db t is vs cs us h k = refl
returns_upsert postgres_db t is vs cs us h k = refl
returns_upsert mysql_db t [] vs cs us h k = absurd (ground (arith, h))
returns_upsert mysql_db t (i ∷ is) vs cs us h k = refl
returns_upsert mssql_db t [] vs cs us h k = absurd (ground (arith, h))
returns_upsert mssql_db t (i ∷ is) vs [] us h k = absurd (ground (arith, k))
returns_upsert mssql_db t (i ∷ is) vs (c ∷ cs) us h k = refl
returns_upsert oracle_db t [] vs cs us h k = absurd (ground (arith, h))
returns_upsert oracle_db t (i ∷ is) vs [] us h k = absurd (ground (arith, k))
returns_upsert oracle_db t (i ∷ is) vs (c ∷ cs) us h k = refl
returns_upsert informix_db t is vs cs us h k = refl

returns_then :
    (x : Outcome GeneratedSql) (f : GeneratedSql → GeneratedSql)
    → returns (x >>= λ s. ok (f s)) ≡ returns x
returns_then (ok s) f = refl
returns_then (throws e) f = refl

-- For each of the six dialects and every regular request: the call returns a statement, except
-- that MSSQL refuses a limit of 0.
pub generate-returns :
    (db : Database) (q : Request)
    → regular_request q ≡ true
    → returns (generate (dialect_of db) q) ≡ allows_limit db (limit_of q)
unfolding generate generate_cte_select generate_select generate_joined_select generate_set_operation
    generate_set_operation_count generate_upsert limit_of regular_request
generate-returns db (cte_select q) h = returns_after _ _ ∙ returns_limit db q.limit q.offset
generate-returns db (plain_select q) h = returns_after _ _ ∙ returns_limit db q.limit q.offset
generate-returns db (joined_select q) h = returns_after _ _ ∙ returns_limit db q.limit q.offset
generate-returns db (joined_count t js c) h = refl
generate-returns db (set_operation q) h = returns_after _ _ ∙ returns_limit db q.limit q.offset
generate-returns db (set_operation_count q) h =
    returns_then _ _ ∙ (returns_after _ _ ∙ returns_limit db none none)
generate-returns db (insert t cs vs c) h = refl
generate-returns db (upsert t cs vs fs us) h =
    returns_after _ _
    ∙ returns_upsert db t cs vs fs us (from_negation _ (&&-left _ _ h))
        (from_negation _ (&&-left _ _ (&&-right _ _ h)))
generate-returns db (update t l c) h = refl
generate-returns db (update_values t l c) h = refl
generate-returns db (delete t c) h = refl
generate-returns db (create_table t cs) h = refl
generate-returns db (count t c b k) h = refl
generate-returns db (aggregate f t k c) h = refl
generate-returns db (expression e) h = refl

shows_nothing :
    (s : Style) (is_not : Bool)
    → count_placeholders s (if is_not then codes "(1 = 1)" else codes "(1 = 0)") ≡ 0
unfolding count_placeholders marks next
shows_nothing double_quoted true = refl
shows_nothing double_quoted false = refl
shows_nothing backticked true = refl
shows_nothing backticked false = refl
shows_nothing bracketed true = refl
shows_nothing bracketed false = refl

-- For each of the six dialects, every regular operand, and any state that has a slot for each
-- parameter counted and the values of its static slots as parameters: an IN list without values
-- shows no placeholder, and still leaves the state that its operand leaves, where each literal and
-- each parameter placeholder of the operand has one more slot, and the parameters are the values of
-- the static slots.
pub in_list-nil :
    (db : Database) (e : ExprNode) (is_not : Bool) (st : State)
    → regular e ≡ true
    → IsGood st
    → (count_placeholders (style_of db) (visit (dialect_of db) (in_list e nil is_not) st).0 ≡ 0)
      × ((visit (dialect_of db) (in_list e nil is_not) st).1 ≡ (visit (dialect_of db) e st).1)
      × (length (visit (dialect_of db) e st).1.slots ≡ length st.slots + bound e)
      × ((visit (dialect_of db) e st).1.params ≡ static_values (visit (dialect_of db) e st).1.slots)
unfolding visit replace_by
in_list-nil db e is_not st h good =
    let run = visit-Agrees _ _ _ (question_mark-Agree db) e h st in
    let left = run.good good in
    (
      shows_nothing (style_of db) is_not,
      refl,
      omega (arith, left.counted, good.counted, run.bound),
      left.static,
    )
