-- ===== src/Tests/Builders.antt =====
-- The query builder.
use cpplinq.Common.{◌+◌, true, List, [], ◌∷◌, ◌++◌, some, length, ok, ◌≡◌, refl}
use cpplinq.Common.Int.{pos}
use cpplinq.Text.{codes}
use cpplinq.Text
use cpplinq.Value.{int64, string}
use cpplinq.Expr.{ExprNode, SortDir, CompareOp, column_ref, literal, binary}
use cpplinq.Generator.State.{GeneratedSql, static_slot}
use cpplinq.Generator.State
use cpplinq.Generator.Visit
use cpplinq.Generator.Select
use cpplinq.Generator.Modify
use cpplinq.Generator.Request.{Request, delete, generate}
use cpplinq.Dialect.Quote
use cpplinq.Dialect.Sqlite
use cpplinq.Agree.Requests.{regular_request, all_of}
use cpplinq.Agree.Regular.{regular}
use cpplinq.Placeholders.{sqlite_db, dialect_with, dialect_of, style_of, count_placeholders}
use cpplinq.Builder.{
  from, add_where, order_by, select_query, select_request, get_column_names, get_tuple_column_names,
  and_where,
}
use cpplinq.Builder.Steps.{Step, build, apply_step}
use cpplinq.Builder.Clauses.{HasClauses, build-HasClauses, order_by-tie_breakers}
use cpplinq.Builder.Bound.{regular_step, build-placeholders}
use cpplinq.Builder.Terminals.{open_reader, run_command}
use cpplinq.Builder.Terminals.Executed.{RunsOne, execution_of, dynamic_slots, run-placeholders}
use cpplinq.Expr.Functions.{lower, param, equal, value}
use cpplinq.Expr.Functions.Made.{Made}
use cpplinq.Expr.Functions.Count.{given, generate_expression-given}
use cpplinq.Tests.Contexts.{granting, people}

abbrev age : ExprNode
age = column_ref (codes "people") (codes "age")

abbrev adults : ExprNode
adults = binary age CompareOp.ge (literal (int64 (pos 18)))

abbrev steps : List Step
steps = Step.call_where adults ∷ Step.call_order_by age SortDir.asc ∷ []

abbrev selected : GeneratedSql
selected = record {
  sql =
      codes
        "SELECT \"id\", \"age\" FROM \"people\" WHERE (\"people\".\"age\" >= ?) ORDER BY \"people\".\"age\" ASC";
  params = int64 (pos 18) ∷ [];
  slots = static_slot (int64 (pos 18)) ∷ [];
}

steps-regular : all_of regular_step steps ≡ true
unfolding all_of regular_step regular
steps-regular = refl

generate-selected :
    generate (dialect_of sqlite_db) (select_request (build (from people) steps)) ≡ ok selected
unfolding generate select_request select_query build apply_step from add_where and_where order_by
    get_column_names get_tuple_column_names Select.generate_select Select.write_clause
    Select.write_select Select.write_order_by Select.write_orders_rest Select.order_filler
    Select.write_group_by Select.write_with Visit.visit Visit.compare_text Visit.column_text
    Visit.select_text Visit.direction_text State.write State.◌<>◌ State.bind_value State.finish
    State.sql_value_to_bound_value dialect_with Sqlite.sqlite_with Sqlite.quote_id
    Sqlite.limit_offset Sqlite.limit_part Sqlite.offset_part Quote.quote_with Quote.escape
    Quote.column_list Text.join
generate-selected = refl

build-placeholders_example :
    RunsOne (execution_of selected) (open_reader granting selected)
    × (count_placeholders (style_of sqlite_db) selected.sql
        ≡ length selected.params + length (dynamic_slots selected.slots))
build-placeholders_example =
    build-placeholders granting sqlite_db people steps selected steps-regular generate-selected

abbrev removal : Request
removal = delete (codes "people") (some adults)

abbrev removed : GeneratedSql
removed = record selected { sql = codes "DELETE FROM \"people\" WHERE (\"people\".\"age\" >= ?)" }

removal-regular : regular_request removal ≡ true
unfolding regular_request regular
removal-regular = refl

generate-removed : generate (dialect_of sqlite_db) removal ≡ ok removed
unfolding generate Modify.generate_delete Select.write_clause Visit.visit Visit.compare_text
    Visit.column_text State.write State.◌<>◌ State.bind_value State.finish
    State.sql_value_to_bound_value dialect_with Sqlite.sqlite_with Sqlite.quote_id Quote.quote_with
    Quote.escape
generate-removed = refl

run-placeholders_example :
    RunsOne (execution_of removed) (open_reader granting removed)
    × RunsOne (execution_of removed) (run_command granting removed)
    × (count_placeholders (style_of sqlite_db) removed.sql
        ≡ length removed.params + length (dynamic_slots removed.slots))
run-placeholders_example =
    run-placeholders granting sqlite_db removal removed removal-regular generate-removed

build-HasClauses_example : HasClauses (from people) steps (build (from people) steps)
build-HasClauses_example = build-HasClauses (from people) steps

order_by-tie_breakers_example :
    (build (from people) (
      steps
      ++ Step.call_order_by age SortDir.desc
        ∷ Step.call_then_by adults SortDir.asc
        ∷ [])).order_clauses
    ≡ (age, SortDir.desc) ∷ (adults, SortDir.asc) ∷ []
order_by-tie_breakers_example =
    order_by-tie_breakers (from people) steps (Step.call_then_by adults SortDir.asc ∷ []) age
      SortDir.desc tt

-- lower(param(3)) == "x"
abbrev matches : ExprNode
matches = equal (lower (param 3)) (value (string (codes "x")))

generate_expression-given_example :
    (count_placeholders
        (style_of sqlite_db)
        (Select.generate_expression (dialect_of sqlite_db) matches).sql
      ≡ 2)
    × (length (Select.generate_expression (dialect_of sqlite_db) matches).slots ≡ 2)
unfolding given
generate_expression-given_example =
    generate_expression-given sqlite_db
      (Made.by_equal (Made.by_lower (Made.a_param 3)) (Made.a_value (string (codes "x"))))
