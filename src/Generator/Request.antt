-- ===== src/Generator/Request.antt =====
-- The public methods of SqlGenerator as one function of the call that is made.
use cpplinq.Common.{Bool, List, Option, Outcome, ok}
use cpplinq.Text.{Text}
use cpplinq.Value.{BoundValue}
use cpplinq.Expr.{ExprNode, AssignExpr}
use cpplinq.Dialect.Quote.{Dialect}
use cpplinq.Generator.State.{GeneratedSql}
use cpplinq.Generator.Select.{
  JoinClause, SelectQuery, JoinedQuery, generate_cte_select, generate_select,
  generate_joined_select, generate_joined_count, generate_count, generate_aggregate,
  generate_expression,
}
use cpplinq.Generator.SetOps.{SetQuery, generate_set_operation, generate_set_operation_count}
use cpplinq.Generator.Modify.{
  generate_insert, generate_upsert, generate_update, generate_update_values, generate_delete,
}
use cpplinq.Generator.Schema.{ColumnInfo, generate_create_table}

pub data Request : Type 0 where
  cte_select plain_select : SelectQuery → Request
  joined_select : JoinedQuery → Request
  joined_count : Text → List JoinClause → Option ExprNode → Request
  set_operation set_operation_count : SetQuery → Request
  insert : Text → List Text → List BoundValue → Option Text → Request
  upsert : Text → List Text → List BoundValue → List Text → List Text → Request
  update : Text → List AssignExpr → Option ExprNode → Request
  update_values : Text → List (Text × BoundValue) → Option ExprNode → Request
  delete : Text → Option ExprNode → Request
  create_table : Text → List ColumnInfo → Request
  count : Text → Option ExprNode → Bool → Option Text → Request
  aggregate : Text → Text → Text → Option ExprNode → Request
  expression : ExprNode → Request

unfoldable pub generate : Dialect → Request → Outcome GeneratedSql
unfolding generate_cte_select generate_select generate_joined_select generate_joined_count
    generate_set_operation generate_set_operation_count generate_insert generate_upsert
    generate_update generate_update_values generate_delete generate_create_table generate_count
    generate_aggregate generate_expression
generate d (cte_select q) = generate_cte_select d q
generate d (plain_select q) = generate_select d q
generate d (joined_select q) = generate_joined_select d q
generate d (joined_count table_name joins condition) =
    ok (generate_joined_count d table_name joins condition)
generate d (set_operation q) = generate_set_operation d q
generate d (set_operation_count q) = generate_set_operation_count d q
generate d (insert table_name column_names values returning_column) =
    ok (generate_insert d table_name column_names values returning_column)
generate d (upsert table_name insert_columns values conflict_columns update_columns) =
    generate_upsert d table_name insert_columns values conflict_columns update_columns
generate d (update table_name assignments condition) =
    ok (generate_update d table_name assignments condition)
generate d (update_values table_name assignments condition) =
    ok (generate_update_values d table_name assignments condition)
generate d (delete table_name condition) = ok (generate_delete d table_name condition)
generate d (create_table table_name column_infos) =
    ok (generate_create_table d table_name column_infos)
generate d (count table_name condition is_distinct distinct_column) =
    ok (generate_count d table_name condition is_distinct distinct_column)
generate d (aggregate function_name table_name column_name condition) =
    ok (generate_aggregate d function_name table_name column_name condition)
generate d (expression node) = ok (generate_expression d node)
