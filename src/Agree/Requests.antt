-- ===== src/Agree/Requests.antt =====
-- The requests whose expressions are regular, and whose verbatim texts are quiet.
use cpplinq.Common.{
  Bool, true, List, [], ◌∷◌, ◌&&◌, not, Option, none, some, length, is_empty, ◌==◌,
}
use cpplinq.Text.{quiet}
use cpplinq.Expr.{ExprNode, AssignExpr, SortDir}
use cpplinq.Generator.Select.{CteClause, JoinClause, SelectQuery, JoinedQuery}
use cpplinq.Generator.SetOps.{SetOpClause, SetQuery}
use cpplinq.Generator.Request.{
  Request, cte_select, plain_select, joined_select, joined_count, set_operation,
  set_operation_count, insert, upsert, update, update_values, delete, create_table, count,
  aggregate, expression,
}
use cpplinq.Agree.Regular.{regular, regular_select}

unfoldable pub all_of : {A : Type 0} → (A → Bool) → List A → Bool
all_of p [] = true
all_of p (x ∷ xs) = p x && all_of p xs

abbrev pub regular_option : Option ExprNode → Bool
regular_option none = true
regular_option (some e) = regular e

abbrev pub regular_cte : CteClause → Bool
regular_cte c = regular_select c.subquery

abbrev pub regular_order : ExprNode × SortDir → Bool
regular_order o = regular o.0

abbrev pub regular_join : JoinClause → Bool
regular_join j = quiet j.join_type && regular j.on_condition

abbrev pub regular_operation : SetOpClause → Bool
regular_operation o = regular_option o.condition

abbrev pub regular_assignment : AssignExpr → Bool
regular_assignment a = regular a.value

unfoldable pub regular_query : SelectQuery → Bool
unfolding all_of
regular_query q =
    all_of regular_cte q.ctes
    && (regular_option q.condition
        && (all_of regular q.group_by
            && (regular_option q.having && all_of regular_order q.order_by)))

unfoldable pub regular_joined : JoinedQuery → Bool
unfolding all_of
regular_joined q =
    all_of regular_join q.joins && (regular_option q.condition && all_of regular_order q.order_by)

unfoldable pub regular_set : SetQuery → Bool
unfolding all_of
regular_set q =
    regular_option q.base_where
    && (all_of regular_operation q.operations && all_of regular_order q.order_by)

-- An upsert has columns, conflict columns, and a value for each column.
unfoldable pub regular_request : Request → Bool
unfolding regular_query regular_joined regular_set all_of
regular_request (cte_select q) = regular_query q
regular_request (plain_select q) = regular_query q
regular_request (joined_select q) = regular_joined q
regular_request (joined_count table_name joins condition) =
    all_of regular_join joins && regular_option condition
regular_request (set_operation q) = regular_set q
regular_request (set_operation_count q) = regular_set q
regular_request (insert table_name column_names values returning_column) = true
regular_request (upsert table_name insert_columns values conflict_columns update_columns) =
    not (is_empty insert_columns)
    && (not (is_empty conflict_columns) && length insert_columns == length values)
regular_request (update table_name assignments condition) =
    all_of regular_assignment assignments && regular_option condition
regular_request (update_values table_name assignments condition) = regular_option condition
regular_request (delete table_name condition) = regular_option condition
regular_request (create_table table_name column_infos) = true
regular_request (count table_name condition is_distinct distinct_column) = regular_option condition
regular_request (aggregate function_name table_name column_name condition) =
    quiet function_name && regular_option condition
regular_request (expression node) = regular node
