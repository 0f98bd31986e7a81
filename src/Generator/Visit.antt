-- ===== src/Generator/Visit.antt =====
-- SqlGenerator::visit.
use cpplinq.Common.{Bool, List, ◌++◌, is_empty, if◌then◌else◌}
use cpplinq.Text.{Text, codes}
use cpplinq.Expr.{
  CompareOp, eq, ne, lt, le, gt, ge, LogicOp, and, or, UnaryOp, not_op, is_null, is_not_null,
  SortDir, asc, desc, DatePart, year, month, day, WindowFunctionType, row_number, rank, dense_rank,
  sum, avg, min_of, max_of, count_of, ExprNode, column_ref, literal, param_placeholder, binary,
  logic, unary, between, like, in_list, function, subquery, exists, in_subquery, extract, date_add,
  window, current_timestamp, current_date, null_node, Exprs, nil, cons, MaybeExpr, absent, present,
  Orders, no_orders, order, SubqueryExpr, select_from,
}
use cpplinq.Dialect.Quote.{Dialect, column_list}
use cpplinq.Generator.State.{
  Writer, write, ◌<>◌, replace_by, wrap, wrap_two, bind_value, bind_dynamic,
  sql_value_to_bound_value,
}

unfoldable pub column_text : Dialect → Text → Text → Text
column_text d table_name column_name =
    if is_empty table_name
    then d.quote_id column_name
    else d.quote_id table_name ++ (codes "." ++ d.quote_id column_name)

unfoldable pub compare_text : CompareOp → Text
compare_text eq = codes " = "
compare_text ne = codes " <> "
compare_text lt = codes " < "
compare_text le = codes " <= "
compare_text gt = codes " > "
compare_text ge = codes " >= "

unfoldable pub logic_text : LogicOp → Text
logic_text and = codes " AND "
logic_text or = codes " OR "

unfoldable pub part_text : DatePart → Text
part_text year = codes "YEAR"
part_text month = codes "MONTH"
part_text day = codes "DAY"

unfoldable pub direction_text : SortDir → Text
direction_text asc = codes " ASC"
direction_text desc = codes " DESC"

-- `[DISTINCT ]<columns> FROM <table>`; `star` stands for an empty list of columns.
unfoldable pub select_text : Dialect → Text → Text → List Text → Bool → Text
unfolding column_list
select_text d star table_name select_columns is_distinct =
    (if is_distinct then codes "DISTINCT " else codes "")
    ++ ((if is_empty select_columns then star else column_list d.quote_id select_columns)
        ++ (codes " FROM " ++ d.quote_id table_name))

unfoldable pub unary_text : UnaryOp → Writer → Writer
unary_text not_op a = write (codes "NOT (") <> a <> write (codes ")")
unary_text is_null a = a <> write (codes " IS NULL")
unary_text is_not_null a = a <> write (codes " IS NOT NULL")

-- The function of a window expression; `a` is its argument.
unfoldable pub window_text : WindowFunctionType → Writer → Writer
window_text row_number a = write (codes "ROW_NUMBER()")
window_text rank a = write (codes "RANK()")
window_text dense_rank a = write (codes "DENSE_RANK()")
window_text sum a = write (codes "SUM(") <> a <> write (codes ")")
window_text avg a = write (codes "AVG(") <> a <> write (codes ")")
window_text min_of a = write (codes "MIN(") <> a <> write (codes ")")
window_text max_of a = write (codes "MAX(") <> a <> write (codes ")")
window_text count_of a = write (codes "COUNT(") <> a <> write (codes ")")

-- What an aggregate without an argument is given.
unfoldable pub missing_argument : WindowFunctionType → Text
missing_argument count_of = codes "*"
missing_argument _ = codes ""

-- has_clause says whether a PARTITION BY was written.
unfoldable pub partition_gap : Exprs → Orders → Text
partition_gap (cons e es) (order o dir os) = codes " "
partition_gap (cons e es) no_orders = codes ""
partition_gap nil os = codes ""

unfoldable mutual
  pub visit : Dialect → ExprNode → Writer
  visit d (column_ref table_name column_name) = write (column_text d table_name column_name)
  visit d (literal value) = bind_value d.placeholder (sql_value_to_bound_value value)
  visit d (param_placeholder index) = bind_dynamic d.placeholder index
  visit d (binary left op right) =
      write (codes "(")
      <> visit d left
      <> write (compare_text op)
      <> visit d right
      <> write (codes ")")
  visit d (logic left op right) =
      write (codes "(")
      <> visit d left
      <> write (logic_text op)
      <> visit d right
      <> write (codes ")")
  visit d (unary op operand) = unary_text op (visit d operand)
  visit d (between e low high is_not) =
      write (codes "(")
      <> visit d e
      <> write (if is_not then codes " NOT BETWEEN " else codes " BETWEEN ")
      <> visit d low
      <> write (codes " AND ")
      <> visit d high
      <> write (codes ")")
  visit d (like e pattern_node is_not) =
      write (codes "(")
      <> visit d e
      <> write (if is_not then codes " NOT LIKE " else codes " LIKE ")
      <> visit d pattern_node
      <> write (codes ")")
  visit d (in_list e values is_not) = visit_in d values (visit d e) is_not
  visit d (function function_name arguments) =
      write (d.function_name function_name)
      <> write (codes "(")
      <> visit_all d arguments
      <> write (codes ")")
  visit d (subquery sub) =
      write (codes "(SELECT ") <> visit_select d sub (codes "*") <> write (codes ")")
  visit d (exists sub is_not) =
      write (if is_not then codes "NOT EXISTS (SELECT " else codes "EXISTS (SELECT ")
      <> visit_select d sub (codes "1")
      <> write (codes ")")
  visit d (in_subquery e sub is_not) =
      write (codes "(")
      <> visit d e
      <> write (if is_not then codes " NOT IN (SELECT " else codes " IN (SELECT ")
      <> visit_select d sub (codes "*")
      <> write (codes "))")
  visit d (extract part e) = wrap (d.extract_part_func (part_text part)) (visit d e)
  visit d (date_add e days) = wrap_two d.date_add_days_func (visit d e) (visit d days)
  visit d (window func arg partition_clauses order_clauses) =
      window_text func (visit_argument d arg (missing_argument func))
      <> write (codes " OVER (")
      <> visit_partition d partition_clauses
      <> write (partition_gap partition_clauses order_clauses)
      <> visit_orders d order_clauses
      <> write (codes ")")
  visit d current_timestamp = write d.current_timestamp_func
  visit d current_date = write d.current_date_func
  visit d null_node = write (codes "")

  -- The nodes, joined by ", ".
  pub visit_all : Dialect → Exprs → Writer
  visit_all d nil = write (codes "")
  visit_all d (cons e es) = visit d e <> visit_more d es

  pub visit_more : Dialect → Exprs → Writer
  visit_more d nil = write (codes "")
  visit_more d (cons e es) = write (codes ", ") <> visit d e <> visit_more d es

  -- An IN list without values: the operand has been visited, and its text is dropped.
  pub visit_in : Dialect → Exprs → Writer → Bool → Writer
  visit_in d nil operand is_not =
      replace_by (if is_not then codes "(1 = 1)" else codes "(1 = 0)") operand
  visit_in d (cons v vs) operand is_not =
      write (codes "(")
      <> operand
      <> write (if is_not then codes " NOT IN (" else codes " IN (")
      <> visit d v
      <> visit_more d vs
      <> write (codes "))")

  pub visit_argument : Dialect → MaybeExpr → Text → Writer
  visit_argument d absent otherwise = write otherwise
  visit_argument d (present e) otherwise = visit d e

  pub visit_where : Dialect → MaybeExpr → Writer
  visit_where d absent = write (codes "")
  visit_where d (present e) = write (codes " WHERE ") <> visit d e

  pub visit_select : Dialect → SubqueryExpr → Text → Writer
  visit_select d (select_from table_name select_columns condition is_distinct) star =
      write (select_text d star table_name select_columns is_distinct) <> visit_where d condition

  pub visit_partition : Dialect → Exprs → Writer
  visit_partition d nil = write (codes "")
  visit_partition d (cons e es) = write (codes "PARTITION BY ") <> visit d e <> visit_more d es

  pub visit_orders : Dialect → Orders → Writer
  visit_orders d no_orders = write (codes "")
  visit_orders d (order e direction os) =
      write (codes "ORDER BY ")
      <> visit d e
      <> write (direction_text direction)
      <> visit_more_orders d os

  pub visit_more_orders : Dialect → Orders → Writer
  visit_more_orders d no_orders = write (codes "")
  visit_more_orders d (order e direction os) =
      write (codes ", ") <> visit d e <> write (direction_text direction) <> visit_more_orders d os
