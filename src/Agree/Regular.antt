-- ===== src/Agree/Regular.antt =====
-- The parameters of an expression, and the expressions whose text shows each of them.
use cpplinq.Common.{ℕ, ◌+◌, Bool, true, ◌&&◌, ◌==◌}
use cpplinq.Text.{quiet}
use cpplinq.Expr.{
  ExprNode, column_ref, literal, param_placeholder, binary, logic, unary, between, like, in_list,
  function, subquery, exists, in_subquery, extract, date_add, window, current_timestamp,
  current_date, null_node, Exprs, nil, cons, MaybeExpr, absent, present, Orders, no_orders, order,
  SubqueryExpr, select_from, WindowFunctionType, row_number, rank, dense_rank, sum, avg, min_of,
  max_of, count_of,
}

-- ROW_NUMBER, RANK and DENSE_RANK do not visit the argument.
unfoldable pub argument_count : WindowFunctionType → ℕ → ℕ
argument_count row_number n = 0
argument_count rank n = 0
argument_count dense_rank n = 0
argument_count sum n = n
argument_count avg n = n
argument_count min_of n = n
argument_count max_of n = n
argument_count count_of n = n

-- How many literals and parameter placeholders `visit` comes to.
unfoldable mutual
  pub bound : ExprNode → ℕ
  bound (column_ref table_name column_name) = 0
  bound (literal value) = 1
  bound (param_placeholder index) = 1
  bound (binary left op right) = bound left + bound right
  bound (logic left op right) = bound left + bound right
  bound (unary op operand) = bound operand
  bound (between e low high is_not) = bound e + (bound low + bound high)
  bound (like e pattern_node is_not) = bound e + bound pattern_node
  bound (in_list e values is_not) = bound e + bound_all values
  bound (function function_name arguments) = bound_all arguments
  bound (subquery sub) = bound_select sub
  bound (exists sub is_not) = bound_select sub
  bound (in_subquery e sub is_not) = bound e + bound_select sub
  bound (extract part e) = bound e
  bound (date_add e days) = bound e + bound days
  bound (window func arg partition_clauses order_clauses) =
      argument_count func (bound_maybe arg)
      + (bound_all partition_clauses + bound_orders order_clauses)
  bound current_timestamp = 0
  bound current_date = 0
  bound null_node = 0

  pub bound_all : Exprs → ℕ
  bound_all nil = 0
  bound_all (cons e es) = bound e + bound_all es

  pub bound_maybe : MaybeExpr → ℕ
  bound_maybe absent = 0
  bound_maybe (present e) = bound e

  pub bound_select : SubqueryExpr → ℕ
  bound_select (select_from table_name select_columns condition is_distinct) = bound_maybe condition

  pub bound_orders : Orders → ℕ
  bound_orders no_orders = 0
  bound_orders (order e direction os) = bound e + bound_orders os

-- The operand of an empty IN list binds nothing, and function names are quiet.
unfoldable pub has_room : Exprs → ℕ → Bool
has_room nil n = n == 0
has_room (cons e es) n = true

unfoldable mutual
  pub regular : ExprNode → Bool
  regular (column_ref table_name column_name) = true
  regular (literal value) = true
  regular (param_placeholder index) = true
  regular (binary left op right) = regular left && regular right
  regular (logic left op right) = regular left && regular right
  regular (unary op operand) = regular operand
  regular (between e low high is_not) = regular e && (regular low && regular high)
  regular (like e pattern_node is_not) = regular e && regular pattern_node
  regular (in_list e values is_not) = has_room values (bound e) && (regular e && regular_all values)
  regular (function function_name arguments) = quiet function_name && regular_all arguments
  regular (subquery sub) = regular_select sub
  regular (exists sub is_not) = regular_select sub
  regular (in_subquery e sub is_not) = regular e && regular_select sub
  regular (extract part e) = regular e
  regular (date_add e days) = regular e && regular days
  regular (window func arg partition_clauses order_clauses) =
      regular_maybe arg && (regular_all partition_clauses && regular_orders order_clauses)
  regular current_timestamp = true
  regular current_date = true
  regular null_node = true

  pub regular_all : Exprs → Bool
  regular_all nil = true
  regular_all (cons e es) = regular e && regular_all es

  pub regular_maybe : MaybeExpr → Bool
  regular_maybe absent = true
  regular_maybe (present e) = regular e

  pub regular_select : SubqueryExpr → Bool
  regular_select (select_from table_name select_columns condition is_distinct) =
      regular_maybe condition

  pub regular_orders : Orders → Bool
  regular_orders no_orders = true
  regular_orders (order e direction os) = regular e && regular_orders os
