-- ===== src/Expr/Functions.antt =====
-- include/cpplinq/core/expression.h: the methods of Expr, the operators and the functions that make
-- nodes. An Expr is its node. operator== is `equal`, operator&& is `both`, and so on.
pub mod Made
pub mod Count
use cpplinq.Common.{Bool, true, false, ℕ, List, [], ◌∷◌, ◌++◌, Option, none, some}
use cpplinq.Text.{Text, codes}
use cpplinq.Value.{SqlValue}
use cpplinq.Expr.{
  ExprNode, Exprs, nil, cons, MaybeExpr, absent, present, Orders, no_orders, order, SubqueryExpr,
  CompareOp, LogicOp, UnaryOp, SortDir, DatePart, WindowFunctionType, AssignExpr,
}

unfoldable pub is_null : ExprNode → ExprNode
is_null e = ExprNode.unary UnaryOp.is_null e

unfoldable pub is_not_null : ExprNode → ExprNode
is_not_null e = ExprNode.unary UnaryOp.is_not_null e

unfoldable pub between : ExprNode → ExprNode → ExprNode → ExprNode
between e low high = ExprNode.between e low high false

unfoldable pub not_between : ExprNode → ExprNode → ExprNode → ExprNode
not_between e low high = ExprNode.between e low high true

unfoldable pub like : ExprNode → ExprNode → ExprNode
like e pattern_node = ExprNode.like e pattern_node false

unfoldable pub not_like : ExprNode → ExprNode → ExprNode
not_like e pattern_node = ExprNode.like e pattern_node true

unfoldable pub lower : ExprNode → ExprNode
lower e = ExprNode.function (codes "LOWER") (cons e nil)

unfoldable pub upper : ExprNode → ExprNode
upper e = ExprNode.function (codes "UPPER") (cons e nil)

unfoldable pub length_of : ExprNode → ExprNode
length_of e = ExprNode.function (codes "LENGTH") (cons e nil)

unfoldable pub trim : ExprNode → ExprNode
trim e = ExprNode.function (codes "TRIM") (cons e nil)

unfoldable pub abs_val : ExprNode → ExprNode
abs_val e = ExprNode.function (codes "ABS") (cons e nil)

unfoldable pub substr : ExprNode → ExprNode → ExprNode → ExprNode
substr e start len = ExprNode.function (codes "SUBSTR") (cons e (cons start (cons len nil)))

unfoldable pub round_val : ExprNode → ExprNode → ExprNode
round_val e decimals = ExprNode.function (codes "ROUND") (cons e (cons decimals nil))

unfoldable pub coalesce : ExprNode → ExprNode → ExprNode
coalesce e fallback = ExprNode.function (codes "COALESCE") (cons e (cons fallback nil))

unfoldable pub year_of : ExprNode → ExprNode
year_of e = ExprNode.extract DatePart.year e

unfoldable pub month_of : ExprNode → ExprNode
month_of e = ExprNode.extract DatePart.month e

unfoldable pub day_of : ExprNode → ExprNode
day_of e = ExprNode.extract DatePart.day e

unfoldable pub add_days : ExprNode → ExprNode → ExprNode
add_days e days = ExprNode.date_add e days

unfoldable pub equal : ExprNode → ExprNode → ExprNode
equal lhs rhs = ExprNode.binary lhs CompareOp.eq rhs

unfoldable pub not_equal : ExprNode → ExprNode → ExprNode
not_equal lhs rhs = ExprNode.binary lhs CompareOp.ne rhs

unfoldable pub less : ExprNode → ExprNode → ExprNode
less lhs rhs = ExprNode.binary lhs CompareOp.lt rhs

unfoldable pub less_equal : ExprNode → ExprNode → ExprNode
less_equal lhs rhs = ExprNode.binary lhs CompareOp.le rhs

unfoldable pub greater : ExprNode → ExprNode → ExprNode
greater lhs rhs = ExprNode.binary lhs CompareOp.gt rhs

unfoldable pub greater_equal : ExprNode → ExprNode → ExprNode
greater_equal lhs rhs = ExprNode.binary lhs CompareOp.ge rhs

unfoldable pub both : ExprNode → ExprNode → ExprNode
both lhs rhs = ExprNode.logic lhs LogicOp.and rhs

unfoldable pub either : ExprNode → ExprNode → ExprNode
either lhs rhs = ExprNode.logic lhs LogicOp.or rhs

unfoldable pub negated : ExprNode → ExprNode
negated operand = ExprNode.unary UnaryOp.not_op operand

-- Expr(v).node for each value.
unfoldable pub literals : List SqlValue → Exprs
literals [] = nil
literals (v ∷ vs) = cons (ExprNode.literal v) (literals vs)

unfoldable pub in_list : ExprNode → List SqlValue → ExprNode
unfolding literals
in_list e values = ExprNode.in_list e (literals values) false

unfoldable pub not_in_list : ExprNode → List SqlValue → ExprNode
unfolding literals
not_in_list e values = ExprNode.in_list e (literals values) true

unfoldable pub in_subquery : ExprNode → SubqueryExpr → ExprNode
in_subquery e sub = ExprNode.in_subquery e sub false

unfoldable pub not_in_subquery : ExprNode → SubqueryExpr → ExprNode
not_in_subquery e sub = ExprNode.in_subquery e sub true

unfoldable pub exists : SubqueryExpr → ExprNode
exists sub = ExprNode.exists sub false

unfoldable pub not_exists : SubqueryExpr → ExprNode
not_exists sub = ExprNode.exists sub true

-- The constructors of Expr from values; an empty std::optional is NULL.
unfoldable pub value : SqlValue → ExprNode
value v = ExprNode.literal v

unfoldable pub optional_value : Option SqlValue → ExprNode
optional_value none = ExprNode.literal SqlValue.null
optional_value (some v) = ExprNode.literal v

unfoldable pub current_timestamp_val : ExprNode
current_timestamp_val = ExprNode.current_timestamp

unfoldable pub current_date_val : ExprNode
current_date_val = ExprNode.current_date

unfoldable pub param : ℕ → ExprNode
param index = ExprNode.param_placeholder index

pub record ColumnHandle : Type 0 where
  pub table_name : Text
  pub column_name : Text

-- Expr(handle), which the methods of ColumnHandle call on.
unfoldable pub column : ColumnHandle → ExprNode
column h = ExprNode.column_ref h.table_name h.column_name

-- ColumnHandle::operator=
unfoldable pub assign : ColumnHandle → ExprNode → AssignExpr
assign h e = record { table_name = h.table_name; column_name = h.column_name; value = e }

pub record WindowBuilder : Type 0 where
  pub func : WindowFunctionType
  pub arg : Option ExprNode
  pub partition_clauses : List ExprNode
  pub order_clauses : List (ExprNode × SortDir)

unfoldable pub window_over : WindowFunctionType → Option ExprNode → WindowBuilder
window_over func arg = record { func = func; arg = arg; partition_clauses = []; order_clauses = [] }

-- Both overloads.
unfoldable pub partition_by : List ExprNode → WindowBuilder → WindowBuilder
partition_by es w = record w { partition_clauses = w.partition_clauses ++ es }

unfoldable pub order_by : ExprNode → SortDir → WindowBuilder → WindowBuilder
order_by e dir w = record w { order_clauses = w.order_clauses ++ (e, dir) ∷ [] }

abbrev pub maybe_node : Option ExprNode → MaybeExpr
maybe_node none = absent
maybe_node (some e) = present e

abbrev pub nodes : List ExprNode → Exprs
nodes [] = nil
nodes (e ∷ es) = cons e (nodes es)

abbrev pub orders : List (ExprNode × SortDir) → Orders
orders [] = no_orders
orders (o ∷ os) = order o.0 o.1 (orders os)

-- operator Expr()
unfoldable pub window : WindowBuilder → ExprNode
window w =
    ExprNode.window w.func (maybe_node w.arg) (nodes w.partition_clauses) (orders w.order_clauses)

unfoldable pub row_number : WindowBuilder
unfolding window_over
row_number = window_over WindowFunctionType.row_number none

unfoldable pub rank : WindowBuilder
unfolding window_over
rank = window_over WindowFunctionType.rank none

unfoldable pub dense_rank : WindowBuilder
unfolding window_over
dense_rank = window_over WindowFunctionType.dense_rank none

unfoldable pub sum_over : ExprNode → WindowBuilder
unfolding window_over
sum_over e = window_over WindowFunctionType.sum (some e)

unfoldable pub avg_over : ExprNode → WindowBuilder
unfolding window_over
avg_over e = window_over WindowFunctionType.avg (some e)

unfoldable pub count_over : ExprNode → WindowBuilder
unfolding window_over
count_over e = window_over WindowFunctionType.count_of (some e)
