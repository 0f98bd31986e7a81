-- ===== src/Expr.antt =====
-- include/cpplinq/core/expression.h: the expression tree. A node that is a shared_ptr to a struct
-- is a constructor with that struct's fields; `null_node` is such a pointer that holds nothing.
pub mod Functions
use cpplinq.Common.{ℕ, Bool, List}
use cpplinq.Text.{Text}
use cpplinq.Value.{SqlValue}

pub data CompareOp : Type 0 where
  eq ne lt le gt ge : CompareOp

pub data LogicOp : Type 0 where
  and or : LogicOp

pub data UnaryOp : Type 0 where
  not_op is_null is_not_null : UnaryOp

pub data SortDir : Type 0 where
  asc desc : SortDir

pub data DatePart : Type 0 where
  year month day : DatePart

pub data WindowFunctionType : Type 0 where
  row_number rank dense_rank sum avg min_of max_of count_of : WindowFunctionType

-- `Exprs` is a vector of nodes, `Orders` a vector of OrderByExpr, `MaybeExpr` an optional node.
mutual
  pub data ExprNode : Type 0 where
    column_ref : Text → Text → ExprNode
    literal : SqlValue → ExprNode
    param_placeholder : ℕ → ExprNode
    binary : ExprNode → CompareOp → ExprNode → ExprNode
    logic : ExprNode → LogicOp → ExprNode → ExprNode
    unary : UnaryOp → ExprNode → ExprNode
    between : ExprNode → ExprNode → ExprNode → Bool → ExprNode
    like : ExprNode → ExprNode → Bool → ExprNode
    in_list : ExprNode → Exprs → Bool → ExprNode
    function : Text → Exprs → ExprNode
    subquery : SubqueryExpr → ExprNode
    exists : SubqueryExpr → Bool → ExprNode
    in_subquery : ExprNode → SubqueryExpr → Bool → ExprNode
    extract : DatePart → ExprNode → ExprNode
    date_add : ExprNode → ExprNode → ExprNode
    window : WindowFunctionType → MaybeExpr → Exprs → Orders → ExprNode
    current_timestamp current_date null_node : ExprNode

  pub data Exprs : Type 0 where
    nil : Exprs
    cons : ExprNode → Exprs → Exprs

  pub data MaybeExpr : Type 0 where
    absent : MaybeExpr
    present : ExprNode → MaybeExpr

  pub data Orders : Type 0 where
    no_orders : Orders
    order : ExprNode → SortDir → Orders → Orders

  -- table_name, select_columns, where, is_distinct
  pub data SubqueryExpr : Type 0 where
    select_from : Text → List Text → MaybeExpr → Bool → SubqueryExpr

-- AssignExpr: the column's table and name, and the value.
pub record AssignExpr : Type 0 where
  pub table_name : Text
  pub column_name : Text
  pub value : ExprNode
