-- ===== src/Builder.antt =====
-- include/cpplinq/core/query_builder.h: QueryBuilder, its clauses and its subqueries. The terminal
-- operations are in Terminals, the joins in Joins, and the set operations in Combined.
pub mod Terminals
pub mod Joins
pub mod Joins3
pub mod Combined
pub mod Steps
pub mod Clauses
pub mod Bound
use cpplinq.Common.{
  ℕ, Bool, true, false, List, [], ◌∷◌, ◌++◌, map, Option, none, some, is_empty, if◌then◌else◌,
}
use cpplinq.Text.{Text}
use cpplinq.Expr.{ExprNode, LogicOp, SortDir, MaybeExpr, absent, present, SubqueryExpr, select_from}
use cpplinq.Generator.Select.{CteClause, SelectQuery}
use cpplinq.Generator.Request.{Request}
use cpplinq.Table.{ColumnDef, TableDef}

-- where_clause_ after another condition.
unfoldable pub and_where : Option ExprNode → ExprNode → Option ExprNode
and_where none e = some e
and_where (some c) e = some (ExprNode.logic c LogicOp.and e)

unfoldable pub get_tuple_column_names {ℓ} : {E : Type ℓ} → List (ColumnDef E) → List Text
get_tuple_column_names cols = map (λ c. c.name) cols

pub record QueryBuilder {ℓ} (E : Type ℓ) : Type ℓ where
  pub table_name : Text
  pub columns : List (ColumnDef E)
  pub condition : Option ExprNode
  pub order_clauses : List (ExprNode × SortDir)
  pub limit : Option ℕ
  pub offset : Option ℕ
  pub is_distinct : Bool
  pub group_by_clauses : List ExprNode
  pub having_clause : Option ExprNode
  pub ctes : List CteClause

abbrev pub maybe_node : Option ExprNode → MaybeExpr
maybe_node none = absent
maybe_node (some e) = present e

module _ {ℓ} {E : Type ℓ} where
  -- DbContext::from, and the constructor.
  unfoldable pub from : TableDef E → QueryBuilder E
  from table = record {
    table_name = table.name;
    columns = table.columns;
    condition = none;
    order_clauses = [];
    limit = none;
    offset = none;
    is_distinct = false;
    group_by_clauses = [];
    having_clause = none;
    ctes = [];
  }

  unfoldable pub distinct : QueryBuilder E → QueryBuilder E
  distinct q = record q { is_distinct = true }

  -- The conditions of several calls are joined by AND.
  unfoldable pub add_where : ExprNode → QueryBuilder E → QueryBuilder E
  unfolding and_where
  add_where e q = record q { condition = and_where q.condition e }

  unfoldable pub order_by : ExprNode → SortDir → QueryBuilder E → QueryBuilder E
  order_by column dir q = record q { order_clauses = (column, dir) ∷ [] }

  unfoldable pub order_by_desc : ExprNode → QueryBuilder E → QueryBuilder E
  unfolding order_by
  order_by_desc column q = order_by column SortDir.desc q

  unfoldable pub then_by : ExprNode → SortDir → QueryBuilder E → QueryBuilder E
  then_by column dir q = record q { order_clauses = q.order_clauses ++ (column, dir) ∷ [] }

  unfoldable pub then_by_desc : ExprNode → QueryBuilder E → QueryBuilder E
  unfolding then_by
  then_by_desc column q = then_by column SortDir.desc q

  unfoldable pub set_limit : ℕ → QueryBuilder E → QueryBuilder E
  set_limit n q = record q { limit = some n }

  unfoldable pub set_offset : ℕ → QueryBuilder E → QueryBuilder E
  set_offset n q = record q { offset = some n }

  -- All overloads: one call adds its columns in order.
  unfoldable pub group_by : List ExprNode → QueryBuilder E → QueryBuilder E
  group_by columns q = record q { group_by_clauses = q.group_by_clauses ++ columns }

  -- Another call replaces the condition.
  unfoldable pub having : ExprNode → QueryBuilder E → QueryBuilder E
  having e q = record q { having_clause = some e }

  unfoldable pub with_cte : Text → SubqueryExpr → QueryBuilder E → QueryBuilder E
  with_cte name sub q = record q {
    ctes = q.ctes ++ record { name = name; subquery = sub; is_recursive = false } ∷ [];
  }

  unfoldable pub get_column_names : QueryBuilder E → List Text
  unfolding get_tuple_column_names
  get_column_names q = get_tuple_column_names q.columns

  unfoldable pub as_subquery : QueryBuilder E → SubqueryExpr
  unfolding get_column_names
  as_subquery q =
      select_from q.table_name (get_column_names q) (maybe_node q.condition) q.is_distinct

  -- The overloads that take a column: a ColumnDef, or a ColumnHandle with this name.
  unfoldable pub as_subquery_of : Text → QueryBuilder E → SubqueryExpr
  as_subquery_of column q =
      select_from q.table_name (column ∷ []) (maybe_node q.condition) q.is_distinct

  unfoldable pub to_expr : QueryBuilder E → ExprNode
  unfolding as_subquery
  to_expr q = ExprNode.subquery (as_subquery q)

  -- The functions exists and not_exists at the end of the file.
  unfoldable pub exists_in : QueryBuilder E → ExprNode
  unfolding as_subquery
  exists_in q = ExprNode.exists (as_subquery q) false

  unfoldable pub not_exists_in : QueryBuilder E → ExprNode
  unfolding as_subquery
  not_exists_in q = ExprNode.exists (as_subquery q) true

  -- The call of the generator by to_list, stream and prepare.
  unfoldable pub select_query : QueryBuilder E → SelectQuery
  unfolding get_column_names
  select_query q = record {
    ctes = q.ctes;
    table_name = q.table_name;
    columns = get_column_names q;
    condition = q.condition;
    order_by = q.order_clauses;
    limit = q.limit;
    offset = q.offset;
    is_distinct = q.is_distinct;
    group_by = q.group_by_clauses;
    having = q.having_clause;
  }

  unfoldable pub select_request : QueryBuilder E → Request
  unfolding select_query
  select_request q =
      if is_empty q.ctes
      then Request.plain_select (select_query q)
      else Request.cte_select (select_query q)

-- with_cte with another builder.
unfoldable pub with_cte_of {ℓ κ} :
    {E : Type ℓ} {F : Type κ} → Text → QueryBuilder F → QueryBuilder E → QueryBuilder E
unfolding as_subquery with_cte
with_cte_of name other q = with_cte name (as_subquery other) q
