-- ===== src/Builder/Combined.antt =====
-- include/cpplinq/core/query_builder.h: SetOpQueryBuilder.
use cpplinq.Common.{ℕ, List, [], ◌∷◌, ◌++◌, Option, none, some, Bool}
use cpplinq.Text.{Text}
use cpplinq.Expr.{ExprNode, SortDir}
use cpplinq.Generator.SetOps.{SetOpType, SetOpClause, SetQuery}
use cpplinq.Generator.Request.{Request}
use cpplinq.Table.{ColumnDef}
use cpplinq.Builder.{QueryBuilder, get_column_names, get_tuple_column_names}

pub record SetOpQueryBuilder {ℓ} (E : Type ℓ) : Type ℓ where
  pub base_table : Text
  pub columns : List (ColumnDef E)
  pub base_where : Option ExprNode
  pub base_distinct : Bool
  pub ops : List SetOpClause
  pub order_clauses : List (ExprNode × SortDir)
  pub limit : Option ℕ
  pub offset : Option ℕ

-- What an operation takes of the other query: its table, columns, condition and distinct.
unfoldable pub operation {ℓ} : {F : Type ℓ} → SetOpType → QueryBuilder F → SetOpClause
unfolding get_column_names
operation op_type other = record {
  op_type = op_type;
  table_name = other.table_name;
  columns = get_column_names other;
  condition = other.condition;
  is_distinct = other.is_distinct;
}

module _ {ℓ} {E : Type ℓ} where
  -- QueryBuilder::union_with, union_all, intersect and except_from.
  unfoldable pub combine {κ} :
      {F : Type κ} → SetOpType → QueryBuilder F → QueryBuilder E → SetOpQueryBuilder E
  unfolding operation
  combine op_type other q = record {
    base_table = q.table_name;
    columns = q.columns;
    base_where = q.condition;
    base_distinct = q.is_distinct;
    ops = operation op_type other ∷ [];
    order_clauses = [];
    limit = none;
    offset = none;
  }

  unfoldable pub union_with {κ} :
      {F : Type κ} → QueryBuilder F → SetOpQueryBuilder E → SetOpQueryBuilder E
  unfolding operation
  union_with other q = record q { ops = q.ops ++ operation SetOpType.union other ∷ [] }

  unfoldable pub union_all {κ} :
      {F : Type κ} → QueryBuilder F → SetOpQueryBuilder E → SetOpQueryBuilder E
  unfolding operation
  union_all other q = record q { ops = q.ops ++ operation SetOpType.union_all other ∷ [] }

  unfoldable pub intersect {κ} :
      {F : Type κ} → QueryBuilder F → SetOpQueryBuilder E → SetOpQueryBuilder E
  unfolding operation
  intersect other q = record q { ops = q.ops ++ operation SetOpType.intersect other ∷ [] }

  unfoldable pub except_from {κ} :
      {F : Type κ} → QueryBuilder F → SetOpQueryBuilder E → SetOpQueryBuilder E
  unfolding operation
  except_from other q = record q { ops = q.ops ++ operation SetOpType.except other ∷ [] }

  unfoldable pub order_by : ExprNode → SortDir → SetOpQueryBuilder E → SetOpQueryBuilder E
  order_by column dir q = record q { order_clauses = (column, dir) ∷ [] }

  unfoldable pub order_by_desc : ExprNode → SetOpQueryBuilder E → SetOpQueryBuilder E
  unfolding order_by
  order_by_desc column q = order_by column SortDir.desc q

  unfoldable pub then_by : ExprNode → SortDir → SetOpQueryBuilder E → SetOpQueryBuilder E
  then_by column dir q = record q { order_clauses = q.order_clauses ++ (column, dir) ∷ [] }

  unfoldable pub then_by_desc : ExprNode → SetOpQueryBuilder E → SetOpQueryBuilder E
  unfolding then_by
  then_by_desc column q = then_by column SortDir.desc q

  unfoldable pub set_limit : ℕ → SetOpQueryBuilder E → SetOpQueryBuilder E
  set_limit n q = record q { limit = some n }

  unfoldable pub set_offset : ℕ → SetOpQueryBuilder E → SetOpQueryBuilder E
  set_offset n q = record q { offset = some n }

  -- The calls of the generator by to_list and count.
  unfoldable pub set_query : SetOpQueryBuilder E → SetQuery
  unfolding get_tuple_column_names
  set_query q = record {
    base_table = q.base_table;
    base_columns = get_tuple_column_names q.columns;
    base_where = q.base_where;
    base_distinct = q.base_distinct;
    operations = q.ops;
    order_by = q.order_clauses;
    limit = q.limit;
    offset = q.offset;
  }

  unfoldable pub set_request : SetOpQueryBuilder E → Request
  unfolding set_query
  set_request q = Request.set_operation (set_query q)

  unfoldable pub set_count_request : SetOpQueryBuilder E → Request
  unfolding set_query
  set_count_request q = Request.set_operation_count (set_query q)
