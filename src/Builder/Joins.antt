-- ===== src/Builder/Joins.antt =====
-- include/cpplinq/core/query_builder.h: JoinedQueryBuilder, and JoinProxy.
use cpplinq.Common.{ℕ, List, [], ◌∷◌, ◌++◌, Option, none, some, false}
use cpplinq.Text.{Text, codes}
use cpplinq.Expr.{ExprNode, SortDir}
use cpplinq.Generator.Select.{JoinClause}
use cpplinq.Generator.Request.{Request}
use cpplinq.Table.{ColumnDef, TableDef}
use cpplinq.Builder.{QueryBuilder, and_where, get_tuple_column_names}

pub data JoinType : Type 0 where
  inner left : JoinType

unfoldable pub join_text : JoinType → Text
join_text JoinType.inner = codes "INNER JOIN"
join_text JoinType.left = codes "LEFT JOIN"

pub record JoinedQueryBuilder {ℓ} (E F : Type ℓ) : Type ℓ where
  pub join_type : JoinType
  pub primary_table : Text
  pub primary_cols : List (ColumnDef E)
  pub joined_table : Text
  pub joined_cols : List (ColumnDef F)
  pub on_cond : ExprNode
  pub condition : Option ExprNode
  pub order_clauses : List (ExprNode × SortDir)
  pub limit : Option ℕ
  pub offset : Option ℕ

module _ {ℓ} {E F : Type ℓ} where
  -- join(other).on(condition) and left_join(other).on(condition), through JoinProxy.
  unfoldable pub make_joined :
      JoinType → TableDef F → ExprNode → QueryBuilder E → JoinedQueryBuilder E F
  make_joined join_type other_table e q = record {
    join_type = join_type;
    primary_table = q.table_name;
    primary_cols = q.columns;
    joined_table = other_table.name;
    joined_cols = other_table.columns;
    on_cond = e;
    condition = q.condition;
    order_clauses = [];
    limit = none;
    offset = none;
  }

  -- The conditions of several calls are joined by AND.
  unfoldable pub add_where : ExprNode → JoinedQueryBuilder E F → JoinedQueryBuilder E F
  unfolding and_where
  add_where e q = record q { condition = and_where q.condition e }

  unfoldable pub order_by : ExprNode → SortDir → JoinedQueryBuilder E F → JoinedQueryBuilder E F
  order_by column dir q = record q { order_clauses = (column, dir) ∷ [] }

  unfoldable pub order_by_desc : ExprNode → JoinedQueryBuilder E F → JoinedQueryBuilder E F
  unfolding order_by
  order_by_desc column q = order_by column SortDir.desc q

  unfoldable pub then_by : ExprNode → SortDir → JoinedQueryBuilder E F → JoinedQueryBuilder E F
  then_by column dir q = record q { order_clauses = q.order_clauses ++ (column, dir) ∷ [] }

  unfoldable pub then_by_desc : ExprNode → JoinedQueryBuilder E F → JoinedQueryBuilder E F
  unfolding then_by
  then_by_desc column q = then_by column SortDir.desc q

  unfoldable pub set_limit : ℕ → JoinedQueryBuilder E F → JoinedQueryBuilder E F
  set_limit n q = record q { limit = some n }

  unfoldable pub set_offset : ℕ → JoinedQueryBuilder E F → JoinedQueryBuilder E F
  set_offset n q = record q { offset = some n }

  unfoldable pub join_clause : JoinedQueryBuilder E F → JoinClause
  unfolding join_text
  join_clause q = record {
    join_type = join_text q.join_type;
    table_name = q.joined_table;
    on_condition = q.on_cond;
  }

  -- The calls of the generator by to_list and count.
  unfoldable pub joined_request : JoinedQueryBuilder E F → Request
  unfolding join_clause get_tuple_column_names
  joined_request q = Request.joined_select (record {
    primary_table = q.primary_table;
    primary_columns = get_tuple_column_names q.primary_cols;
    joins = join_clause q ∷ [];
    joined_tables_columns = (q.joined_table, get_tuple_column_names q.joined_cols) ∷ [];
    condition = q.condition;
    order_by = q.order_clauses;
    limit = q.limit;
    offset = q.offset;
    is_distinct = false;
  })

  unfoldable pub joined_count_request : JoinedQueryBuilder E F → Request
  unfolding join_clause
  joined_count_request q = Request.joined_count q.primary_table (join_clause q ∷ []) q.condition
