-- ===== src/Builder/Joins3.antt =====
-- include/cpplinq/core/query_builder.h: Joined3QueryBuilder, and Join3Proxy.
use cpplinq.Common.{ℕ, List, [], ◌∷◌, ◌++◌, Option, none, some, false}
use cpplinq.Text.{Text}
use cpplinq.Expr.{ExprNode, SortDir}
use cpplinq.Generator.Select.{JoinClause}
use cpplinq.Generator.Request.{Request}
use cpplinq.Table.{ColumnDef, TableDef}
use cpplinq.Builder.{and_where, get_tuple_column_names}
use cpplinq.Builder.Joins.{JoinType, join_text, JoinedQueryBuilder}

pub record Joined3QueryBuilder {ℓ} (E F G : Type ℓ) : Type ℓ where
  pub join_type2 : JoinType
  pub join_type3 : JoinType
  pub primary_table : Text
  pub primary_cols : List (ColumnDef E)
  pub joined_table2 : Text
  pub joined_cols2 : List (ColumnDef F)
  pub on_cond2 : ExprNode
  pub joined_table3 : Text
  pub joined_cols3 : List (ColumnDef G)
  pub on_cond3 : ExprNode
  pub condition : Option ExprNode
  pub order_clauses : List (ExprNode × SortDir)
  pub limit : Option ℕ
  pub offset : Option ℕ

module _ {ℓ} {E F G : Type ℓ} where
  -- The clauses of the join of two tables but its condition are not taken over.
  unfoldable pub make_joined_3 :
      JoinType → TableDef G → ExprNode → JoinedQueryBuilder E F → Joined3QueryBuilder E F G
  make_joined_3 join_type target e q = record {
    join_type2 = q.join_type;
    join_type3 = join_type;
    primary_table = q.primary_table;
    primary_cols = q.primary_cols;
    joined_table2 = q.joined_table;
    joined_cols2 = q.joined_cols;
    on_cond2 = q.on_cond;
    joined_table3 = target.name;
    joined_cols3 = target.columns;
    on_cond3 = e;
    condition = q.condition;
    order_clauses = [];
    limit = none;
    offset = none;
  }

  -- The conditions of several calls are joined by AND.
  unfoldable pub add_where : ExprNode → Joined3QueryBuilder E F G → Joined3QueryBuilder E F G
  unfolding and_where
  add_where e q = record q { condition = and_where q.condition e }

  unfoldable pub order_by :
      ExprNode → SortDir → Joined3QueryBuilder E F G → Joined3QueryBuilder E F G
  order_by column dir q = record q { order_clauses = (column, dir) ∷ [] }

  unfoldable pub order_by_desc : ExprNode → Joined3QueryBuilder E F G → Joined3QueryBuilder E F G
  unfolding order_by
  order_by_desc column q = order_by column SortDir.desc q

  unfoldable pub then_by :
      ExprNode → SortDir → Joined3QueryBuilder E F G → Joined3QueryBuilder E F G
  then_by column dir q = record q { order_clauses = q.order_clauses ++ (column, dir) ∷ [] }

  unfoldable pub then_by_desc : ExprNode → Joined3QueryBuilder E F G → Joined3QueryBuilder E F G
  unfolding then_by
  then_by_desc column q = then_by column SortDir.desc q

  unfoldable pub set_limit : ℕ → Joined3QueryBuilder E F G → Joined3QueryBuilder E F G
  set_limit n q = record q { limit = some n }

  unfoldable pub set_offset : ℕ → Joined3QueryBuilder E F G → Joined3QueryBuilder E F G
  set_offset n q = record q { offset = some n }

  unfoldable pub join_clauses : Joined3QueryBuilder E F G → List JoinClause
  unfolding join_text
  join_clauses q =
      record {
        join_type = join_text q.join_type2;
        table_name = q.joined_table2;
        on_condition = q.on_cond2;
      }
      ∷ record {
        join_type = join_text q.join_type3;
        table_name = q.joined_table3;
        on_condition = q.on_cond3;
      }
      ∷ []

  -- The calls of the generator by to_list and count.
  unfoldable pub joined3_request : Joined3QueryBuilder E F G → Request
  unfolding join_clauses get_tuple_column_names
  joined3_request q = Request.joined_select (record {
    primary_table = q.primary_table;
    primary_columns = get_tuple_column_names q.primary_cols;
    joins = join_clauses q;
    joined_tables_columns =
        (q.joined_table2, get_tuple_column_names q.joined_cols2)
        ∷ (q.joined_table3, get_tuple_column_names q.joined_cols3)
        ∷ [];
    condition = q.condition;
    order_by = q.order_clauses;
    limit = q.limit;
    offset = q.offset;
    is_distinct = false;
  })

  unfoldable pub joined3_count_request : Joined3QueryBuilder E F G → Request
  unfolding join_clauses
  joined3_count_request q = Request.joined_count q.primary_table (join_clauses q) q.condition
