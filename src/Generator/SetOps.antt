-- ===== src/Generator/SetOps.antt =====
-- generate_set_operation and generate_set_operation_count.
use cpplinq.Common.{ℕ, Bool, List, [], ◌∷◌, ◌++◌, Option, none, Outcome, ok, ◌>>=◌}
use cpplinq.Text.{Text, codes}
use cpplinq.Expr.{ExprNode, column_ref, SortDir}
use cpplinq.Dialect.Quote.{Dialect}
use cpplinq.Generator.State.{GeneratedSql, Writer, write, ◌<>◌, finish}
use cpplinq.Generator.Visit.{select_text, visit}
use cpplinq.Generator.Select.{write_clause, write_order_by}

pub data SetOpType : Type 0 where
  union union_all intersect except : SetOpType

pub record SetOpClause : Type 0 where
  pub op_type : SetOpType
  pub table_name : Text
  pub columns : List Text
  pub condition : Option ExprNode
  pub is_distinct : Bool

-- The parameters of generate_set_operation.
pub record SetQuery : Type 0 where
  pub base_table : Text
  pub base_columns : List Text
  pub base_where : Option ExprNode
  pub base_distinct : Bool
  pub operations : List SetOpClause
  pub order_by : List (ExprNode × SortDir)
  pub limit : Option ℕ
  pub offset : Option ℕ

unfoldable pub set_op_text : SetOpType → Text
set_op_text union = codes " UNION "
set_op_text union_all = codes " UNION ALL "
set_op_text intersect = codes " INTERSECT "
set_op_text except = codes " EXCEPT "

unfoldable pub write_operations : Dialect → List SetOpClause → Writer
unfolding set_op_text write_clause
write_operations d [] = write (codes "")
write_operations d (o ∷ os) =
    write (set_op_text o.op_type ++ codes "SELECT ")
    <> write (select_text d (codes "*") o.table_name o.columns o.is_distinct)
    <> write_clause d (codes " WHERE ") o.condition
    <> write_operations d os

-- A column is named without its table.
unfoldable pub visit_unqualified : Dialect → ExprNode → Writer
visit_unqualified d (column_ref table_name column_name) = write (d.quote_id column_name)
visit_unqualified d e = visit d e

unfoldable pub write_set : Dialect → SetQuery → Text → Writer
unfolding write_operations visit_unqualified write_clause write_order_by
write_set d q tail =
    write (codes "SELECT ")
    <> write (d.select_prefix_limit_offset q.limit q.offset)
    <> write (select_text d (codes "*") q.base_table q.base_columns q.base_distinct)
    <> write_clause d (codes " WHERE ") q.base_where
    <> write_operations d q.operations
    <> write_order_by (visit_unqualified d) q.order_by q.limit q.offset tail
    <> write tail

unfoldable pub generate_set_operation : Dialect → SetQuery → Outcome GeneratedSql
unfolding write_set
generate_set_operation d q = do
  tail ← d.limit_offset q.limit q.offset
  ok (finish (write_set d q tail))

-- The statement that counts the rows of another.
unfoldable pub count_of_rows : Dialect → GeneratedSql → GeneratedSql
count_of_rows d sub = record {
  sql = codes "SELECT COUNT(*) FROM (" ++ (sub.sql ++ (codes ") " ++ d.quote_id (codes "_sub")));
  params = sub.params;
  slots = sub.slots;
}

-- generate_set_operation is called with its default order, limit and offset.
unfoldable pub generate_set_operation_count : Dialect → SetQuery → Outcome GeneratedSql
unfolding generate_set_operation count_of_rows
generate_set_operation_count d q = do
  sub ← generate_set_operation d (record q { order_by = []; limit = none; offset = none })
  ok (count_of_rows d sub)
