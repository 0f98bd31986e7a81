-- ===== src/Generator/Select.antt =====
-- The generate_* methods that read: SELECT, its joins and counts, aggregates, expressions.
use cpplinq.Common.{
  ℕ, Bool, true, false, List, [], ◌∷◌, ◌++◌, ◌&&◌, ◌||◌, map, Option, none, some, Outcome, ok,
  ◌>>=◌, if◌then◌else◌,
}
use cpplinq.Text.{Text, codes, contains, join, same}
use cpplinq.Expr.{ExprNode, SubqueryExpr, SortDir}
use cpplinq.Dialect.Quote.{Dialect}
use cpplinq.Generator.State.{GeneratedSql, Writer, write, ◌<>◌, finish}
use cpplinq.Generator.Visit.{select_text, direction_text, visit, visit_select}

pub record CteClause : Type 0 where
  pub name : Text
  pub subquery : SubqueryExpr
  pub is_recursive : Bool

pub record JoinClause : Type 0 where
  pub join_type : Text
  pub table_name : Text
  pub on_condition : ExprNode

-- The parameters of generate_cte_select.
pub record SelectQuery : Type 0 where
  pub ctes : List CteClause
  pub table_name : Text
  pub columns : List Text
  pub condition : Option ExprNode
  pub order_by : List (ExprNode × SortDir)
  pub limit : Option ℕ
  pub offset : Option ℕ
  pub is_distinct : Bool
  pub group_by : List ExprNode
  pub having : Option ExprNode

-- The parameters of generate_joined_select.
pub record JoinedQuery : Type 0 where
  pub primary_table : Text
  pub primary_columns : List Text
  pub joins : List JoinClause
  pub joined_tables_columns : List (Text × List Text)
  pub condition : Option ExprNode
  pub order_by : List (ExprNode × SortDir)
  pub limit : Option ℕ
  pub offset : Option ℕ
  pub is_distinct : Bool

-- `if (node.has_value()) sql += keyword + visit(*node)`
unfoldable pub write_clause : Dialect → Text → Option ExprNode → Writer
write_clause d keyword none = write (codes "")
write_clause d keyword (some e) = write keyword <> visit d e

unfoldable pub write_nodes_rest : Dialect → List ExprNode → Writer
write_nodes_rest d [] = write (codes "")
write_nodes_rest d (e ∷ es) = write (codes ", ") <> visit d e <> write_nodes_rest d es

unfoldable pub write_group_by : Dialect → List ExprNode → Writer
unfolding write_nodes_rest
write_group_by d [] = write (codes "")
write_group_by d (e ∷ es) = write (codes " GROUP BY ") <> visit d e <> write_nodes_rest d es

-- One piece of an ORDER BY list; `show` writes the node.
unfoldable pub write_orders_rest : (ExprNode → Writer) → List (ExprNode × SortDir) → Writer
write_orders_rest show [] = write (codes "")
write_orders_rest show ((e, direction) ∷ os) =
    write (codes ", ") <> show e <> write (direction_text direction) <> write_orders_rest show os

abbrev has_value : Option ℕ → Bool
has_value none = false
has_value (some n) = true

-- Without an ORDER BY, a clause that says OFFSET gets one that orders nothing. `tail` is the
-- dialect's limit clause.
unfoldable pub order_filler : Option ℕ → Option ℕ → Text → Text
unfolding contains
order_filler limit offset tail =
    if (has_value limit || has_value offset) && contains tail (codes "OFFSET")
    then codes " ORDER BY (SELECT NULL)"
    else codes ""

unfoldable pub write_order_by :
    (ExprNode → Writer) → List (ExprNode × SortDir) → Option ℕ → Option ℕ → Text → Writer
unfolding write_orders_rest order_filler
write_order_by show [] limit offset tail = write (order_filler limit offset tail)
write_order_by show ((e, direction) ∷ os) limit offset tail =
    write (codes " ORDER BY ")
    <> show e
    <> write (direction_text direction)
    <> write_orders_rest show os

unfoldable pub write_cte : Dialect → CteClause → Writer
write_cte d c =
    write (d.quote_id c.name ++ codes " AS (SELECT ")
    <> visit_select d c.subquery (codes "*")
    <> write (codes ")")

unfoldable pub write_ctes_rest : Dialect → List CteClause → Writer
unfolding write_cte
write_ctes_rest d [] = write (codes "")
write_ctes_rest d (c ∷ cs) = write (codes ", ") <> write_cte d c <> write_ctes_rest d cs

unfoldable pub write_with : Dialect → List CteClause → Writer
unfolding write_cte write_ctes_rest
write_with d [] = write (codes "")
write_with d (c ∷ cs) =
    write (codes "WITH ") <> write_cte d c <> write_ctes_rest d cs <> write (codes " ")

-- The statement, given the dialect's limit clause.
unfoldable pub write_select : Dialect → SelectQuery → Text → Writer
unfolding write_clause write_group_by write_order_by write_with
write_select d q tail =
    write_with d q.ctes
    <> write (codes "SELECT ")
    <> write (d.select_prefix_limit_offset q.limit q.offset)
    <> write (select_text d (codes "*") q.table_name q.columns q.is_distinct)
    <> write_clause d (codes " WHERE ") q.condition
    <> write_group_by d q.group_by
    <> write_clause d (codes " HAVING ") q.having
    <> write_order_by (visit d) q.order_by q.limit q.offset tail
    <> write tail

unfoldable pub generate_cte_select : Dialect → SelectQuery → Outcome GeneratedSql
unfolding write_select
generate_cte_select d q = do
  tail ← d.limit_offset q.limit q.offset
  ok (finish (write_select d q tail))

-- Both overloads of generate_select; the second one copies its OrderByExpr into pairs.
unfoldable pub generate_select : Dialect → SelectQuery → Outcome GeneratedSql
unfolding generate_cte_select
generate_select d q = generate_cte_select d (record q { ctes = [] })

unfoldable pub qualified_columns : Dialect → Text → List Text → List Text
qualified_columns d table_name columns =
    map (λ c. d.quote_id table_name ++ (codes "." ++ d.quote_id c)) columns

unfoldable pub joined_columns : Dialect → List (Text × List Text) → List Text
unfolding qualified_columns
joined_columns d [] = []
joined_columns d ((table_name, columns) ∷ rest) =
    qualified_columns d table_name columns ++ joined_columns d rest

unfoldable pub write_joins : Dialect → List JoinClause → Writer
write_joins d [] = write (codes "")
write_joins d (j ∷ js) =
    write (codes " " ++ (j.join_type ++ (codes " " ++ (d.quote_id j.table_name ++ codes " ON "))))
    <> visit d j.on_condition
    <> write_joins d js

unfoldable pub write_joined : Dialect → JoinedQuery → Text → Writer
unfolding write_clause write_order_by write_joins qualified_columns joined_columns join
write_joined d q tail =
    write (codes "SELECT ")
    <> write (d.select_prefix_limit_offset q.limit q.offset)
    <> write (if q.is_distinct then codes "DISTINCT " else codes "")
    <> write (
        join (codes ", ") (
          qualified_columns d q.primary_table q.primary_columns
          ++ joined_columns d q.joined_tables_columns))
    <> write (codes " FROM " ++ d.quote_id q.primary_table)
    <> write_joins d q.joins
    <> write_clause d (codes " WHERE ") q.condition
    <> write_order_by (visit d) q.order_by q.limit q.offset tail
    <> write tail

unfoldable pub generate_joined_select : Dialect → JoinedQuery → Outcome GeneratedSql
unfolding write_joined
generate_joined_select d q = do
  tail ← d.limit_offset q.limit q.offset
  ok (finish (write_joined d q tail))

unfoldable pub generate_joined_count :
    Dialect → Text → List JoinClause → Option ExprNode → GeneratedSql
unfolding write_clause write_joins
generate_joined_count d primary_table joins condition = finish (
    write (codes "SELECT COUNT(*) FROM " ++ d.quote_id primary_table)
    <> write_joins d joins
    <> write_clause d (codes " WHERE ") condition)

unfoldable pub count_target : Dialect → Bool → Option Text → Text
count_target d true (some column) = codes "DISTINCT " ++ d.quote_id column
count_target d true none = codes "*"
count_target d false column = codes "*"

unfoldable pub generate_count : Dialect → Text → Option ExprNode → Bool → Option Text → GeneratedSql
unfolding write_clause count_target
generate_count d table_name condition is_distinct distinct_column = finish (
    write (codes "SELECT COUNT(" ++ count_target d is_distinct distinct_column)
    <> write (codes ") FROM " ++ d.quote_id table_name)
    <> write_clause d (codes " WHERE ") condition)

unfoldable pub generate_aggregate : Dialect → Text → Text → Text → Option ExprNode → GeneratedSql
unfolding write_clause same
generate_aggregate d function_name table_name column_name condition = finish (
    write (codes "SELECT " ++ (d.function_name function_name ++ codes "("))
    <> write (if same column_name (codes "*") then codes "*" else d.quote_id column_name)
    <> write (codes ") FROM " ++ d.quote_id table_name)
    <> write_clause d (codes " WHERE ") condition)

unfoldable pub generate_expression : Dialect → ExprNode → GeneratedSql
generate_expression d node = finish (visit d node)
