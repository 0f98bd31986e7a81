-- ===== src/Agree/Statements/Reads.antt =====
-- SELECT, joins, set operations, counts and aggregates.
use cpplinq.Common.{
  ℕ, Bool, true, false, List, [], ◌∷◌, ◌≡◌, refl, Option, none, some, &&-left, &&-right,
}
use cpplinq.Text.{Text, codes, quiet}
use cpplinq.Expr.{ExprNode, column_ref}
use cpplinq.Dialect.Quote.{Dialect}
use cpplinq.Generator.State.{GeneratedSql}
use cpplinq.Generator.Visit.{visit}
use cpplinq.Generator.Select.{
  JoinClause, SelectQuery, JoinedQuery, write_select, qualified_columns, joined_columns,
  write_joins, write_joined, count_target, generate_joined_count, generate_count,
  generate_aggregate,
}
use cpplinq.Generator.SetOps.{
  SetOpClause, SetQuery, write_operations, visit_unqualified, write_set, count_of_rows,
}
use cpplinq.Agree.Relation.{Relation, Agree}
use cpplinq.Agree.Texts.{cat, before, behind, choose}
use cpplinq.Agree.Regular.{regular}
use cpplinq.Agree.Requests.{
  all_of, regular_option, regular_join, regular_operation, regular_query, regular_joined,
  regular_set,
}
use cpplinq.Agree.Follow.{
  Follows, follow_quiet, follow_text, follow_choice, follow, SameStatement, finish_same,
}
use cpplinq.Agree.Each.{Each, Each-map, Each-append, Each-join}
use cpplinq.Agree.Statements.Clauses.{
  visit_follow, write_clause_follow, order_by_follow, with_follow, prefix_follow,
  select_text_follow, group_by_follow, set_op_text-quiet,
}

module _ (r : Relation) (d d' : Dialect) (agree : Agree r d d') where
  open agree use {quote_id_rel}

  pub select_follow :
      (q : SelectQuery) (tail : Text)
      → regular_query q ≡ true
      → quiet tail ≡ true
      → Follows r (write_select d q tail) (write_select d' q tail)
  unfolding write_select regular_query
  select_follow q tail h t =
      let h1 = &&-right _ _ h in
      let h2 = &&-right _ _ h1 in
      let h3 = &&-right _ _ h2 in
      follow r (with_follow r d d' agree q.ctes (&&-left _ _ h)) (
        follow r (follow_quiet r _ refl) (
          follow r (prefix_follow r d d' agree q.limit q.offset) (
            follow r (select_text_follow r d d' agree q.table_name q.columns q.is_distinct) (
              follow r (write_clause_follow r d d' agree _ q.condition refl (&&-left _ _ h1)) (
                follow r (group_by_follow r d d' agree q.group_by (&&-left _ _ h2)) (
                  follow r (write_clause_follow r d d' agree _ q.having refl (&&-left _ _ h3)) (
                    follow r
                      (order_by_follow r d d' agree (visit d) (visit d') (visit_follow r d d' agree)
                        q.order_by q.limit q.offset tail (&&-right _ _ h3))
                      (follow_quiet r tail t))))))))

  joins_follow :
      (js : List JoinClause)
      → all_of regular_join js ≡ true
      → Follows r (write_joins d js) (write_joins d' js)
  unfolding write_joins all_of
  joins_follow [] h = follow_quiet r _ refl
  joins_follow (j ∷ js) h =
      follow r
        (follow_text r (λ i. before r (codes " ") refl (
          before r j.join_type (&&-left _ _ (&&-left _ _ h)) (
            before r (codes " ") refl
              (behind r (codes " ON ") refl (quote_id_rel i j.table_name))))))
        (follow r (visit_follow r d d' agree j.on_condition (&&-right _ _ (&&-left _ _ h)))
          (joins_follow js (&&-right _ _ h)))

  qualified-Each :
      (table_name : Text) (columns : List Text)
      → Each r (qualified_columns d table_name columns) (qualified_columns d' table_name columns)
  unfolding qualified_columns
  qualified-Each table_name columns =
      Each-map r _ _
        (λ i c. cat r (quote_id_rel i table_name) (before r (codes ".") refl (quote_id_rel i c)))
        columns

  joined-Each : (ts : List (Text × List Text)) → Each r (joined_columns d ts) (joined_columns d' ts)
  unfolding joined_columns
  joined-Each [] = tt
  joined-Each ((table_name, columns) ∷ rest) =
      Each-append r _ _ _ _ (qualified-Each table_name columns) (joined-Each rest)

  pub joined_follow :
      (q : JoinedQuery) (tail : Text)
      → regular_joined q ≡ true
      → quiet tail ≡ true
      → Follows r (write_joined d q tail) (write_joined d' q tail)
  unfolding write_joined regular_joined
  joined_follow q tail h t =
      let h1 = &&-right _ _ h in
      follow r (follow_quiet r _ refl) (
        follow r (prefix_follow r d d' agree q.limit q.offset) (
          follow r (follow_choice r q.is_distinct _ _ refl refl) (
            follow r
              (follow_text r (
                Each-join r (codes ", ") _ _ refl (
                  Each-append r _ _ _ _ (qualified-Each q.primary_table q.primary_columns)
                    (joined-Each q.joined_tables_columns))))
              (follow r
                (follow_text r
                  (λ i. before r (codes " FROM ") refl (quote_id_rel i q.primary_table)))
                (follow r (joins_follow q.joins (&&-left _ _ h)) (
                  follow r (write_clause_follow r d d' agree _ q.condition refl (&&-left _ _ h1)) (
                    follow r
                      (order_by_follow r d d' agree (visit d) (visit d') (visit_follow r d d' agree)
                        q.order_by q.limit q.offset tail (&&-right _ _ h1))
                      (follow_quiet r tail t))))))))

  operations_follow :
      (os : List SetOpClause)
      → all_of regular_operation os ≡ true
      → Follows r (write_operations d os) (write_operations d' os)
  unfolding write_operations all_of
  operations_follow [] h = follow_quiet r _ refl
  operations_follow (o ∷ os) h = follow r (follow_quiet r _ (set_op_text-quiet o.op_type)) (
      follow r (select_text_follow r d d' agree o.table_name o.columns o.is_distinct) (
        follow r (write_clause_follow r d d' agree _ o.condition refl (&&-left _ _ h))
          (operations_follow os (&&-right _ _ h))))

  unqualified_follow :
      (e : ExprNode) → regular e ≡ true → Follows r (visit_unqualified d e) (visit_unqualified d' e)
  unfolding visit_unqualified
  unqualified_follow (column_ref table_name column_name) h =
      follow_text r (λ i. quote_id_rel i column_name)
  unqualified_follow e h = visit_follow r d d' agree e h

  pub set_follow :
      (q : SetQuery) (tail : Text)
      → regular_set q ≡ true
      → quiet tail ≡ true
      → Follows r (write_set d q tail) (write_set d' q tail)
  unfolding write_set regular_set
  set_follow q tail h t =
      let h1 = &&-right _ _ h in
      follow r (follow_quiet r _ refl) (
        follow r (prefix_follow r d d' agree q.limit q.offset) (
          follow r (select_text_follow r d d' agree q.base_table q.base_columns q.base_distinct) (
            follow r (write_clause_follow r d d' agree _ q.base_where refl (&&-left _ _ h)) (
              follow r (operations_follow q.operations (&&-left _ _ h1)) (
                follow r
                  (order_by_follow r d d' agree (visit_unqualified d) (visit_unqualified d')
                    unqualified_follow q.order_by q.limit q.offset tail (&&-right _ _ h1))
                  (follow_quiet r tail t))))))

  pub count_of_rows_same :
      (s s' : GeneratedSql)
      → SameStatement r s s'
      → SameStatement r (count_of_rows d s) (count_of_rows d' s')
  unfolding count_of_rows
  count_of_rows_same s s' h = record {
    related =
        before r (codes "SELECT COUNT(*) FROM (") refl
          (cat r h.related (before r (codes ") ") refl (quote_id_rel _ (codes "_sub"))));
    same_params = h.same_params;
    same_slots = h.same_slots;
    bound_values = h.bound_values;
  }

  pub joined_count_same :
      (primary_table : Text) (joins : List JoinClause) (condition : Option ExprNode)
      → all_of regular_join joins ≡ true
      → regular_option condition ≡ true
      → SameStatement r
          (generate_joined_count d primary_table joins condition)
          (generate_joined_count d' primary_table joins condition)
  unfolding generate_joined_count
  joined_count_same primary_table joins condition h k = finish_same r (
      follow r
        (follow_text r
          (λ i. before r (codes "SELECT COUNT(*) FROM ") refl (quote_id_rel i primary_table)))
        (follow r (joins_follow joins h) (write_clause_follow r d d' agree _ condition refl k)))

  count_target_rel :
      (b : Bool) (column : Option Text) (i : ℕ)
      → r.Rel i i (count_target d b column) (count_target d' b column)
  unfolding count_target
  count_target_rel true (some column) i = before r (codes "DISTINCT ") refl (quote_id_rel i column)
  count_target_rel true none i = r.quiet_rel i _ refl
  count_target_rel false column i = r.quiet_rel i _ refl

  pub count_same :
      (table_name : Text) (condition : Option ExprNode) (b : Bool) (column : Option Text)
      → regular_option condition ≡ true
      → SameStatement r
          (generate_count d table_name condition b column)
          (generate_count d' table_name condition b column)
  unfolding generate_count
  count_same table_name condition b column h = finish_same r (
      follow r
        (follow_text r (λ i. before r (codes "SELECT COUNT(") refl (count_target_rel b column i)))
        (follow r (follow_text r (λ i. before r (codes ") FROM ") refl (quote_id_rel i table_name)))
          (write_clause_follow r d d' agree _ condition refl h)))

  pub aggregate_same :
      (function_name table_name column_name : Text) (condition : Option ExprNode)
      → quiet function_name ≡ true
      → regular_option condition ≡ true
      → SameStatement r
          (generate_aggregate d function_name table_name column_name condition)
          (generate_aggregate d' function_name table_name column_name condition)
  unfolding generate_aggregate
  aggregate_same function_name table_name column_name condition q h = finish_same r (
      follow r
        (follow_text r (λ i.
          before r (codes "SELECT ") refl
            (behind r (codes "(") refl (agree.function_name_rel i function_name q))))
        (follow r
          (follow_text r
            (λ i. choose r _ (r.quiet_rel i (codes "*") refl) (quote_id_rel i column_name)))
          (follow r
            (follow_text r (λ i. before r (codes ") FROM ") refl (quote_id_rel i table_name)))
            (write_clause_follow r d d' agree _ condition refl h))))
