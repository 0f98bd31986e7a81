-- ===== src/Agree/Statements/Clauses.antt =====
-- The clauses that the statements share.
use cpplinq.Common.{
  ℕ, Bool, true, List, [], ◌∷◌, ◌++◌, ◌≡◌, refl, Option, none, some, arith, &&-left, &&-right,
}
use cpplinq.Text.{Text, codes, quiet}
use cpplinq.Expr.{ExprNode, SortDir}
use cpplinq.Dialect.Quote.{Dialect}
use cpplinq.Generator.State.{Writer, write}
use cpplinq.Generator.Visit.{select_text, visit}
use cpplinq.Generator.Select.{
  CteClause, write_clause, write_nodes_rest, write_group_by, write_orders_rest, order_filler,
  write_order_by, write_cte, write_ctes_rest, write_with,
}
use cpplinq.Generator.SetOps.{SetOpType, union, union_all, set_op_text}
use cpplinq.Agree.Relation.{Relation, Agree}
use cpplinq.Agree.Texts.{behind, select_text_rel}
use cpplinq.Agree.Regular.{bound, regular}
use cpplinq.Agree.Visit.{visit-Agrees, visit_select-Agrees, direction_text-quiet}
use cpplinq.Agree.Requests.{all_of, regular_option, regular_cte, regular_order}
use cpplinq.Agree.Follow.{Follows, follow_quiet, follow_text, follow}

order_filler-quiet : (l o : Option ℕ) (tail : Text) → quiet (order_filler l o tail) ≡ true
unfolding order_filler
order_filler-quiet l o tail = ground arith

pub set_op_text-quiet : (o : SetOpType) → quiet (set_op_text o ++ codes "SELECT ") ≡ true
unfolding set_op_text
set_op_text-quiet union = refl
set_op_text-quiet union_all = refl
set_op_text-quiet _ = refl

module _ (r : Relation) (d d' : Dialect) (agree : Agree r d d') where
  open agree use {quote_id_rel}

  pub visit_follow : (e : ExprNode) → regular e ≡ true → Follows r (visit d e) (visit d' e)
  visit_follow e h = (bound e, visit-Agrees r d d' agree e h)

  pub write_clause_follow :
      (keyword : Text) (o : Option ExprNode)
      → quiet keyword ≡ true
      → regular_option o ≡ true
      → Follows r (write_clause d keyword o) (write_clause d' keyword o)
  unfolding write_clause
  write_clause_follow keyword none q h = follow_quiet r _ refl
  write_clause_follow keyword (some e) q h = follow r (follow_quiet r keyword q) (visit_follow e h)

  nodes_follow :
      (es : List ExprNode)
      → all_of regular es ≡ true
      → Follows r (write_nodes_rest d es) (write_nodes_rest d' es)
  unfolding write_nodes_rest all_of
  nodes_follow [] h = follow_quiet r _ refl
  nodes_follow (e ∷ es) h =
      follow r (follow_quiet r _ refl)
        (follow r (visit_follow e (&&-left _ _ h)) (nodes_follow es (&&-right _ _ h)))

  pub group_by_follow :
      (es : List ExprNode)
      → all_of regular es ≡ true
      → Follows r (write_group_by d es) (write_group_by d' es)
  unfolding write_group_by all_of
  group_by_follow [] h = follow_quiet r _ refl
  group_by_follow (e ∷ es) h =
      follow r (follow_quiet r _ refl)
        (follow r (visit_follow e (&&-left _ _ h)) (nodes_follow es (&&-right _ _ h)))

  -- `show` is `visit`, or what set operations use in its place.
  module _ (show show' : ExprNode → Writer)
      (shown : (e : ExprNode) → regular e ≡ true → Follows r (show e) (show' e)) where
    orders_follow :
        (os : List (ExprNode × SortDir))
        → all_of regular_order os ≡ true
        → Follows r (write_orders_rest show os) (write_orders_rest show' os)
    unfolding write_orders_rest all_of
    orders_follow [] h = follow_quiet r _ refl
    orders_follow ((e, direction) ∷ os) h = follow r (follow_quiet r _ refl) (
        follow r (shown e (&&-left _ _ h)) (
          follow r (follow_quiet r _ (direction_text-quiet direction))
            (orders_follow os (&&-right _ _ h))))

    pub order_by_follow :
        (os : List (ExprNode × SortDir)) (l o : Option ℕ) (tail : Text)
        → all_of regular_order os ≡ true
        → Follows r (write_order_by show os l o tail) (write_order_by show' os l o tail)
    unfolding write_order_by all_of
    order_by_follow [] l o tail h = follow_quiet r _ (order_filler-quiet l o tail)
    order_by_follow ((e, direction) ∷ os) l o tail h = follow r (follow_quiet r _ refl) (
        follow r (shown e (&&-left _ _ h)) (
          follow r (follow_quiet r _ (direction_text-quiet direction))
            (orders_follow os (&&-right _ _ h))))

  cte_follow : (c : CteClause) → regular_cte c ≡ true → Follows r (write_cte d c) (write_cte d' c)
  unfolding write_cte
  cte_follow c h =
      follow r (follow_text r (λ i. behind r (codes " AS (SELECT ") refl (quote_id_rel i c.name)))
        (follow r (_, visit_select-Agrees r d d' agree c.subquery h) (follow_quiet r _ refl))

  ctes_follow :
      (cs : List CteClause)
      → all_of regular_cte cs ≡ true
      → Follows r (write_ctes_rest d cs) (write_ctes_rest d' cs)
  unfolding write_ctes_rest all_of
  ctes_follow [] h = follow_quiet r _ refl
  ctes_follow (c ∷ cs) h =
      follow r (follow_quiet r _ refl)
        (follow r (cte_follow c (&&-left _ _ h)) (ctes_follow cs (&&-right _ _ h)))

  pub with_follow :
      (cs : List CteClause)
      → all_of regular_cte cs ≡ true
      → Follows r (write_with d cs) (write_with d' cs)
  unfolding write_with all_of
  with_follow [] h = follow_quiet r _ refl
  with_follow (c ∷ cs) h = follow r (follow_quiet r _ refl) (
      follow r (cte_follow c (&&-left _ _ h))
        (follow r (ctes_follow cs (&&-right _ _ h)) (follow_quiet r _ refl)))

  pub prefix_follow :
      (l o : Option ℕ)
      → Follows r
          (write (d.select_prefix_limit_offset l o))
          (write (d'.select_prefix_limit_offset l o))
  prefix_follow l o = rw (← agree.prefix_same l o) (follow_quiet r _ (agree.prefix_quiet l o))

  pub select_text_follow :
      (table_name : Text) (columns : List Text) (is_distinct : Bool)
      → Follows r
          (write (select_text d (codes "*") table_name columns is_distinct))
          (write (select_text d' (codes "*") table_name columns is_distinct))
  select_text_follow table_name columns is_distinct =
      follow_text r (select_text_rel r d d' agree (codes "*") table_name columns is_distinct refl)
