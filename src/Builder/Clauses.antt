-- ===== src/Builder/Clauses.antt =====
-- What the clauses of a query are, for any sequence of calls.
use cpplinq.Common.{
  List, [], ◌∷◌, ◌++◌, false, Option, none, some, ◌≡◌, refl, ap, sym, ◌∙◌, append_assoc, append-nil,
}
use cpplinq.Expr.{ExprNode, LogicOp, SortDir}
use cpplinq.Generator.Select.{CteClause}
use cpplinq.Builder.{
  QueryBuilder, and_where, distinct, add_where, order_by, order_by_desc, then_by, then_by_desc,
  group_by, having, with_cte, set_limit, set_offset,
}
use cpplinq.Builder.Steps.{Step, apply_step, build, build-append}

-- What the calls of one kind have in common, in order.
abbrev pub conditions : List Step → List ExprNode
conditions [] = []
conditions (Step.call_where e ∷ steps) = e ∷ conditions steps
conditions (_ ∷ steps) = conditions steps

abbrev pub grouping : List Step → List ExprNode
grouping [] = []
grouping (Step.call_group_by es ∷ steps) = es ++ grouping steps
grouping (_ ∷ steps) = grouping steps

abbrev pub table_expressions : List Step → List CteClause
table_expressions [] = []
table_expressions (Step.call_with_cte name sub ∷ steps) =
    record { name = name; subquery = sub; is_recursive = false } ∷ table_expressions steps
table_expressions (_ ∷ steps) = table_expressions steps

abbrev pub tie_breakers : List Step → List (ExprNode × SortDir)
tie_breakers [] = []
tie_breakers (Step.call_then_by e dir ∷ steps) = (e, dir) ∷ tie_breakers steps
tie_breakers (Step.call_then_by_desc e ∷ steps) = (e, SortDir.desc) ∷ tie_breakers steps
tie_breakers (_ ∷ steps) = tie_breakers steps

-- No call of order_by or order_by_desc.
abbrev pub KeepsOrder : List Step → Type 0
KeepsOrder [] = Unit
KeepsOrder (Step.call_order_by e dir ∷ steps) = ⊥
KeepsOrder (Step.call_order_by_desc e ∷ steps) = ⊥
KeepsOrder (_ ∷ steps) = KeepsOrder steps

-- ((e1 AND e2) AND e3) ...
abbrev pub conjunction : Option ExprNode → List ExprNode → Option ExprNode
conjunction o [] = o
conjunction none (e ∷ es) = conjunction (some e) es
conjunction (some c) (e ∷ es) = conjunction (some (ExprNode.logic c LogicOp.and e)) es

and_where-conjunction :
    (o : Option ExprNode) (e : ExprNode) (es : List ExprNode)
    → conjunction (and_where o e) es ≡ conjunction o (e ∷ es)
unfolding and_where
and_where-conjunction none e es = refl
and_where-conjunction (some c) e es = refl

module _ {ℓ} {E : Type ℓ} where
  abbrev pub HasClauses : QueryBuilder E → List Step → QueryBuilder E → Type 0
  HasClauses q steps r =
      (r.table_name ≡ q.table_name)
      × (r.condition ≡ conjunction q.condition (conditions steps))
      × (r.group_by_clauses ≡ q.group_by_clauses ++ grouping steps)
      × (r.ctes ≡ q.ctes ++ table_expressions steps)

  -- For every query and every sequence of calls on it: the table stays, the condition is the
  -- conjunction of those that where was given, from the left, and the grouping and the common table
  -- expressions are those that were given, in order, whatever the other calls are.
  pub build-HasClauses :
      (q : QueryBuilder E) (steps : List Step) → HasClauses q steps (build q steps)
  unfolding build apply_step add_where distinct order_by order_by_desc then_by then_by_desc group_by
      having with_cte set_limit set_offset
  build-HasClauses q [] = (refl, refl, sym (append-nil q.group_by_clauses), sym (append-nil q.ctes))
  build-HasClauses q (Step.call_where e ∷ steps) =
      let later = build-HasClauses (apply_step (Step.call_where e) q) steps in
      (later.0, later.1 ∙ and_where-conjunction q.condition e (conditions steps), later.2, later.3)
  build-HasClauses q (Step.call_group_by es ∷ steps) =
      let later = build-HasClauses (apply_step (Step.call_group_by es) q) steps in
      (later.0, later.1, later.2 ∙ append_assoc q.group_by_clauses es (grouping steps), later.3)
  build-HasClauses q (Step.call_with_cte name sub ∷ steps) =
      let later = build-HasClauses (apply_step (Step.call_with_cte name sub) q) steps in
      (
        later.0,
        later.1,
        later.2,
        later.3
            ∙ append_assoc q.ctes
                (record { name = name; subquery = sub; is_recursive = false } ∷ [])
                (table_expressions steps),
      )
  build-HasClauses q (Step.call_distinct ∷ steps) =
      build-HasClauses (apply_step Step.call_distinct q) steps
  build-HasClauses q (Step.call_order_by e dir ∷ steps) =
      build-HasClauses (apply_step (Step.call_order_by e dir) q) steps
  build-HasClauses q (Step.call_then_by e dir ∷ steps) =
      build-HasClauses (apply_step (Step.call_then_by e dir) q) steps
  build-HasClauses q (Step.call_order_by_desc e ∷ steps) =
      build-HasClauses (apply_step (Step.call_order_by_desc e) q) steps
  build-HasClauses q (Step.call_then_by_desc e ∷ steps) =
      build-HasClauses (apply_step (Step.call_then_by_desc e) q) steps
  build-HasClauses q (Step.call_having e ∷ steps) =
      build-HasClauses (apply_step (Step.call_having e) q) steps
  build-HasClauses q (Step.call_limit n ∷ steps) =
      build-HasClauses (apply_step (Step.call_limit n) q) steps
  build-HasClauses q (Step.call_offset n ∷ steps) =
      build-HasClauses (apply_step (Step.call_offset n) q) steps

  then_by-tie_breakers :
      (q : QueryBuilder E) (steps : List Step)
      → KeepsOrder steps
      → (build q steps).order_clauses ≡ q.order_clauses ++ tie_breakers steps
  unfolding build apply_step add_where distinct order_by order_by_desc then_by then_by_desc group_by
      having with_cte set_limit set_offset
  then_by-tie_breakers q [] k = sym (append-nil q.order_clauses)
  then_by-tie_breakers q (Step.call_order_by e dir ∷ steps) k = absurd k
  then_by-tie_breakers q (Step.call_order_by_desc e ∷ steps) k = absurd k
  then_by-tie_breakers q (Step.call_then_by e dir ∷ steps) k =
      then_by-tie_breakers (apply_step (Step.call_then_by e dir) q) steps k
      ∙ append_assoc q.order_clauses ((e, dir) ∷ []) (tie_breakers steps)
  then_by-tie_breakers q (Step.call_then_by_desc e ∷ steps) k =
      then_by-tie_breakers (apply_step (Step.call_then_by_desc e) q) steps k
      ∙ append_assoc q.order_clauses ((e, SortDir.desc) ∷ []) (tie_breakers steps)
  then_by-tie_breakers q (Step.call_distinct ∷ steps) k =
      then_by-tie_breakers (apply_step Step.call_distinct q) steps k
  then_by-tie_breakers q (Step.call_where e ∷ steps) k =
      then_by-tie_breakers (apply_step (Step.call_where e) q) steps k
  then_by-tie_breakers q (Step.call_group_by es ∷ steps) k =
      then_by-tie_breakers (apply_step (Step.call_group_by es) q) steps k
  then_by-tie_breakers q (Step.call_having e ∷ steps) k =
      then_by-tie_breakers (apply_step (Step.call_having e) q) steps k
  then_by-tie_breakers q (Step.call_with_cte name sub ∷ steps) k =
      then_by-tie_breakers (apply_step (Step.call_with_cte name sub) q) steps k
  then_by-tie_breakers q (Step.call_limit n ∷ steps) k =
      then_by-tie_breakers (apply_step (Step.call_limit n) q) steps k
  then_by-tie_breakers q (Step.call_offset n ∷ steps) k =
      then_by-tie_breakers (apply_step (Step.call_offset n) q) steps k

  -- For every query, any calls, a call of order_by, and then calls without another order_by: the
  -- rows are ordered by its column and then by the columns of the calls of then_by after it, in
  -- order; what was said before does not count.
  pub order_by-tie_breakers :
      (q : QueryBuilder E) (before after : List Step) (e : ExprNode) (dir : SortDir)
      → KeepsOrder after
      → (build q (before ++ Step.call_order_by e dir ∷ after)).order_clauses
        ≡ (e, dir) ∷ tie_breakers after
  unfolding build apply_step order_by
  order_by-tie_breakers q before after e dir k =
      ap (λ r. r.order_clauses) (build-append q before (Step.call_order_by e dir ∷ after))
      ∙ then_by-tie_breakers (order_by e dir (build q before)) after k
