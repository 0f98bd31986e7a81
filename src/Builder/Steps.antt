-- ===== src/Builder/Steps.antt =====
-- The calls that build a query, one after the other.
use cpplinq.Common.{ℕ, List, [], ◌∷◌, ◌++◌, ◌≡◌, refl}
use cpplinq.Text.{Text}
use cpplinq.Expr.{ExprNode, SortDir, SubqueryExpr}
use cpplinq.Builder.{
  QueryBuilder, distinct, add_where, order_by, order_by_desc, then_by, then_by_desc, group_by,
  having, with_cte, set_limit, set_offset,
}

pub data Step : Type 0 where
  call_distinct : Step
  call_where : ExprNode → Step
  call_order_by call_then_by : ExprNode → SortDir → Step
  call_order_by_desc call_then_by_desc : ExprNode → Step
  call_group_by : List ExprNode → Step
  call_having : ExprNode → Step
  call_with_cte : Text → SubqueryExpr → Step
  call_limit call_offset : ℕ → Step

module _ {ℓ} {E : Type ℓ} where
  unfoldable pub apply_step : Step → QueryBuilder E → QueryBuilder E
  unfolding distinct add_where order_by order_by_desc then_by then_by_desc group_by having with_cte
      set_limit set_offset
  apply_step Step.call_distinct q = distinct q
  apply_step (Step.call_where e) q = add_where e q
  apply_step (Step.call_order_by e dir) q = order_by e dir q
  apply_step (Step.call_then_by e dir) q = then_by e dir q
  apply_step (Step.call_order_by_desc e) q = order_by_desc e q
  apply_step (Step.call_then_by_desc e) q = then_by_desc e q
  apply_step (Step.call_group_by es) q = group_by es q
  apply_step (Step.call_having e) q = having e q
  apply_step (Step.call_with_cte name sub) q = with_cte name sub q
  apply_step (Step.call_limit n) q = set_limit n q
  apply_step (Step.call_offset n) q = set_offset n q

  unfoldable pub build : QueryBuilder E → List Step → QueryBuilder E
  unfolding apply_step
  build q [] = q
  build q (st ∷ steps) = build (apply_step st q) steps

  pub build-append :
      (q : QueryBuilder E) (before after : List Step)
      → build q (before ++ after) ≡ build (build q before) after
  unfolding build
  build-append q [] after = refl
  build-append q (st ∷ before) after = build-append (apply_step st q) before after
