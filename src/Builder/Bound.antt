-- ===== src/Builder/Bound.antt =====
-- Queries built of regular expressions make regular requests.
use cpplinq.Common.{
  List, [], ◌∷◌, ◌++◌, Bool, true, false, ◌&&◌, Option, none, some, is_empty, if◌then◌else◌, ok,
  length, ◌+◌, ◌≡◌, refl, ◌∙◌, arith,
}
use cpplinq.Expr.{ExprNode, SortDir}
use cpplinq.Generator.State.{GeneratedSql}
use cpplinq.Generator.Request.{Request, generate}
use cpplinq.Table.{TableDef}
use cpplinq.Agree.Regular.{regular, regular_select}
use cpplinq.Agree.Requests.{
  all_of, regular_option, regular_order, regular_cte, regular_query, regular_request,
}
use cpplinq.Builder.{
  QueryBuilder, from, and_where, distinct, add_where, order_by, order_by_desc, then_by,
  then_by_desc, group_by, having, with_cte, set_limit, set_offset, select_query, select_request,
}
use cpplinq.Placeholders.{Database, dialect_of, style_of, count_placeholders}
use cpplinq.Session.{Driver}
use cpplinq.Builder.Terminals.{open_reader}
use cpplinq.Builder.Terminals.Executed.{RunsOne, execution_of, dynamic_slots, run-placeholders}
use cpplinq.Builder.Steps.{Step, apply_step, build}

unfoldable pub regular_step : Step → Bool
unfolding all_of
regular_step (Step.call_where e) = regular e
regular_step (Step.call_order_by e dir) = regular e
regular_step (Step.call_then_by e dir) = regular e
regular_step (Step.call_order_by_desc e) = regular e
regular_step (Step.call_then_by_desc e) = regular e
regular_step (Step.call_group_by es) = all_of regular es
regular_step (Step.call_having e) = regular e
regular_step (Step.call_with_cte name sub) = regular_select sub
regular_step _ = true

all_of-append :
    {A : Type 0} (p : A → Bool) (xs ys : List A)
    → all_of p (xs ++ ys) ≡ (all_of p xs && all_of p ys)
unfolding all_of
all_of-append p [] ys = refl
all_of-append p (x ∷ xs) ys = ground (arith, all_of-append p xs ys)

and_where-regular :
    (o : Option ExprNode) (e : ExprNode)
    → regular_option o ≡ true
    → regular e ≡ true
    → regular_option (and_where o e) ≡ true
unfolding and_where regular
and_where-regular none e h k = k
and_where-regular (some c) e h k = ground (arith, h, k)

module _ {ℓ} {E : Type ℓ} where
  -- The regularity of each clause.
  record IsRegular (q : QueryBuilder E) : Type ℓ where
    where_regular : regular_option q.condition ≡ true
    order_regular : all_of regular_order q.order_clauses ≡ true
    group_regular : all_of regular q.group_by_clauses ≡ true
    having_regular : regular_option q.having_clause ≡ true
    ctes_regular : all_of regular_cte q.ctes ≡ true

  apply_step-IsRegular :
      (st : Step) (q : QueryBuilder E)
      → IsRegular q
      → regular_step st ≡ true
      → IsRegular (apply_step st q)
  unfolding apply_step regular_step all_of distinct add_where order_by order_by_desc then_by
      then_by_desc group_by having with_cte set_limit set_offset
  apply_step-IsRegular Step.call_distinct q h k = record {
    where_regular = h.where_regular;
    order_regular = h.order_regular;
    group_regular = h.group_regular;
    having_regular = h.having_regular;
    ctes_regular = h.ctes_regular;
  }
  apply_step-IsRegular (Step.call_where e) q h k = record {
    where_regular = and_where-regular q.condition e h.where_regular k;
    order_regular = h.order_regular;
    group_regular = h.group_regular;
    having_regular = h.having_regular;
    ctes_regular = h.ctes_regular;
  }
  apply_step-IsRegular (Step.call_order_by e dir) q h k = record {
    where_regular = h.where_regular;
    order_regular = ground (arith, k);
    group_regular = h.group_regular;
    having_regular = h.having_regular;
    ctes_regular = h.ctes_regular;
  }
  apply_step-IsRegular (Step.call_order_by_desc e) q h k = record {
    where_regular = h.where_regular;
    order_regular = ground (arith, k);
    group_regular = h.group_regular;
    having_regular = h.having_regular;
    ctes_regular = h.ctes_regular;
  }
  apply_step-IsRegular (Step.call_then_by e dir) q h k = record {
    where_regular = h.where_regular;
    order_regular =
        all_of-append regular_order q.order_clauses ((e, dir) ∷ [])
        ∙ ground (arith, h.order_regular, k);
    group_regular = h.group_regular;
    having_regular = h.having_regular;
    ctes_regular = h.ctes_regular;
  }
  apply_step-IsRegular (Step.call_then_by_desc e) q h k = record {
    where_regular = h.where_regular;
    order_regular =
        all_of-append regular_order q.order_clauses ((e, SortDir.desc) ∷ [])
        ∙ ground (arith, h.order_regular, k);
    group_regular = h.group_regular;
    having_regular = h.having_regular;
    ctes_regular = h.ctes_regular;
  }
  apply_step-IsRegular (Step.call_group_by es) q h k = record {
    where_regular = h.where_regular;
    order_regular = h.order_regular;
    group_regular =
        all_of-append regular q.group_by_clauses es ∙ ground (arith, h.group_regular, k);
    having_regular = h.having_regular;
    ctes_regular = h.ctes_regular;
  }
  apply_step-IsRegular (Step.call_having e) q h k = record {
    where_regular = h.where_regular;
    order_regular = h.order_regular;
    group_regular = h.group_regular;
    having_regular = k;
    ctes_regular = h.ctes_regular;
  }
  apply_step-IsRegular (Step.call_with_cte name sub) q h k = record {
    where_regular = h.where_regular;
    order_regular = h.order_regular;
    group_regular = h.group_regular;
    having_regular = h.having_regular;
    ctes_regular =
        all_of-append regular_cte q.ctes
          (record { name = name; subquery = sub; is_recursive = false } ∷ [])
        ∙ ground (arith, h.ctes_regular, k);
  }
  apply_step-IsRegular (Step.call_limit n) q h k = record {
    where_regular = h.where_regular;
    order_regular = h.order_regular;
    group_regular = h.group_regular;
    having_regular = h.having_regular;
    ctes_regular = h.ctes_regular;
  }
  apply_step-IsRegular (Step.call_offset n) q h k = record {
    where_regular = h.where_regular;
    order_regular = h.order_regular;
    group_regular = h.group_regular;
    having_regular = h.having_regular;
    ctes_regular = h.ctes_regular;
  }

  build-IsRegular :
      (steps : List Step) (q : QueryBuilder E)
      → IsRegular q
      → all_of regular_step steps ≡ true
      → IsRegular (build q steps)
  unfolding build all_of
  build-IsRegular [] q h k = h
  build-IsRegular (st ∷ steps) q h k =
      build-IsRegular steps (apply_step st q) (apply_step-IsRegular st q h (ground (arith, k)))
        (ground (arith, k))

  regular-request : (q : QueryBuilder E) → IsRegular q → regular_request (select_request q) ≡ true
  unfolding select_request regular_request regular_query select_query
  regular-request q h = go (is_empty q.ctes)
    where
      go :
          (b : Bool)
          → regular_request (
              if b
              then Request.plain_select (select_query q)
              else Request.cte_select (select_query q))
            ≡ true
      go true = ground (
        arith, h.where_regular, h.order_regular, h.group_regular, h.having_regular, h.ctes_regular,
      )
      go false = ground (
        arith, h.where_regular, h.order_regular, h.group_regular, h.having_regular, h.ctes_regular,
      )

  from-IsRegular : (table : TableDef E) → IsRegular (from table)
  unfolding from all_of
  from-IsRegular table = record {
    where_regular = refl;
    order_regular = refl;
    group_regular = refl;
    having_regular = refl;
    ctes_regular = refl;
  }

  -- For every table, every sequence of calls with regular expressions on the query of that table,
  -- each of the six dialects, the statement that to_list makes of it, and every driver, from a state
  -- outside of transactions: if running the statement returns, directly or prepared, the database
  -- has executed it once with its parameters, and if it throws, nothing more than before; and the
  -- statement shows one placeholder for each of these parameters and for each dynamic slot.
  pub build-placeholders :
      (driver : Driver) (db : Database) (table : TableDef E) (steps : List Step) (g : GeneratedSql)
      → all_of regular_step steps ≡ true
      → generate (dialect_of db) (select_request (build (from table) steps)) ≡ ok g
      → RunsOne (execution_of g) (open_reader driver g)
        × (count_placeholders (style_of db) g.sql
            ≡ length g.params + length (dynamic_slots g.slots))
  build-placeholders driver db table steps g h e =
      let q = build (from table) steps in
      let run =
        run-placeholders driver db (select_request q) g
          (regular-request q (build-IsRegular steps (from table) (from-IsRegular table) h)) e in
      (run.0, run.2)
