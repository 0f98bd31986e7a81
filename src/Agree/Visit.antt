-- ===== src/Agree/Visit.antt =====
-- The two runs of SqlGenerator::visit, on a regular expression.
use cpplinq.Common.{
  ℕ, ◌+◌, Bool, true, false, ◌≡◌, refl, arith, &&-left, &&-right, ◌==◌, if◌then◌else◌,
}
use cpplinq.Text.{Text, codes, quiet}
use cpplinq.Expr.{
  CompareOp, eq, ne, LogicOp, and, or, UnaryOp, not_op, is_null, is_not_null, SortDir, asc, desc,
  WindowFunctionType, row_number, rank, dense_rank, sum, avg, min_of, max_of, count_of, ExprNode,
  column_ref, literal, param_placeholder, binary, logic, unary, between, like, in_list, function,
  subquery, exists, in_subquery, extract, date_add, window, current_timestamp, current_date,
  null_node, Exprs, nil, cons, MaybeExpr, absent, present, Orders, no_orders, order, SubqueryExpr,
  select_from,
}
use cpplinq.Dialect.Quote.{Dialect}
use cpplinq.Generator.State.{Writer, write, ◌<>◌, replace_by}
use cpplinq.Generator.Visit.{
  compare_text, logic_text, direction_text, unary_text, window_text, missing_argument,
  partition_gap, visit, visit_all, visit_more, visit_in, visit_argument, visit_where, visit_select,
  visit_partition, visit_orders, visit_more_orders,
}
use cpplinq.Agree.Relation.{Relation, Agree}
use cpplinq.Agree.Regular.{
  argument_count, bound, bound_all, bound_maybe, bound_select, bound_orders, has_room, regular,
  regular_all, regular_maybe, regular_select, regular_orders,
}
use cpplinq.Agree.Texts.{column_text_rel, select_text_rel}
use cpplinq.Agree.Writer.{
  Agrees, write_rel, write-quiet, choose_quiet, <>_rel, wrap_rel, wrap_two_rel, replace_by_rel,
  bind_value_rel, bind_dynamic_rel, count_as,
}

compare_text-quiet : (op : CompareOp) → quiet (compare_text op) ≡ true
unfolding compare_text
compare_text-quiet eq = refl
compare_text-quiet ne = refl
compare_text-quiet _ = refl

logic_text-quiet : (op : LogicOp) → quiet (logic_text op) ≡ true
unfolding logic_text
logic_text-quiet and = refl
logic_text-quiet or = refl

pub direction_text-quiet : (direction : SortDir) → quiet (direction_text direction) ≡ true
unfolding direction_text
direction_text-quiet asc = refl
direction_text-quiet desc = refl

missing_argument-quiet : (f : WindowFunctionType) → quiet (missing_argument f) ≡ true
unfolding missing_argument
missing_argument-quiet count_of = refl
missing_argument-quiet _ = refl

partition_gap-quiet : (es : Exprs) (os : Orders) → quiet (partition_gap es os) ≡ true
unfolding partition_gap
partition_gap-quiet nil os = refl
partition_gap-quiet (cons e es) no_orders = refl
partition_gap-quiet (cons e es) (order o dir os) = refl

module _ (r : Relation) where
  -- Pieces around a part that is related.
  pub around :
      {n : ℕ} {a a' : Writer} (s t : Text)
      → quiet s ≡ true
      → quiet t ≡ true
      → Agrees r n a a'
      → Agrees r n (write s <> a <> write t) (write s <> a' <> write t)
  around s t p q h =
      count_as r (omega arith) (<>_rel r (write-quiet r s p) (<>_rel r h (write-quiet r t q)))

  pub then_quiet :
      {n : ℕ} {a a' : Writer} (t : Text)
      → quiet t ≡ true
      → Agrees r n a a'
      → Agrees r n (a <> write t) (a' <> write t)
  then_quiet t q h = count_as r (omega arith) (<>_rel r h (write-quiet r t q))

  -- A quiet text first.
  pub after :
      {n : ℕ} {a a' : Writer} (s : Text)
      → quiet s ≡ true
      → Agrees r n a a'
      → Agrees r n (write s <> a) (write s <> a')
  after s q h = count_as r (omega arith) (<>_rel r (write-quiet r s q) h)

  pub after_choice :
      {n : ℕ} {a a' : Writer} (b : Bool) (s t : Text)
      → quiet s ≡ true
      → quiet t ≡ true
      → Agrees r n a a'
      → Agrees r n (write (if b then s else t) <> a) (write (if b then s else t) <> a')
  after_choice b s t p q h = count_as r (omega arith) (<>_rel r (choose_quiet r b s t p q) h)

  unary_text_rel :
      {n : ℕ} {a a' : Writer} (op : UnaryOp)
      → Agrees r n a a'
      → Agrees r n (unary_text op a) (unary_text op a')
  unfolding unary_text
  unary_text_rel not_op h = around (codes "NOT (") (codes ")") refl refl h
  unary_text_rel is_null h = then_quiet (codes " IS NULL") refl h
  unary_text_rel is_not_null h = then_quiet (codes " IS NOT NULL") refl h

  window_text_rel :
      {n : ℕ} {a a' : Writer} (f : WindowFunctionType)
      → Agrees r n a a'
      → Agrees r (argument_count f n) (window_text f a) (window_text f a')
  unfolding window_text argument_count
  window_text_rel row_number h = write-quiet r _ refl
  window_text_rel rank h = write-quiet r _ refl
  window_text_rel dense_rank h = write-quiet r _ refl
  window_text_rel sum h = around (codes "SUM(") (codes ")") refl refl h
  window_text_rel avg h = around (codes "AVG(") (codes ")") refl refl h
  window_text_rel min_of h = around (codes "MIN(") (codes ")") refl refl h
  window_text_rel max_of h = around (codes "MAX(") (codes ")") refl refl h
  window_text_rel count_of h = around (codes "COUNT(") (codes ")") refl refl h

empty_in_rel :
    (r : Relation) (is_not : Bool) (a a' : Writer)
    → Agrees r 0 a a'
    → Agrees r 0
        (replace_by (if is_not then codes "(1 = 1)" else codes "(1 = 0)") a)
        (replace_by (if is_not then codes "(1 = 1)" else codes "(1 = 0)") a')
empty_in_rel r true a a' g = replace_by_rel r (codes "(1 = 1)") a a' refl g
empty_in_rel r false a a' g = replace_by_rel r (codes "(1 = 0)") a a' refl g

zero_of : (n : ℕ) → (n == 0) ≡ true → n ≡ 0
zero_of n h = ground arith

module _ (r : Relation) (d d' : Dialect) (agree : Agree r d d') where
  mutual
    unfolding visit regular bound has_room

    visit_rel : (e : ExprNode) → regular e ≡ true → Agrees r (bound e) (visit d e) (visit d' e)
    visit_rel (column_ref table_name column_name) h =
        write_rel r _ _ (λ i. column_text_rel r d d' agree i table_name column_name)
    visit_rel (literal value) h = bind_value_rel r _ _ _ agree.placeholder_rel
    visit_rel (param_placeholder index) h = bind_dynamic_rel r _ _ index agree.placeholder_rel
    visit_rel (binary left op right) h = after r (codes "(") refl (
        <>_rel r (visit_rel left (&&-left _ _ h)) (
          after r _ (compare_text-quiet op)
            (then_quiet r (codes ")") refl (visit_rel right (&&-right _ _ h)))))
    visit_rel (logic left op right) h = after r (codes "(") refl (
        <>_rel r (visit_rel left (&&-left _ _ h)) (
          after r _ (logic_text-quiet op)
            (then_quiet r (codes ")") refl (visit_rel right (&&-right _ _ h)))))
    visit_rel (unary op operand) h = unary_text_rel r op (visit_rel operand h)
    visit_rel (between e low high is_not) h = after r (codes "(") refl (
        <>_rel r (visit_rel e (&&-left _ _ h)) (
          after_choice r is_not (codes " NOT BETWEEN ") (codes " BETWEEN ") refl refl (
            <>_rel r (visit_rel low (&&-left _ _ (&&-right _ _ h))) (
              after r (codes " AND ") refl
                (then_quiet r (codes ")") refl (visit_rel high (&&-right _ _ (&&-right _ _ h))))))))
    visit_rel (like e pattern_node is_not) h = after r (codes "(") refl (
        <>_rel r (visit_rel e (&&-left _ _ h)) (
          after_choice r is_not (codes " NOT LIKE ") (codes " LIKE ") refl refl
            (then_quiet r (codes ")") refl (visit_rel pattern_node (&&-right _ _ h)))))
    visit_rel (in_list e values is_not) h =
        visit_in_rel values is_not (bound e) (visit d e) (visit d' e) (&&-left _ _ h)
          (visit_rel e (&&-left _ _ (&&-right _ _ h))) (&&-right _ _ (&&-right _ _ h))
    visit_rel (function function_name arguments) h = count_as r (omega arith) (
        <>_rel r (write_rel r _ _ (λ i. agree.function_name_rel i function_name (&&-left _ _ h)))
          (around r (codes "(") (codes ")") refl refl (visit_all_rel arguments (&&-right _ _ h))))
    visit_rel (subquery sub) h =
        around r (codes "(SELECT ") (codes ")") refl refl (visit_select_rel sub (codes "*") refl h)
    visit_rel (exists sub is_not) h =
        after_choice r is_not (codes "NOT EXISTS (SELECT ") (codes "EXISTS (SELECT ") refl refl
          (then_quiet r (codes ")") refl (visit_select_rel sub (codes "1") refl h))
    visit_rel (in_subquery e sub is_not) h = after r (codes "(") refl (
        <>_rel r (visit_rel e (&&-left _ _ h)) (
          after_choice r is_not (codes " NOT IN (SELECT ") (codes " IN (SELECT ") refl refl (
            then_quiet r (codes "))") refl
              (visit_select_rel sub (codes "*") refl (&&-right _ _ h)))))
    visit_rel (extract part e) h =
        wrap_rel r _ _ _ _ _ (λ i j t t'. agree.extract_part_rel i j part t t') (visit_rel e h)
    visit_rel (date_add e days) h =
        wrap_two_rel r _ _ _ _ _ _ _ _ agree.date_add_rel (visit_rel e (&&-left _ _ h))
          (visit_rel days (&&-right _ _ h))
    visit_rel (window func arg partition_clauses order_clauses) h =
        <>_rel r
          (window_text_rel r func
            (visit_argument_rel arg _ (missing_argument-quiet func) (&&-left _ _ h)))
          (after r (codes " OVER (") refl (
            <>_rel r (visit_partition_rel partition_clauses (&&-left _ _ (&&-right _ _ h))) (
              after r _ (partition_gap-quiet partition_clauses order_clauses) (
                then_quiet r (codes ")") refl
                  (visit_orders_rel order_clauses (&&-right _ _ (&&-right _ _ h)))))))
    visit_rel current_timestamp h = write_rel r _ _ agree.current_timestamp_rel
    visit_rel current_date h = write_rel r _ _ agree.current_date_rel
    visit_rel null_node h = write-quiet r _ refl

    visit_all_rel :
        (es : Exprs)
        → regular_all es ≡ true
        → Agrees r (bound_all es) (visit_all d es) (visit_all d' es)
    visit_all_rel nil h = write-quiet r _ refl
    visit_all_rel (cons e es) h =
        <>_rel r (visit_rel e (&&-left _ _ h)) (visit_more_rel es (&&-right _ _ h))

    visit_more_rel :
        (es : Exprs)
        → regular_all es ≡ true
        → Agrees r (bound_all es) (visit_more d es) (visit_more d' es)
    visit_more_rel nil h = write-quiet r _ refl
    visit_more_rel (cons e es) h =
        after r (codes ", ") refl
          (<>_rel r (visit_rel e (&&-left _ _ h)) (visit_more_rel es (&&-right _ _ h)))

    visit_in_rel :
        (values : Exprs) (is_not : Bool) (n : ℕ) (a a' : Writer)
        → has_room values n ≡ true
        → Agrees r n a a'
        → regular_all values ≡ true
        → Agrees r
            (n + bound_all values)
            (visit_in d values a is_not)
            (visit_in d' values a' is_not)
    visit_in_rel nil is_not n a a' room g h =
        count_as r (omega (arith, zero_of n room))
          (empty_in_rel r is_not a a' (count_as r (zero_of n room) g))
    visit_in_rel (cons v vs) is_not n a a' room g h = after r (codes "(") refl (
        <>_rel r g (
          after_choice r is_not (codes " NOT IN (") (codes " IN (") refl refl (
            <>_rel r (visit_rel v (&&-left _ _ h))
              (then_quiet r (codes "))") refl (visit_more_rel vs (&&-right _ _ h))))))

    visit_argument_rel :
        (m : MaybeExpr) (otherwise : Text)
        → quiet otherwise ≡ true
        → regular_maybe m ≡ true
        → Agrees r (bound_maybe m) (visit_argument d m otherwise) (visit_argument d' m otherwise)
    visit_argument_rel absent otherwise q h = write-quiet r otherwise q
    visit_argument_rel (present e) otherwise q h = visit_rel e h

    visit_where_rel :
        (m : MaybeExpr)
        → regular_maybe m ≡ true
        → Agrees r (bound_maybe m) (visit_where d m) (visit_where d' m)
    visit_where_rel absent h = write-quiet r _ refl
    visit_where_rel (present e) h = after r (codes " WHERE ") refl (visit_rel e h)

    visit_select_rel :
        (sub : SubqueryExpr) (star : Text)
        → quiet star ≡ true
        → regular_select sub ≡ true
        → Agrees r (bound_select sub) (visit_select d sub star) (visit_select d' sub star)
    visit_select_rel (select_from table_name select_columns condition is_distinct) star q h =
        count_as r (omega arith) (
          <>_rel r
            (write_rel r _ _
              (select_text_rel r d d' agree star table_name select_columns is_distinct q))
            (visit_where_rel condition h))

    visit_partition_rel :
        (es : Exprs)
        → regular_all es ≡ true
        → Agrees r (bound_all es) (visit_partition d es) (visit_partition d' es)
    visit_partition_rel nil h = write-quiet r _ refl
    visit_partition_rel (cons e es) h =
        after r (codes "PARTITION BY ") refl
          (<>_rel r (visit_rel e (&&-left _ _ h)) (visit_more_rel es (&&-right _ _ h)))

    visit_orders_rel :
        (os : Orders)
        → regular_orders os ≡ true
        → Agrees r (bound_orders os) (visit_orders d os) (visit_orders d' os)
    visit_orders_rel no_orders h = write-quiet r _ refl
    visit_orders_rel (order e direction os) h = after r (codes "ORDER BY ") refl (
        <>_rel r (visit_rel e (&&-left _ _ h))
          (after r _ (direction_text-quiet direction) (visit_more_orders_rel os (&&-right _ _ h))))

    visit_more_orders_rel :
        (os : Orders)
        → regular_orders os ≡ true
        → Agrees r (bound_orders os) (visit_more_orders d os) (visit_more_orders d' os)
    visit_more_orders_rel no_orders h = write-quiet r _ refl
    visit_more_orders_rel (order e direction os) h = after r (codes ", ") refl (
        <>_rel r (visit_rel e (&&-left _ _ h))
          (after r _ (direction_text-quiet direction) (visit_more_orders_rel os (&&-right _ _ h))))

  -- Run with two dialects that keep the relation, `visit` writes related texts and binds the same
  -- parameters, one for each literal and placeholder of the expression.
  pub visit-Agrees : (e : ExprNode) → regular e ≡ true → Agrees r (bound e) (visit d e) (visit d' e)
  visit-Agrees e h = visit_rel e h

  pub visit_select-Agrees :
      (sub : SubqueryExpr)
      → regular_select sub ≡ true
      → Agrees r
          (bound_select sub)
          (visit_select d sub (codes "*"))
          (visit_select d' sub (codes "*"))
  visit_select-Agrees sub h = visit_select_rel sub (codes "*") refl h
