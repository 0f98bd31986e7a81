-- ===== src/Expr/Functions/Count.antt =====
-- How many parameters the functions bind.
use cpplinq.Common.{
  ℕ, suc, ◌+◌, ◌≡◌, refl, ap, ◌∙◌, arith, Option, none, some, List, [], ◌∷◌, length,
}
use cpplinq.Value.{SqlValue}
use cpplinq.Expr.{ExprNode, SortDir, SubqueryExpr}
use cpplinq.Expr.Functions.{
  current_timestamp_val, current_date_val, window, maybe_node, nodes, orders, column, value,
  optional_value, param, is_null, is_not_null, between, not_between, like, not_like, lower, upper,
  length_of, trim, abs_val, substr, round_val, coalesce, year_of, month_of, day_of, add_days, equal,
  not_equal, less, less_equal, greater, greater_equal, both, either, negated, in_list, not_in_list,
  literals, in_subquery, not_in_subquery, exists, not_exists,
}
use cpplinq.Expr.Functions.Made.{
  Made, MadeArgument, MadeAll, MadeOrders, Selecting, Made-regular, Made-count_placeholders,
}
use cpplinq.Generator.State.{finish, initial}
use cpplinq.Generator.Select.{generate_expression}
use cpplinq.Agree.Regular.{
  argument_count, bound, bound_all, bound_maybe, bound_select, bound_orders,
}
use cpplinq.Agree.Visit.{visit-Agrees}
use cpplinq.Placeholders.Rules.{question_mark-Agree}
use cpplinq.Placeholders.{Database, dialect_of, style_of, count_placeholders}

-- The values and parameters that the calls are given. ROW_NUMBER, RANK and DENSE_RANK drop their
-- argument.
unfoldable mutual
  pub given : {e : ExprNode} → Made e → ℕ
  given (Made.a_column h) = 0
  given (Made.a_value v) = 1
  given (Made.an_optional none) = 1
  given (Made.an_optional (some v)) = 1
  given (Made.a_param index) = 1
  given (Made.by_is_null h) = given h
  given (Made.by_is_not_null h) = given h
  given (Made.by_between h k l) = given h + given k + given l
  given (Made.by_not_between h k l) = given h + given k + given l
  given (Made.by_like h k) = given h + given k
  given (Made.by_not_like h k) = given h + given k
  given (Made.by_lower h) = given h
  given (Made.by_upper h) = given h
  given (Made.by_length_of h) = given h
  given (Made.by_trim h) = given h
  given (Made.by_abs_val h) = given h
  given (Made.by_substr h k l) = given h + given k + given l
  given (Made.by_round_val h k) = given h + given k
  given (Made.by_coalesce h k) = given h + given k
  given (Made.by_year_of h) = given h
  given (Made.by_month_of h) = given h
  given (Made.by_day_of h) = given h
  given (Made.by_add_days h k) = given h + given k
  given (Made.by_equal h k) = given h + given k
  given (Made.by_not_equal h k) = given h + given k
  given (Made.by_less h k) = given h + given k
  given (Made.by_less_equal h k) = given h + given k
  given (Made.by_greater h k) = given h + given k
  given (Made.by_greater_equal h k) = given h + given k
  given (Made.by_both h k) = given h + given k
  given (Made.by_either h k) = given h + given k
  given (Made.by_negated h) = given h
  given (Made.by_in_list v vs h) = given h + suc (length vs)
  given (Made.by_not_in_list v vs h) = given h + suc (length vs)
  given (Made.by_in_subquery h s) = given h + given_rows s
  given (Made.by_not_in_subquery h s) = given h + given_rows s
  given (Made.by_exists s) = given_rows s
  given (Made.by_not_exists s) = given_rows s
  given Made.a_timestamp = 0
  given Made.a_date = 0
  given (Made.a_window w a p o) =
      argument_count w.func (given_argument a) + (given_all p + given_orders o)

  pub given_argument : {o : Option ExprNode} → MadeArgument o → ℕ
  given_argument MadeArgument.no_argument = 0
  given_argument (MadeArgument.an_argument h) = given h

  pub given_all : {es : List ExprNode} → MadeAll es → ℕ
  given_all MadeAll.none_made = 0
  given_all (MadeAll.one_more h hs) = given h + given_all hs

  pub given_orders : {os : List (ExprNode × SortDir)} → MadeOrders os → ℕ
  given_orders MadeOrders.unordered = 0
  given_orders (MadeOrders.ordered_by h hs) = given h + given_orders hs

  pub given_rows : {sub : SubqueryExpr} → Selecting sub → ℕ
  given_rows (Selecting.all_rows table_name columns is_distinct) = 0
  given_rows (Selecting.rows_where table_name columns is_distinct h) = given h

bound-literals : (vs : List SqlValue) → bound_all (literals vs) ≡ length vs
unfolding literals bound
bound-literals [] = refl
bound-literals (v ∷ vs) = omega (arith, bound-literals vs)

mutual
  unfolding given bound window current_timestamp_val current_date_val column value optional_value
      param is_null is_not_null between not_between like not_like lower upper length_of trim abs_val
      substr round_val coalesce year_of month_of day_of add_days equal not_equal less less_equal
      greater greater_equal both either negated in_list not_in_list in_subquery not_in_subquery
      exists not_exists

  bound_given : {e : ExprNode} (h : Made e) → bound e ≡ given h
  bound_given (Made.a_column h) = refl
  bound_given (Made.a_value v) = refl
  bound_given (Made.an_optional none) = refl
  bound_given (Made.an_optional (some v)) = refl
  bound_given (Made.a_param index) = refl
  bound_given (Made.by_is_null h) = omega (arith, bound_given h)
  bound_given (Made.by_is_not_null h) = omega (arith, bound_given h)
  bound_given (Made.by_between h k l) = omega (arith, bound_given h, bound_given k, bound_given l)
  bound_given (Made.by_not_between h k l) =
      omega (arith, bound_given h, bound_given k, bound_given l)
  bound_given (Made.by_like h k) = omega (arith, bound_given h, bound_given k)
  bound_given (Made.by_not_like h k) = omega (arith, bound_given h, bound_given k)
  bound_given (Made.by_lower h) = omega (arith, bound_given h)
  bound_given (Made.by_upper h) = omega (arith, bound_given h)
  bound_given (Made.by_length_of h) = omega (arith, bound_given h)
  bound_given (Made.by_trim h) = omega (arith, bound_given h)
  bound_given (Made.by_abs_val h) = omega (arith, bound_given h)
  bound_given (Made.by_substr h k l) = omega (arith, bound_given h, bound_given k, bound_given l)
  bound_given (Made.by_round_val h k) = omega (arith, bound_given h, bound_given k)
  bound_given (Made.by_coalesce h k) = omega (arith, bound_given h, bound_given k)
  bound_given (Made.by_year_of h) = omega (arith, bound_given h)
  bound_given (Made.by_month_of h) = omega (arith, bound_given h)
  bound_given (Made.by_day_of h) = omega (arith, bound_given h)
  bound_given (Made.by_add_days h k) = omega (arith, bound_given h, bound_given k)
  bound_given (Made.by_equal h k) = omega (arith, bound_given h, bound_given k)
  bound_given (Made.by_not_equal h k) = omega (arith, bound_given h, bound_given k)
  bound_given (Made.by_less h k) = omega (arith, bound_given h, bound_given k)
  bound_given (Made.by_less_equal h k) = omega (arith, bound_given h, bound_given k)
  bound_given (Made.by_greater h k) = omega (arith, bound_given h, bound_given k)
  bound_given (Made.by_greater_equal h k) = omega (arith, bound_given h, bound_given k)
  bound_given (Made.by_both h k) = omega (arith, bound_given h, bound_given k)
  bound_given (Made.by_either h k) = omega (arith, bound_given h, bound_given k)
  bound_given (Made.by_negated h) = omega (arith, bound_given h)
  bound_given (Made.by_in_list v vs h) = omega (arith, bound_given h, bound-literals vs)
  bound_given (Made.by_not_in_list v vs h) = omega (arith, bound_given h, bound-literals vs)
  bound_given (Made.by_in_subquery h s) = omega (arith, bound_given h, bound_rows s)
  bound_given (Made.by_not_in_subquery h s) = omega (arith, bound_given h, bound_rows s)
  bound_given (Made.by_exists s) = omega (arith, bound_rows s)
  bound_given (Made.by_not_exists s) = omega (arith, bound_rows s)
  bound_given Made.a_timestamp = refl
  bound_given Made.a_date = refl
  bound_given (Made.a_window w a p o) =
      ap
        (λ n.
          argument_count w.func n
          + (bound_all (nodes w.partition_clauses) + bound_orders (orders w.order_clauses)))
        (bound_argument a)
      ∙ omega (arith, bound_argument a, bound_all_given p, bound_orders_given o)

  bound_argument :
      {o : Option ExprNode} (h : MadeArgument o) → bound_maybe (maybe_node o) ≡ given_argument h
  bound_argument MadeArgument.no_argument = refl
  bound_argument (MadeArgument.an_argument h) = omega (arith, bound_given h)

  bound_all_given : {es : List ExprNode} (h : MadeAll es) → bound_all (nodes es) ≡ given_all h
  bound_all_given MadeAll.none_made = refl
  bound_all_given (MadeAll.one_more h hs) = omega (arith, bound_given h, bound_all_given hs)

  bound_orders_given :
      {os : List (ExprNode × SortDir)} (h : MadeOrders os)
      → bound_orders (orders os) ≡ given_orders h
  bound_orders_given MadeOrders.unordered = refl
  bound_orders_given (MadeOrders.ordered_by h hs) =
      omega (arith, bound_given h, bound_orders_given hs)

  bound_rows : {sub : SubqueryExpr} (h : Selecting sub) → bound_select sub ≡ given_rows h
  bound_rows (Selecting.all_rows table_name columns is_distinct) = refl
  bound_rows (Selecting.rows_where table_name columns is_distinct h) = omega (arith, bound_given h)

slots-given :
    (db : Database) {e : ExprNode} (h : Made e)
    → length (generate_expression (dialect_of db) e).slots ≡ given h
unfolding generate_expression finish
slots-given db {e = e} h =
    let run = visit-Agrees _ _ _ (question_mark-Agree db) e (Made-regular h) initial in
    let good = run.good (record { counted = refl; static = refl }) in
    omega (arith, run.bound, good.counted, bound_given h)

-- For each of the six dialects and every expression that is made of columns, values and parameters
-- by the methods, operators and functions of expression.h, with IN lists that are not empty: the
-- text that the generator writes of it shows, outside quotes, one placeholder for each value and
-- each parameter that the calls were given (but for the argument of ROW_NUMBER, RANK and
-- DENSE_RANK), and there are as many slots.
pub generate_expression-given :
    (db : Database) {e : ExprNode} (h : Made e)
    → (count_placeholders (style_of db) (generate_expression (dialect_of db) e).sql ≡ given h)
      × (length (generate_expression (dialect_of db) e).slots ≡ given h)
generate_expression-given db h = (Made-count_placeholders db h ∙ slots-given db h, slots-given db h)
