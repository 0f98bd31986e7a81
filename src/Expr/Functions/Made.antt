-- ===== src/Expr/Functions/Made.antt =====
-- The expressions that the functions make are regular.
use cpplinq.Common.{Bool, true, ℕ, List, [], ◌∷◌, Option, none, some, length, ◌≡◌, refl, arith}
use cpplinq.Text.{Text}
use cpplinq.Value.{SqlValue}
use cpplinq.Expr.{ExprNode, SortDir, absent, present, SubqueryExpr, select_from}
use cpplinq.Generator.Select.{generate_expression}
use cpplinq.Generator.Request.{Request, generate}
use cpplinq.Agree.Requests.{regular_request}
use cpplinq.Placeholders.{Database, dialect_of, style_of, count_placeholders}
use cpplinq.Placeholders.Count.{generate-count_placeholders}
use cpplinq.Agree.Regular.{
  regular, has_room, regular_select, regular_all, regular_maybe, regular_orders,
}
use cpplinq.Expr.Functions.{
  current_timestamp_val, current_date_val, window, WindowBuilder, maybe_node, nodes, orders,
  ColumnHandle, column, value, optional_value, param, is_null, is_not_null, between, not_between,
  like, not_like, lower, upper, length_of, trim, abs_val, substr, round_val, coalesce, year_of,
  month_of, day_of, add_days, equal, not_equal, less, less_equal, greater, greater_equal, both,
  either, negated, in_list, not_in_list, literals, in_subquery, not_in_subquery, exists, not_exists,
}

mutual
  -- An expression made of columns, values, parameters and the functions on them; `Selecting` is a
  -- subquery with such a condition.
  pub data Made : ExprNode → Type 0 where
    a_column : (h : ColumnHandle) → Made (column h)
    a_value : (v : SqlValue) → Made (value v)
    an_optional : (o : Option SqlValue) → Made (optional_value o)
    a_param : (index : ℕ) → Made (param index)
    by_is_null : {e : ExprNode} → Made e → Made (is_null e)
    by_is_not_null : {e : ExprNode} → Made e → Made (is_not_null e)
    by_between : {e low high : ExprNode} → Made e → Made low → Made high → Made (between e low high)
    by_not_between :
        {e low high : ExprNode} → Made e → Made low → Made high → Made (not_between e low high)
    by_like : {e pattern_node : ExprNode} → Made e → Made pattern_node → Made (like e pattern_node)
    by_not_like :
        {e pattern_node : ExprNode} → Made e → Made pattern_node → Made (not_like e pattern_node)
    by_lower : {e : ExprNode} → Made e → Made (lower e)
    by_upper : {e : ExprNode} → Made e → Made (upper e)
    by_length_of : {e : ExprNode} → Made e → Made (length_of e)
    by_trim : {e : ExprNode} → Made e → Made (trim e)
    by_abs_val : {e : ExprNode} → Made e → Made (abs_val e)
    by_substr :
        {e start len : ExprNode} → Made e → Made start → Made len → Made (substr e start len)
    by_round_val : {e decimals : ExprNode} → Made e → Made decimals → Made (round_val e decimals)
    by_coalesce : {e fallback : ExprNode} → Made e → Made fallback → Made (coalesce e fallback)
    by_year_of : {e : ExprNode} → Made e → Made (year_of e)
    by_month_of : {e : ExprNode} → Made e → Made (month_of e)
    by_day_of : {e : ExprNode} → Made e → Made (day_of e)
    by_add_days : {e days : ExprNode} → Made e → Made days → Made (add_days e days)
    by_equal : {lhs rhs : ExprNode} → Made lhs → Made rhs → Made (equal lhs rhs)
    by_not_equal : {lhs rhs : ExprNode} → Made lhs → Made rhs → Made (not_equal lhs rhs)
    by_less : {lhs rhs : ExprNode} → Made lhs → Made rhs → Made (less lhs rhs)
    by_less_equal : {lhs rhs : ExprNode} → Made lhs → Made rhs → Made (less_equal lhs rhs)
    by_greater : {lhs rhs : ExprNode} → Made lhs → Made rhs → Made (greater lhs rhs)
    by_greater_equal : {lhs rhs : ExprNode} → Made lhs → Made rhs → Made (greater_equal lhs rhs)
    by_both : {lhs rhs : ExprNode} → Made lhs → Made rhs → Made (both lhs rhs)
    by_either : {lhs rhs : ExprNode} → Made lhs → Made rhs → Made (either lhs rhs)
    by_negated : {operand : ExprNode} → Made operand → Made (negated operand)
    by_in_list :
        {e : ExprNode} (v : SqlValue) (vs : List SqlValue) → Made e → Made (in_list e (v ∷ vs))
    by_not_in_list :
        {e : ExprNode} (v : SqlValue) (vs : List SqlValue) → Made e → Made (not_in_list e (v ∷ vs))
    by_in_subquery :
        {e : ExprNode} {sub : SubqueryExpr} → Made e → Selecting sub → Made (in_subquery e sub)
    by_not_in_subquery :
        {e : ExprNode} {sub : SubqueryExpr} → Made e → Selecting sub → Made (not_in_subquery e sub)
    by_exists : {sub : SubqueryExpr} → Selecting sub → Made (exists sub)
    by_not_exists : {sub : SubqueryExpr} → Selecting sub → Made (not_exists sub)
    a_timestamp : Made current_timestamp_val
    a_date : Made current_date_val
    a_window :
        (w : WindowBuilder)
        → MadeArgument w.arg
        → MadeAll w.partition_clauses
        → MadeOrders w.order_clauses
        → Made (window w)

  pub data MadeArgument : Option ExprNode → Type 0 where
    no_argument : MadeArgument none
    an_argument : {e : ExprNode} → Made e → MadeArgument (some e)

  pub data MadeAll : List ExprNode → Type 0 where
    none_made : MadeAll []
    one_more : {e : ExprNode} {es : List ExprNode} → Made e → MadeAll es → MadeAll (e ∷ es)

  pub data MadeOrders : List (ExprNode × SortDir) → Type 0 where
    unordered : MadeOrders []
    ordered_by :
        {e : ExprNode} {dir : SortDir} {os : List (ExprNode × SortDir)}
        → Made e
        → MadeOrders os
        → MadeOrders ((e, dir) ∷ os)

  pub data Selecting : SubqueryExpr → Type 0 where
    all_rows :
        (table_name : Text) (columns : List Text) (is_distinct : Bool)
        → Selecting (select_from table_name columns absent is_distinct)
    rows_where :
        (table_name : Text) (columns : List Text) (is_distinct : Bool) {e : ExprNode}
        → Made e
        → Selecting (select_from table_name columns (present e) is_distinct)

literals-regular : (vs : List SqlValue) → regular_all (literals vs) ≡ true
unfolding literals regular
literals-regular [] = refl
literals-regular (v ∷ vs) = literals-regular vs

mutual
  unfolding regular regular_select has_room window current_timestamp_val current_date_val column
      value optional_value param is_null is_not_null between not_between like not_like lower upper
      length_of trim abs_val substr round_val coalesce year_of month_of day_of add_days equal
      not_equal less less_equal greater greater_equal both either negated in_list not_in_list
      in_subquery not_in_subquery exists not_exists

  made : {e : ExprNode} → Made e → regular e ≡ true
  made (Made.a_column h) = refl
  made (Made.a_value v) = refl
  made (Made.an_optional none) = refl
  made (Made.an_optional (some v)) = refl
  made (Made.a_param index) = refl
  made (Made.by_is_null h) = made h
  made (Made.by_is_not_null h) = made h
  made (Made.by_between h k l) = ground (arith, made h, made k, made l)
  made (Made.by_not_between h k l) = ground (arith, made h, made k, made l)
  made (Made.by_like h k) = ground (arith, made h, made k)
  made (Made.by_not_like h k) = ground (arith, made h, made k)
  made (Made.by_lower h) = ground (arith, made h)
  made (Made.by_upper h) = ground (arith, made h)
  made (Made.by_length_of h) = ground (arith, made h)
  made (Made.by_trim h) = ground (arith, made h)
  made (Made.by_abs_val h) = ground (arith, made h)
  made (Made.by_substr h k l) = ground (arith, made h, made k, made l)
  made (Made.by_round_val h k) = ground (arith, made h, made k)
  made (Made.by_coalesce h k) = ground (arith, made h, made k)
  made (Made.by_year_of h) = made h
  made (Made.by_month_of h) = made h
  made (Made.by_day_of h) = made h
  made (Made.by_add_days h k) = ground (arith, made h, made k)
  made (Made.by_equal h k) = ground (arith, made h, made k)
  made (Made.by_not_equal h k) = ground (arith, made h, made k)
  made (Made.by_less h k) = ground (arith, made h, made k)
  made (Made.by_less_equal h k) = ground (arith, made h, made k)
  made (Made.by_greater h k) = ground (arith, made h, made k)
  made (Made.by_greater_equal h k) = ground (arith, made h, made k)
  made (Made.by_both h k) = ground (arith, made h, made k)
  made (Made.by_either h k) = ground (arith, made h, made k)
  made (Made.by_negated h) = made h
  made (Made.by_in_list v vs h) = ground (arith, made h, literals-regular vs)
  made (Made.by_not_in_list v vs h) = ground (arith, made h, literals-regular vs)
  made (Made.by_in_subquery h s) = ground (arith, made h, selecting s)
  made (Made.by_not_in_subquery h s) = ground (arith, made h, selecting s)
  made (Made.by_exists s) = selecting s
  made (Made.by_not_exists s) = selecting s
  made Made.a_timestamp = refl
  made Made.a_date = refl
  made (Made.a_window w a p o) = ground (arith, made_argument a, made_all p, made_orders o)

  made_argument : {o : Option ExprNode} → MadeArgument o → regular_maybe (maybe_node o) ≡ true
  made_argument MadeArgument.no_argument = refl
  made_argument (MadeArgument.an_argument h) = made h

  made_all : {es : List ExprNode} → MadeAll es → regular_all (nodes es) ≡ true
  made_all MadeAll.none_made = refl
  made_all (MadeAll.one_more h hs) = ground (arith, made h, made_all hs)

  made_orders : {os : List (ExprNode × SortDir)} → MadeOrders os → regular_orders (orders os) ≡ true
  made_orders MadeOrders.unordered = refl
  made_orders (MadeOrders.ordered_by h hs) = ground (arith, made h, made_orders hs)

  selecting : {sub : SubqueryExpr} → Selecting sub → regular_select sub ≡ true
  selecting (Selecting.all_rows table_name columns is_distinct) = refl
  selecting (Selecting.rows_where table_name columns is_distinct h) = made h

-- What is made of the functions is regular.
pub Made-regular : {e : ExprNode} → Made e → regular e ≡ true
Made-regular h = made h

-- For each of the six dialects and every expression that is made of columns, values and parameters
-- by the methods, operators and functions of expression.h, with IN lists that are not empty: the
-- text that the generator writes of it shows one placeholder for each slot.
pub Made-count_placeholders :
    (db : Database) {e : ExprNode}
    → Made e
    → count_placeholders (style_of db) (generate_expression (dialect_of db) e).sql
      ≡ length (generate_expression (dialect_of db) e).slots
unfolding generate regular_request
Made-count_placeholders db {e = e} h =
    generate-count_placeholders db (Request.expression e) (generate_expression (dialect_of db) e)
      (Made-regular h) refl
