-- ===== src/Agree/Statements/All.antt =====
-- Any request.
use cpplinq.Common.{
  ℕ, Bool, true, false, [], ◌≡◌, refl, subst, not, Option, none, Outcome, ok, throws, ◌>>=◌, arith,
  ◌==◌, &&-left, &&-right,
}
use cpplinq.Text.{Text, quiet}
use cpplinq.Dialect.Quote.{Dialect}
use cpplinq.Generator.State.{GeneratedSql, Writer, finish}
use cpplinq.Generator.Select.{
  SelectQuery, JoinedQuery, write_select, write_joined, generate_cte_select, generate_joined_select,
  generate_expression,
}
use cpplinq.Generator.SetOps.{SetQuery, write_set, count_of_rows, generate_set_operation}
use cpplinq.Generator.Request.{
  Request, cte_select, plain_select, joined_select, joined_count, set_operation,
  set_operation_count, insert, upsert, update, update_values, delete, create_table, count,
  aggregate, expression, generate,
}
use cpplinq.Agree.Relation.{Relation, Agree, BothReturn}
use cpplinq.Agree.Requests.{
  all_of, regular_cte, regular_request, regular_query, regular_joined, regular_set,
}
use cpplinq.Agree.Follow.{Follows, SameStatement, finish_same}
use cpplinq.Agree.Statements.Clauses.{visit_follow}
use cpplinq.Agree.Statements.Reads.{
  select_follow, joined_follow, set_follow, count_of_rows_same, joined_count_same, count_same,
  aggregate_same,
}
use cpplinq.Agree.Statements.Writes.{
  insert_same, upsert_same, update_same, update_values_same, delete_same,
}
use cpplinq.Agree.Statements.Schema.{create_table_same}

pub from_negation : (b : Bool) → not b ≡ true → b ≡ false
from_negation b h = ground arith

regular_set_unordered :
    (q : SetQuery)
    → regular_set q ≡ true
    → regular_set (record q { order_by = []; limit = none; offset = none }) ≡ true
unfolding regular_set all_of
regular_set_unordered q h = ground arith

lengths_eq : (m n : ℕ) → (m == n) ≡ true → m ≡ n
lengths_eq m n h = ground arith

module _ (r : Relation) (d d' : Dialect) (agree : Agree r d d') where
  -- A statement that ends with the dialect's limit clause.
  limited_same :
      (l o : Option ℕ) (w w' : Text → Writer)
      → ((tail : Text) → quiet tail ≡ true → Follows r (w tail) (w' tail))
      → BothReturn
          (SameStatement r)
          (d.limit_offset l o >>= λ tail. ok (finish (w tail)))
          (d'.limit_offset l o >>= λ tail. ok (finish (w' tail)))
  limited_same l o w w' h =
      subst
        (λ x.
          BothReturn (SameStatement r) (d.limit_offset l o >>= λ tail. ok (finish (w tail)))
            (x >>= λ tail. ok (finish (w' tail))))
        (agree.limit_offset_same l o) (go (d.limit_offset l o) (agree.limit_offset_quiet l o))
    where
      go :
          (x : Outcome Text)
          → ((t : Text) → x ≡ ok t → quiet t ≡ true)
          → BothReturn
              (SameStatement r)
              (x >>= λ tail. ok (finish (w tail)))
              (x >>= λ tail. ok (finish (w' tail)))
      go (ok t) q = finish_same r (h t (q t refl))
      go (throws e) q = refl

  cte_select_same :
      (q : SelectQuery)
      → regular_query q ≡ true
      → BothReturn (SameStatement r) (generate_cte_select d q) (generate_cte_select d' q)
  unfolding generate_cte_select
  cte_select_same q h =
      limited_same q.limit q.offset (write_select d q) (write_select d' q)
        (λ tail. select_follow r d d' agree q tail h)

  joined_select_same :
      (q : JoinedQuery)
      → regular_joined q ≡ true
      → BothReturn (SameStatement r) (generate_joined_select d q) (generate_joined_select d' q)
  unfolding generate_joined_select
  joined_select_same q h =
      limited_same q.limit q.offset (write_joined d q) (write_joined d' q)
        (λ tail. joined_follow r d d' agree q tail h)

  set_operation_same :
      (q : SetQuery)
      → regular_set q ≡ true
      → BothReturn (SameStatement r) (generate_set_operation d q) (generate_set_operation d' q)
  unfolding generate_set_operation
  set_operation_same q h =
      limited_same q.limit q.offset (write_set d q) (write_set d' q)
        (λ tail. set_follow r d d' agree q tail h)

  counted_same :
      (a b : Outcome GeneratedSql)
      → BothReturn (SameStatement r) a b
      → BothReturn
          (SameStatement r)
          (a >>= λ s. ok (count_of_rows d s))
          (b >>= λ s. ok (count_of_rows d' s))
  counted_same (ok s) (ok s') h = count_of_rows_same r d d' agree s s' h
  counted_same (ok s) (throws e) h = absurd h
  counted_same (throws e) (ok s) h = absurd h
  counted_same (throws e) (throws f) h = h

  -- The calls with regular parameters: both return, with related statements, or both throw.
  pub generate_same :
      (q : Request)
      → regular_request q ≡ true
      → BothReturn (SameStatement r) (generate d q) (generate d' q)
  unfolding generate regular_request regular_query regular_set generate_expression
  generate_same (cte_select q) h = cte_select_same q h
  generate_same (plain_select q) h =
      cte_select_same (record q { ctes = [] }) (&&-right (all_of regular_cte q.ctes) _ h)
  generate_same (joined_select q) h = joined_select_same q h
  generate_same (joined_count t js c) h =
      joined_count_same r d d' agree t js c (&&-left _ _ h) (&&-right _ _ h)
  generate_same (set_operation q) h = set_operation_same q h
  generate_same (set_operation_count q) h = counted_same _ _ (
      set_operation_same (record q { order_by = []; limit = none; offset = none })
        (regular_set_unordered q h))
  generate_same (insert t cs vs c) h = insert_same r d d' agree t cs vs c
  generate_same (upsert t cs vs fs us) h =
      upsert_same r d d' agree t cs vs fs us (from_negation _ (&&-left _ _ h))
        (from_negation _ (&&-left _ _ (&&-right _ _ h)))
        (lengths_eq _ _ (&&-right _ _ (&&-right _ _ h)))
  generate_same (update t l c) h = update_same r d d' agree t l c (&&-left _ _ h) (&&-right _ _ h)
  generate_same (update_values t l c) h = update_values_same r d d' agree t l c h
  generate_same (delete t c) h = delete_same r d d' agree t c h
  generate_same (create_table t cs) h = create_table_same r d d' agree t cs
  generate_same (count t c b k) h = count_same r d d' agree t c b k h
  generate_same (aggregate f t k c) h =
      aggregate_same r d d' agree f t k c (&&-left _ _ h) (&&-right _ _ h)
  generate_same (expression e) h = finish_same r (visit_follow r d d' agree e h)
