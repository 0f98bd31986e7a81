-- ===== src/Agree/Statements/Writes.antt =====
-- INSERT, UPSERT, UPDATE, DELETE and CREATE TABLE.
use cpplinq.Common.{
  ℕ, true, false, List, [], ◌∷◌, ◌++◌, map, ◌≡◌, refl, ap, subst, sym, ◌∙◌, Option, none, some,
  Outcome, ok, throws, ◌>>=◌, length, length-map, is_empty, &&-left, &&-right,
}
use cpplinq.Text.{Text, codes}
use cpplinq.Value.{BoundValue}
use cpplinq.Expr.{ExprNode, AssignExpr}
use cpplinq.Dialect.Quote.{Dialect}
use cpplinq.Generator.State.{write, bind_value, static_slot}
use cpplinq.Generator.Modify.{
  write_values_rest, write_values, returning_text, insert_body, generate_insert, generate_upsert,
  assigned_column, write_assignment, write_assignments_rest, write_assignments, generate_update,
  write_binding, write_bindings_rest, write_bindings, generate_update_values, generate_delete,
}
use cpplinq.Agree.Relation.{Relation, Agree, BothReturn}
use cpplinq.Agree.Texts.{before, behind, choose, column_list_rel}
use cpplinq.Agree.Writer.{bind_value_rel, static_values}
use cpplinq.Agree.Requests.{all_of, regular_option, regular_assignment}
use cpplinq.Agree.Follow.{Follows, follow_quiet, follow_text, follow, SameStatement, finish_same}
use cpplinq.Agree.Statements.Clauses.{visit_follow, write_clause_follow}

static_values-map : (vs : List BoundValue) → vs ≡ static_values (map static_slot vs)
static_values-map [] = refl
static_values-map (v ∷ vs) = ap (λ l. v ∷ l) (static_values-map vs)

module _ (r : Relation) (d d' : Dialect) (agree : Agree r d d') where
  open agree use {quote_id_rel}

  bind_follow :
      (v : BoundValue) → Follows r (bind_value d.placeholder v) (bind_value d'.placeholder v)
  bind_follow v = (1, bind_value_rel r _ _ v agree.placeholder_rel)

  values_rest_follow :
      (vs : List BoundValue) → Follows r (write_values_rest d vs) (write_values_rest d' vs)
  unfolding write_values_rest
  values_rest_follow [] = follow_quiet r _ refl
  values_rest_follow (v ∷ vs) =
      follow r (follow_quiet r _ refl) (follow r (bind_follow v) (values_rest_follow vs))

  values_follow : (vs : List BoundValue) → Follows r (write_values d vs) (write_values d' vs)
  unfolding write_values
  values_follow [] = follow_quiet r _ refl
  values_follow (v ∷ vs) = follow r (bind_follow v) (values_rest_follow vs)

  returning_follow :
      (clause clause' : Text → Text) (column : Option Text)
      → ((i : ℕ) (c : Text) → r.Rel i i (clause c) (clause' c))
      → Follows r (write (returning_text clause column)) (write (returning_text clause' column))
  unfolding returning_text
  returning_follow clause clause' none h = follow_quiet r _ refl
  returning_follow clause clause' (some column) h =
      follow_text r (λ i. choose r _ (r.quiet_rel i (codes "") refl) (h i column))

  insert_body_follow :
      (columns : List Text) (vs : List BoundValue) (column : Option Text)
      → Follows r (insert_body d columns vs column) (insert_body d' columns vs column)
  unfolding insert_body
  insert_body_follow [] vs column =
      follow r (returning_follow _ _ column agree.output_clause_rel) (follow_quiet r _ refl)
  insert_body_follow (c ∷ cs) vs column =
      follow r
        (follow_text r (λ i.
          before r (codes " (") refl
            (behind r (codes ")") refl (column_list_rel r _ _ quote_id_rel (c ∷ cs) i))))
        (follow r (returning_follow _ _ column agree.output_clause_rel)
          (follow r (follow_quiet r _ refl) (follow r (values_follow vs) (follow_quiet r _ refl))))

  pub insert_same :
      (table_name : Text) (columns : List Text) (vs : List BoundValue) (column : Option Text)
      → SameStatement r
          (generate_insert d table_name columns vs column)
          (generate_insert d' table_name columns vs column)
  unfolding generate_insert
  insert_same table_name columns vs column = finish_same r (
      follow r
        (follow_text r (λ i. before r (codes "INSERT INTO ") refl (quote_id_rel i table_name)))
        (follow r (insert_body_follow columns vs column)
          (returning_follow _ _ column agree.returning_clause_rel)))

  upsert_result :
      (n : ℕ) (vs : List BoundValue) (a b : Outcome Text)
      → n ≡ length vs
      → BothReturn (r.Rel 0 n) a b
      → BothReturn
          (SameStatement r)
          (a >>= λ t. ok (record { sql = t; params = vs; slots = map static_slot vs }))
          (b >>= λ t. ok (record { sql = t; params = vs; slots = map static_slot vs }))
  upsert_result n vs (ok s) (ok t) e h = record {
    related = subst (λ k. r.Rel 0 k s t) (e ∙ sym (length-map static_slot vs)) h;
    same_params = refl;
    same_slots = refl;
    bound_values = static_values-map vs;
  }
  upsert_result n vs (ok s) (throws f) e h = absurd h
  upsert_result n vs (throws f) (ok t) e h = absurd h
  upsert_result n vs (throws f) (throws g) e h = h

  pub upsert_same :
      (table_name : Text) (columns : List Text) (vs : List BoundValue)
      (conflicts updates : List Text)
      → is_empty columns ≡ false
      → is_empty conflicts ≡ false
      → length columns ≡ length vs
      → BothReturn
          (SameStatement r)
          (generate_upsert d table_name columns vs conflicts updates)
          (generate_upsert d' table_name columns vs conflicts updates)
  unfolding generate_upsert
  upsert_same table_name columns vs conflicts updates h k e =
      upsert_result (length columns) vs _ _ e
        (agree.upsert_rel table_name columns vs conflicts updates h k)

  assignment_follow :
      (a : AssignExpr)
      → regular_assignment a ≡ true
      → Follows r (write_assignment d a) (write_assignment d' a)
  unfolding write_assignment
  assignment_follow a h =
      follow r
        (follow_text r (λ i. behind r (codes " = ") refl (quote_id_rel i (assigned_column a))))
        (visit_follow r d d' agree a.value h)

  assignments_rest_follow :
      (l : List AssignExpr)
      → all_of regular_assignment l ≡ true
      → Follows r (write_assignments_rest d l) (write_assignments_rest d' l)
  unfolding write_assignments_rest all_of
  assignments_rest_follow [] h = follow_quiet r _ refl
  assignments_rest_follow (a ∷ l) h =
      follow r (follow_quiet r _ refl) (
        follow r (assignment_follow a (&&-left _ _ h)) (assignments_rest_follow l (&&-right _ _ h)))

  assignments_follow :
      (l : List AssignExpr)
      → all_of regular_assignment l ≡ true
      → Follows r (write_assignments d l) (write_assignments d' l)
  unfolding write_assignments all_of
  assignments_follow [] h = follow_quiet r _ refl
  assignments_follow (a ∷ l) h =
      follow r (assignment_follow a (&&-left _ _ h)) (assignments_rest_follow l (&&-right _ _ h))

  set_follow_text :
      (table_name : Text)
      → Follows r
          (write (codes "UPDATE " ++ (d.quote_id table_name ++ codes " SET ")))
          (write (codes "UPDATE " ++ (d'.quote_id table_name ++ codes " SET ")))
  set_follow_text table_name = follow_text r (λ i.
      before r (codes "UPDATE ") refl (behind r (codes " SET ") refl (quote_id_rel i table_name)))

  pub update_same :
      (table_name : Text) (l : List AssignExpr) (condition : Option ExprNode)
      → all_of regular_assignment l ≡ true
      → regular_option condition ≡ true
      → SameStatement r
          (generate_update d table_name l condition)
          (generate_update d' table_name l condition)
  unfolding generate_update
  update_same table_name l condition h k = finish_same r (
      follow r (set_follow_text table_name)
        (follow r (assignments_follow l h) (write_clause_follow r d d' agree _ condition refl k)))

  binding_follow : (b : Text × BoundValue) → Follows r (write_binding d b) (write_binding d' b)
  unfolding write_binding
  binding_follow (column, v) =
      follow r (follow_text r (λ i. behind r (codes " = ") refl (quote_id_rel i column)))
        (bind_follow v)

  bindings_rest_follow :
      (l : List (Text × BoundValue))
      → Follows r (write_bindings_rest d l) (write_bindings_rest d' l)
  unfolding write_bindings_rest
  bindings_rest_follow [] = follow_quiet r _ refl
  bindings_rest_follow (b ∷ l) =
      follow r (follow_quiet r _ refl) (follow r (binding_follow b) (bindings_rest_follow l))

  bindings_follow :
      (l : List (Text × BoundValue)) → Follows r (write_bindings d l) (write_bindings d' l)
  unfolding write_bindings
  bindings_follow [] = follow_quiet r _ refl
  bindings_follow (b ∷ l) = follow r (binding_follow b) (bindings_rest_follow l)

  pub update_values_same :
      (table_name : Text) (l : List (Text × BoundValue)) (condition : Option ExprNode)
      → regular_option condition ≡ true
      → SameStatement r
          (generate_update_values d table_name l condition)
          (generate_update_values d' table_name l condition)
  unfolding generate_update_values
  update_values_same table_name l condition k = finish_same r (
      follow r (set_follow_text table_name)
        (follow r (bindings_follow l) (write_clause_follow r d d' agree _ condition refl k)))

  pub delete_same :
      (table_name : Text) (condition : Option ExprNode)
      → regular_option condition ≡ true
      → SameStatement r
          (generate_delete d table_name condition)
          (generate_delete d' table_name condition)
  unfolding generate_delete
  delete_same table_name condition k = finish_same r (
      follow r
        (follow_text r (λ i. before r (codes "DELETE FROM ") refl (quote_id_rel i table_name)))
        (write_clause_follow r d d' agree _ condition refl k))
