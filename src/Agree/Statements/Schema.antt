-- ===== src/Agree/Statements/Schema.antt =====
-- CREATE TABLE.
use cpplinq.Common.{ℕ, Bool, List, refl}
use cpplinq.Text.{Text, codes}
use cpplinq.Dialect.Quote.{Dialect}
use cpplinq.Generator.Schema.{
  ColumnInfo, column_definition, primary_keys, key_constraint, generate_create_table,
}
use cpplinq.Agree.Relation.{Relation, Agree}
use cpplinq.Agree.Texts.{cat, before, behind, choose, choose_quiet, join_rel, column_list_rel}
use cpplinq.Agree.Follow.{follow_text, SameStatement, finish_same}

module _ (r : Relation) (d d' : Dialect) (agree : Agree r d d') where
  open agree use {quote_id_rel}

  auto_increment_rel : (i : ℕ) → r.Rel i i d.auto_increment_type d'.auto_increment_type
  auto_increment_rel i =
      rw (← agree.auto_increment_same) (r.quiet_rel i _ agree.auto_increment_quiet)

  column_definition_rel :
      (n : ℕ) (b : Bool) (i : ℕ) (c : ColumnInfo)
      → r.Rel i i (column_definition d n b c) (column_definition d' n b c)
  unfolding column_definition
  column_definition_rel n b i c = cat r (quote_id_rel i c.name) (
      before r (codes " ") refl (
        choose r c.is_auto_increment
          (cat r (auto_increment_rel i)
            (choose_quiet r i (codes " UNIQUE") (codes "") c.is_unique refl refl))
          (cat r
            (rw (← agree.type_name_same c.sql_type)
              (r.quiet_rel i _ (agree.type_name_quiet c.sql_type)))
            (cat r (choose_quiet r i (codes " PRIMARY KEY") (codes "") _ refl refl) (
              cat r (choose_quiet r i (codes " NOT NULL") (codes "") c.is_not_null refl refl)
                (choose_quiet r i (codes " UNIQUE") (codes "") c.is_unique refl refl))))))

  key_constraint_rel :
      (cs : List ColumnInfo) (i : ℕ) → r.Rel i i (key_constraint d cs) (key_constraint d' cs)
  unfolding key_constraint
  key_constraint_rel cs i =
      choose r _
        (before r (codes ", PRIMARY KEY (") refl
          (behind r (codes ")") refl (column_list_rel r _ _ quote_id_rel (primary_keys cs) i)))
        (r.quiet_rel i (codes "") refl)

  pub create_table_same :
      (table_name : Text) (cs : List ColumnInfo)
      → SameStatement r
          (generate_create_table d table_name cs)
          (generate_create_table d' table_name cs)
  unfolding generate_create_table
  create_table_same table_name cs = finish_same r (
      follow_text r (λ i. cat r (agree.create_table_prefix_rel i table_name) (
        before r (codes " (") refl (
          cat r (join_rel r (codes ", ") refl _ _ (column_definition_rel _ _) cs i)
            (behind r (codes ")") refl (key_constraint_rel cs i))))))
