-- ===== src/Agree/Relation.antt =====
-- Relations between the texts that two runs write, and what two dialects must keep of one.
use cpplinq.Common.{
  ℕ, suc, List, ◌++◌, Option, Outcome, ok, throws, ◌≡◌, true, false, length, is_empty,
}
use cpplinq.Text.{Text, quiet}
use cpplinq.Value.{SqlType, BoundValue}
use cpplinq.Expr.{DatePart}
use cpplinq.Dialect.Quote.{Dialect}
use cpplinq.Generator.Visit.{part_text}

-- `Rel i j t t'`: the two runs, that have bound `i` parameters before, write t and t', and have
-- bound `j` after.
pub record Relation : Type 1 where
  pub Rel : ℕ → ℕ → Text → Text → Type 0
  pub quiet_rel : (i : ℕ) (t : Text) → quiet t ≡ true → Rel i i t t
  pub append_rel :
      (i j k : ℕ) (s s' t t' : Text) → Rel i j s s' → Rel j k t t' → Rel i k (s ++ t) (s' ++ t')

-- Both calls return, with related results, or both throw the same exception.
abbrev pub BothReturn : {A : Type 0} → (A → A → Type 0) → Outcome A → Outcome A → Type 0
BothReturn P (ok a) (ok b) = P a b
BothReturn P (throws e) (throws f) = e ≡ f
BothReturn P _ _ = ⊥

pub record Agree (r : Relation) (d d' : Dialect) : Type 0 where
  pub quote_id_rel : (i : ℕ) (id : Text) → r.Rel i i (d.quote_id id) (d'.quote_id id)
  pub placeholder_rel : (i : ℕ) → r.Rel i (suc i) (d.placeholder i) (d'.placeholder i)
  pub limit_offset_same : (l o : Option ℕ) → d.limit_offset l o ≡ d'.limit_offset l o
  pub limit_offset_quiet : (l o : Option ℕ) (t : Text) → d.limit_offset l o ≡ ok t → quiet t ≡ true
  pub prefix_same :
      (l o : Option ℕ) → d.select_prefix_limit_offset l o ≡ d'.select_prefix_limit_offset l o
  pub prefix_quiet : (l o : Option ℕ) → quiet (d.select_prefix_limit_offset l o) ≡ true
  pub type_name_same : (t : SqlType) → d.type_name t ≡ d'.type_name t
  pub type_name_quiet : (t : SqlType) → quiet (d.type_name t) ≡ true
  pub auto_increment_same : d.auto_increment_type ≡ d'.auto_increment_type
  pub auto_increment_quiet : quiet d.auto_increment_type ≡ true
  pub returning_clause_rel :
      (i : ℕ) (column : Text) → r.Rel i i (d.returning_clause column) (d'.returning_clause column)
  pub output_clause_rel :
      (i : ℕ) (column : Text) → r.Rel i i (d.output_clause column) (d'.output_clause column)
  pub create_table_prefix_rel :
      (i : ℕ) (table_name : Text)
      → r.Rel i i (d.create_table_prefix table_name) (d'.create_table_prefix table_name)
  pub function_name_rel :
      (i : ℕ) (func : Text)
      → quiet func ≡ true
      → r.Rel i i (d.function_name func) (d'.function_name func)
  pub current_timestamp_rel : (i : ℕ) → r.Rel i i d.current_timestamp_func d'.current_timestamp_func
  pub current_date_rel : (i : ℕ) → r.Rel i i d.current_date_func d'.current_date_func
  pub extract_part_rel :
      (i j : ℕ) (part : DatePart) (t t' : Text)
      → r.Rel i j t t'
      → r.Rel i j
          (d.extract_part_func (part_text part) t)
          (d'.extract_part_func (part_text part) t')
  pub date_add_rel :
      (i j k : ℕ) (s s' t t' : Text)
      → r.Rel i j s s'
      → r.Rel j k t t'
      → r.Rel i k (d.date_add_days_func s t) (d'.date_add_days_func s' t')
  pub upsert_rel :
      (table_name : Text) (insert_columns : List Text) (values : List BoundValue)
      (conflict_columns update_columns : List Text)
      → is_empty insert_columns ≡ false
      → is_empty conflict_columns ≡ false
      → BothReturn
          (r.Rel 0 (length insert_columns))
          (d.generate_upsert table_name insert_columns values conflict_columns update_columns)
          (d'.generate_upsert table_name insert_columns values conflict_columns update_columns)
