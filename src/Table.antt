-- ===== src/Table.antt =====
-- include/cpplinq/core/column.h and table.h: the descriptions of columns and tables. `read` stands
-- for field_to_bound_value at the member of the column, and `sql_type` for sql_type_of its type
-- without std::optional.
use cpplinq.Common.{Bool, true, false, List, [], ◌∷◌, map}
use cpplinq.Text.{Text}
use cpplinq.Value.{SqlType, BoundValue}
use cpplinq.Generator.Schema.{ColumnInfo}

pub data Constraint : Type 0 where
  primary_key auto_increment not_null unique_col : Constraint

pub record ColumnDef {ℓ} (E : Type ℓ) : Type ℓ where
  pub name : Text
  pub sql_type : SqlType
  pub nullable : Bool
  pub read : E → BoundValue
  pub is_primary_key : Bool
  pub is_auto_increment : Bool
  pub is_not_null : Bool
  pub is_unique : Bool

pub record TableDef {ℓ} (E : Type ℓ) : Type ℓ where
  pub name : Text
  pub columns : List (ColumnDef E)

module _ {ℓ} {E : Type ℓ} where
  unfoldable pub apply : Constraint → ColumnDef E → ColumnDef E
  apply Constraint.primary_key c = record c { is_primary_key = true }
  apply Constraint.auto_increment c = record c { is_auto_increment = true }
  apply Constraint.not_null c = record c { is_not_null = true }
  apply Constraint.unique_col c = record c { is_unique = true }

  unfoldable pub apply_all : List Constraint → ColumnDef E → ColumnDef E
  unfolding apply
  apply_all [] c = c
  apply_all (k ∷ ks) c = apply_all ks (apply k c)

  -- The factory function.
  unfoldable pub column : Text → SqlType → Bool → (E → BoundValue) → List Constraint → ColumnDef E
  unfolding apply_all
  column name sql_type nullable read constraints = apply_all constraints (record {
    name = name;
    sql_type = sql_type;
    nullable = nullable;
    read = read;
    is_primary_key = false;
    is_auto_increment = false;
    is_not_null = false;
    is_unique = false;
  })

  unfoldable pub column_names : TableDef E → List Text
  column_names table = map (λ c. c.name) table.columns

  -- DbContext::make_column_info, of include/cpplinq/core/db_context.h.
  unfoldable pub make_column_info : ColumnDef E → ColumnInfo
  make_column_info c = record {
    name = c.name;
    sql_type = c.sql_type;
    is_primary_key = c.is_primary_key;
    is_auto_increment = c.is_auto_increment;
    is_not_null = c.is_not_null;
    is_nullable = c.nullable;
    is_unique = c.is_unique;
  }
