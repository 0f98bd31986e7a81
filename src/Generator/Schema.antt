-- ===== src/Generator/Schema.antt =====
-- generate_create_table.
use cpplinq.Common.{
  ℕ, suc, Bool, false, List, [], ◌∷◌, ◌++◌, ◌&&◌, ◌||◌, not, map, ltb, ◌==◌, if◌then◌else◌,
}
use cpplinq.Text.{Text, codes, join}
use cpplinq.Value.{SqlType}
use cpplinq.Dialect.Quote.{Dialect, column_list}
use cpplinq.Generator.State.{GeneratedSql, write, finish}

pub record ColumnInfo : Type 0 where
  pub name : Text
  pub sql_type : SqlType
  pub is_primary_key : Bool
  pub is_auto_increment : Bool
  pub is_not_null : Bool
  pub is_nullable : Bool
  pub is_unique : Bool

-- pk_count and has_auto_inc, after the loop.
unfoldable pub count_keys : List ColumnInfo → ℕ
count_keys [] = 0
count_keys (c ∷ cs) = let rest = count_keys cs in if c.is_primary_key then suc rest else rest

unfoldable pub any_auto_increment : List ColumnInfo → Bool
any_auto_increment [] = false
any_auto_increment (c ∷ cs) = c.is_auto_increment || any_auto_increment cs

abbrev when : Bool → Text → Text
when b t = if b then t else codes ""

unfoldable pub column_definition : Dialect → ℕ → Bool → ColumnInfo → Text
column_definition d pk_count has_auto_inc c =
    d.quote_id c.name
    ++ (codes " "
        ++ (if c.is_auto_increment
            then d.auto_increment_type ++ when c.is_unique (codes " UNIQUE")
            else d.type_name c.sql_type
              ++ (when (c.is_primary_key && (pk_count == 1 && not has_auto_inc))
                    (codes " PRIMARY KEY")
                  ++ (when c.is_not_null (codes " NOT NULL")
                      ++ when c.is_unique (codes " UNIQUE")))))

unfoldable pub primary_keys : List ColumnInfo → List Text
primary_keys [] = []
primary_keys (c ∷ cs) = (if c.is_primary_key then c.name ∷ [] else []) ++ primary_keys cs

unfoldable pub key_constraint : Dialect → List ColumnInfo → Text
unfolding primary_keys column_list count_keys any_auto_increment
key_constraint d column_infos =
    when (ltb 1 (count_keys column_infos) && not (any_auto_increment column_infos))
      (codes ", PRIMARY KEY (" ++ (column_list d.quote_id (primary_keys column_infos) ++ codes ")"))

unfoldable pub generate_create_table : Dialect → Text → List ColumnInfo → GeneratedSql
unfolding join column_definition key_constraint
generate_create_table d table_name column_infos = finish (
    write (
      d.create_table_prefix table_name
      ++ (codes " ("
          ++ (join (codes ", ") (
                map
                  (column_definition d (count_keys column_infos) (any_auto_increment column_infos))
                  column_infos)
              ++ (key_constraint d column_infos ++ codes ")")))))
