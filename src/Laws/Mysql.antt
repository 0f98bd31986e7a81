-- ===== src/Laws/Mysql.antt =====
-- MysqlDialect.
use cpplinq.Common.{
  arith, arith, arith, ℕ, List, [], ◌∷◌, ◌++◌, ◌≡◌, refl, true, false, Option, none, some, ok,
  length, is_empty,
}
use cpplinq.Text.{Text, to_string, to_string, to_string, codes, quiet}
use cpplinq.Value.{
  SqlType, integer, big_int, unsigned_big_int, real, decimal, text, wstring, blob, boolean, date,
  time, timestamp, interval, guid, BoundValue,
}
use cpplinq.Expr.{DatePart, year, month, day}
use cpplinq.Generator.Visit.{part_text}
use cpplinq.Dialect.Quote.{default_create_table_prefix}
use cpplinq.Dialect.Mysql
use cpplinq.Dialect.Mysql.{
  quote_id, limit_offset, type_name, function_name, extract_part_func, date_add_days_func,
  self_assign, upsert_action, mysql_with,
}
use cpplinq.Scan.{backticked, marks, final, next}
use cpplinq.Agree.Relation.{Relation, Agree, BothReturn}
use cpplinq.Agree.Texts.{before, cat, column_list_rel, placeholder_list_rel, pair_list_rel}
use cpplinq.Laws.Keeps.{
  Keeps, quiet_ok, quiet_between, quiet_number, quoted_rel, around, around_two,
}

limit_offset-quiet : (l o : Option ℕ) (t : Text) → limit_offset l o ≡ ok t → quiet t ≡ true
unfolding limit_offset
limit_offset-quiet (some l) (some o) t h =
    quiet_ok _ t
      (quiet_between (codes " LIMIT ") l (codes " OFFSET " ++ to_string o) refl
        (quiet_number (codes " OFFSET ") o refl))
      h
limit_offset-quiet (some l) none t h = quiet_ok _ t (quiet_number (codes " LIMIT ") l refl) h
limit_offset-quiet none (some o) t h =
    quiet_ok _ t (quiet_number (codes " LIMIT 18446744073709551615 OFFSET ") o refl) h
limit_offset-quiet none none t h = quiet_ok _ t refl h

type_name-quiet : (t : SqlType) → quiet (type_name t) ≡ true
unfolding type_name
type_name-quiet integer = refl
type_name-quiet big_int = refl
type_name-quiet unsigned_big_int = refl
type_name-quiet real = refl
type_name-quiet decimal = refl
type_name-quiet text = refl
type_name-quiet wstring = refl
type_name-quiet blob = refl
type_name-quiet boolean = refl
type_name-quiet date = refl
type_name-quiet time = refl
type_name-quiet timestamp = refl
type_name-quiet interval = refl
type_name-quiet guid = refl

function_name-quiet : (f : Text) → quiet f ≡ true → quiet (function_name f) ≡ true
unfolding function_name
function_name-quiet f h = ground (arith, h)

module _ (r : Relation) (p p' : ℕ → Text) (keeps : Keeps r backticked p p') where
  id_rel : (i : ℕ) (id : Text) → r.Rel i i (quote_id id) (quote_id id)
  unfolding quote_id
  id_rel = quoted_rel r backticked p p' keeps

  extract_rel :
      (i j : ℕ) (part : DatePart) (t t' : Text)
      → r.Rel i j t t'
      → r.Rel i j (extract_part_func (part_text part) t) (extract_part_func (part_text part) t')
  unfolding extract_part_func part_text marks final next cpplinq.Text.same
  extract_rel i j year t t' h =
      around r backticked p p' keeps (codes "YEAR(") (codes ")") refl refl h
  extract_rel i j month t t' h =
      around r backticked p p' keeps (codes "MONTH(") (codes ")") refl refl h
  extract_rel i j day t t' h = around r backticked p p' keeps (codes "DAY(") (codes ")") refl refl h

  prefix_rel :
      (i : ℕ) (table_name : Text)
      → r.Rel i i
          (default_create_table_prefix quote_id table_name)
          (default_create_table_prefix quote_id table_name)
  unfolding default_create_table_prefix
  prefix_rel i table_name =
      before r (codes "CREATE TABLE IF NOT EXISTS ") refl (id_rel i table_name)

  self_assign_rel : (i : ℕ) (c : Text) → r.Rel i i (self_assign c) (self_assign c)
  self_assign_rel i c = cat r (id_rel i c) (before r (codes " = ") refl (id_rel i c))

  action_rel :
      (i : ℕ) (is cs us : List Text) → r.Rel i i (upsert_action is cs us) (upsert_action is cs us)
  unfolding upsert_action
  action_rel i is cs (u ∷ us) =
      pair_list_rel r _ _ (codes ", ") [] (codes " = VALUES(") (codes ")") refl refl refl refl
        id_rel (u ∷ us) i
  action_rel i is (c ∷ cs) [] = self_assign_rel i c
  action_rel i (c ∷ is) [] [] = self_assign_rel i c
  action_rel i [] [] [] = r.quiet_rel i [] refl

  upsert_rel :
      (table_name : Text) (is : List Text) (values : List BoundValue) (cs us : List Text)
      → is_empty is ≡ false
      → BothReturn
          (r.Rel 0 (length is))
          (Mysql.generate_upsert p table_name is values cs us)
          (Mysql.generate_upsert p' table_name is values cs us)
  unfolding Mysql.generate_upsert
  upsert_rel table_name [] values cs us h = refl
  upsert_rel table_name (i ∷ is) values cs us h = before r (codes "INSERT INTO ") refl (
      cat r (id_rel 0 table_name) (
        before r (codes " (") refl (
          cat r (column_list_rel r _ _ id_rel (i ∷ is) 0) (
            before r (codes ") VALUES (") refl (
              cat r (placeholder_list_rel r p p' keeps.placeholder_rel (i ∷ is)) (
                before r (codes ") ON DUPLICATE KEY UPDATE ") refl
                  (action_rel _ (i ∷ is) cs us)))))))

  pub mysql-Agree : Agree r (mysql_with p) (mysql_with p')
  unfolding mysql_with quote_id Mysql.returning_clause date_add_days_func marks final next
  mysql-Agree = record {
    quote_id_rel = id_rel;
    placeholder_rel = keeps.placeholder_rel;
    limit_offset_same = λ l o. refl;
    limit_offset_quiet = limit_offset-quiet;
    prefix_same = λ l o. refl;
    prefix_quiet = λ l o. refl;
    type_name_same = λ t. refl;
    type_name_quiet = type_name-quiet;
    auto_increment_same = refl;
    auto_increment_quiet = refl;
    returning_clause_rel = λ i c. r.quiet_rel i (codes "") refl;
    output_clause_rel = λ i c. r.quiet_rel i (codes "") refl;
    create_table_prefix_rel = prefix_rel;
    function_name_rel = λ i f h. r.quiet_rel i (function_name f) (function_name-quiet f h);
    current_timestamp_rel = λ i. r.quiet_rel i (codes "CURRENT_TIMESTAMP") refl;
    current_date_rel = λ i. r.quiet_rel i (codes "CURRENT_DATE()") refl;
    extract_part_rel = extract_rel;
    date_add_rel = λ i j k s s' t t' g h.
        around_two r backticked p p' keeps (codes "DATE_ADD(") (codes ", INTERVAL (")
          (codes ") DAY)") refl refl refl g h;
    upsert_rel = λ t is vs cs us h1 h2. upsert_rel t is vs cs us h1;
  }
