-- ===== src/Laws/Sqlite.antt =====
-- SqliteDialect.
use cpplinq.Common.{ℕ, ◌≡◌, refl, true, Option, none, some, ok}
use cpplinq.Text.{Text, codes, quiet}
use cpplinq.Text.Quiet.{quiet-append}
use cpplinq.Value.{
  SqlType, integer, big_int, unsigned_big_int, real, decimal, text, wstring, blob, boolean, date,
  time, timestamp, interval, guid,
}
use cpplinq.Expr.{DatePart, year, month, day}
use cpplinq.Generator.Visit.{part_text}
use cpplinq.Dialect.Sqlite.{
  quote_id, limit_part, offset_part, limit_offset, type_name, returning_clause, extract_part_func,
  date_add_days_func, sqlite_with,
}
use cpplinq.Scan.{double_quoted, marks, final, next}
use cpplinq.Agree.Relation.{Relation, Agree}
use cpplinq.Agree.Texts.{before}
use cpplinq.Laws.Keeps.{
  Keeps, quiet_ok, quiet_number, quoted_rel, around, around_two, default_create_table_prefix_rel,
  default_upsert_rel,
}

limit_part-quiet : (l o : Option ℕ) → quiet (limit_part l o) ≡ true
unfolding limit_part
limit_part-quiet none none = refl
limit_part-quiet none (some o) = refl
limit_part-quiet (some l) o = quiet_number (codes " LIMIT ") l refl

offset_part-quiet : (o : Option ℕ) → quiet (offset_part o) ≡ true
unfolding offset_part
offset_part-quiet none = refl
offset_part-quiet (some o) = quiet_number (codes " OFFSET ") o refl

limit_offset-quiet : (l o : Option ℕ) (t : Text) → limit_offset l o ≡ ok t → quiet t ≡ true
unfolding limit_offset
limit_offset-quiet l o t h =
    quiet_ok _ t
      (quiet-append (limit_part l o) (offset_part o) (limit_part-quiet l o) (offset_part-quiet o)) h

type_name-quiet : (t : SqlType) → quiet (type_name t) ≡ true
unfolding type_name
type_name-quiet integer = refl
type_name-quiet big_int = refl
type_name-quiet unsigned_big_int = refl
type_name-quiet real = refl
type_name-quiet decimal = refl
type_name-quiet text = refl
type_name-quiet wstring = refl
type_name-quiet blob = refl
type_name-quiet boolean = refl
type_name-quiet date = refl
type_name-quiet time = refl
type_name-quiet timestamp = refl
type_name-quiet interval = refl
type_name-quiet guid = refl

module _ (r : Relation) (p p' : ℕ → Text) (keeps : Keeps r double_quoted p p') where
  extract_rel :
      (i j : ℕ) (part : DatePart) (t t' : Text)
      → r.Rel i j t t'
      → r.Rel i j (extract_part_func (part_text part) t) (extract_part_func (part_text part) t')
  unfolding extract_part_func part_text marks final next cpplinq.Text.same
  extract_rel i j year t t' h =
      around r double_quoted p p' keeps (codes "CAST(strftime('%Y', ") (codes ") AS INTEGER)") refl
        refl h
  extract_rel i j month t t' h =
      around r double_quoted p p' keeps (codes "CAST(strftime('%m', ") (codes ") AS INTEGER)") refl
        refl h
  extract_rel i j day t t' h =
      around r double_quoted p p' keeps (codes "CAST(strftime('%d', ") (codes ") AS INTEGER)") refl
        refl h

  pub sqlite-Agree : Agree r (sqlite_with p) (sqlite_with p')
  unfolding sqlite_with quote_id returning_clause date_add_days_func marks final next
  sqlite-Agree = record {
    quote_id_rel = quoted_rel r double_quoted p p' keeps;
    placeholder_rel = keeps.placeholder_rel;
    limit_offset_same = λ l o. refl;
    limit_offset_quiet = limit_offset-quiet;
    prefix_same = λ l o. refl;
    prefix_quiet = λ l o. refl;
    type_name_same = λ t. refl;
    type_name_quiet = type_name-quiet;
    auto_increment_same = refl;
    auto_increment_quiet = refl;
    returning_clause_rel =
        λ i c. before r (codes " RETURNING ") refl (quoted_rel r double_quoted p p' keeps i c);
    output_clause_rel = λ i c. r.quiet_rel i (codes "") refl;
    create_table_prefix_rel = default_create_table_prefix_rel r p p' keeps;
    function_name_rel = λ i f h. r.quiet_rel i f h;
    current_timestamp_rel = λ i. r.quiet_rel i (codes "CURRENT_TIMESTAMP") refl;
    current_date_rel = λ i. r.quiet_rel i (codes "CURRENT_DATE") refl;
    extract_part_rel = extract_rel;
    date_add_rel = λ i j k s s' t t' g h.
        around_two r double_quoted p p' keeps (codes "date(") (codes ", (") (codes ") || ' days')")
          refl refl refl g h;
    upsert_rel = λ t is vs cs us h1 h2. default_upsert_rel r p p' keeps t is vs cs us;
  }
