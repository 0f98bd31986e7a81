-- ===== src/Tests/Drivers.antt =====
-- The PostgreSQL conversion, and the binding of slots.
use cpplinq.Common.{returns, true, false, List, [], ◌∷◌, ◌≡◌, refl, some, ok, imap}
use cpplinq.Common.Int.{pos}
use cpplinq.Text.{Text, codes}
use cpplinq.Text
use cpplinq.Value.{int64, string}
use cpplinq.Expr.{binary, column_ref, literal, eq}
use cpplinq.Generator.State.{GeneratedSql, ParameterSlot, static_slot, dynamic_slot}
use cpplinq.Generator.Request.{Request, delete, generate}
use cpplinq.Generator.State
use cpplinq.Generator.Visit
use cpplinq.Generator.Select
use cpplinq.Generator.Modify
use cpplinq.Dialect.Quote
use cpplinq.Dialect.Postgres.{postgres}
use cpplinq.Dialect.Postgres
use cpplinq.Agree.Requests.{regular_request, all_of}
use cpplinq.Agree.Regular.{regular}
use cpplinq.Placeholders.{postgres_db, dialect_with, dialect_of}
use cpplinq.Driver.Postgres.{convert_placeholders_to_pg, convert_from, converted, advance}
use cpplinq.Driver.Numbered.{postgres_numbered, convert_placeholders_to_pg-generate}
use cpplinq.Prepared.{reset, bind, done, bind_slots}
use cpplinq.Prepared.Binding.{
  bind_slots-returns, bind_slots-generate, bind_slots-values_of, is_static, has_argument,
}

abbrev removal : Request
removal =
    delete (codes "t") (some (binary (column_ref [] (codes "a?'")) eq (literal (int64 (pos 7)))))

abbrev removed : Text → GeneratedSql
removed sql = record {
  sql = sql;
  params = int64 (pos 7) ∷ [];
  slots = static_slot (int64 (pos 7)) ∷ [];
}

abbrev question_text : Text
question_text = codes "DELETE FROM \"t\" WHERE (\"a?'\" = ?)"

generate-removal : generate postgres removal ≡ ok (removed question_text)
unfolding generate Modify.generate_delete Select.write_clause Visit.visit Visit.compare_text
    Visit.column_text State.write State.◌<>◌ State.bind_value State.finish
    State.sql_value_to_bound_value Postgres.postgres Postgres.postgres_with Postgres.placeholder
    Postgres.quote_id Quote.quote_with Quote.escape
generate-removal = refl

generate-removal_in_table : generate (dialect_of postgres_db) removal ≡ ok (removed question_text)
unfolding generate Modify.generate_delete Select.write_clause Visit.visit Visit.compare_text
    Visit.column_text State.write State.◌<>◌ State.bind_value State.finish
    State.sql_value_to_bound_value dialect_with Postgres.postgres_with Postgres.quote_id
    Quote.quote_with Quote.escape
generate-removal_in_table = refl

removal-regular : regular_request removal ≡ true
unfolding regular_request regular
removal-regular = refl

convert_placeholders_to_pg-generate_example :
    generate postgres_numbered removal
    ≡ ok (removed (codes "DELETE FROM \"t\" WHERE (\"a?'\" = $1)"))
unfolding convert_placeholders_to_pg convert_from converted advance Text.to_string Text.digits
convert_placeholders_to_pg-generate_example =
    convert_placeholders_to_pg-generate removal (removed question_text) removal-regular
      generate-removal

abbrev two_slots : List ParameterSlot
two_slots = dynamic_slot 1 ∷ static_slot (int64 (pos 7)) ∷ []

bind_slots-returns_example : returns (bind_slots true two_slots (string (codes "x") ∷ [])).1 ≡ false
unfolding all_of
bind_slots-returns_example = bind_slots-returns two_slots (string (codes "x") ∷ [])

two_slots-covered :
    all_of (has_argument (string (codes "x") ∷ string (codes "y") ∷ [])) two_slots ≡ true
unfolding all_of
two_slots-covered = refl

bind_slots-values_of_example :
    bind_slots true two_slots (string (codes "x") ∷ string (codes "y") ∷ [])
    ≡ (reset ∷ bind 0 (string (codes "y")) ∷ bind 1 (int64 (pos 7)) ∷ [], ok done)
unfolding imap cpplinq.Prepared.slot_value
bind_slots-values_of_example =
    bind_slots-values_of two_slots (string (codes "x") ∷ string (codes "y") ∷ []) two_slots-covered

removed-static : all_of is_static (removed question_text).slots ≡ true
unfolding all_of
removed-static = refl

bind_slots-generate_example :
    bind_slots true (removed question_text).slots []
    ≡ (reset ∷ bind 0 (int64 (pos 7)) ∷ [], ok done)
unfolding imap
bind_slots-generate_example =
    bind_slots-generate postgres_db removal (removed question_text) [] removal-regular
      generate-removal_in_table removed-static
