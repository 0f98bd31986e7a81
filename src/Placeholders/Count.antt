-- ===== src/Placeholders/Count.antt =====
-- As many placeholders as slots, quotes closed, and the parameters are the values of the slots.
use cpplinq.Common.{◌≡◌, ap, ◌∙◌, true, length, ok}
use cpplinq.Generator.State.{GeneratedSql}
use cpplinq.Generator.Request.{Request, generate}
use cpplinq.Scan.{plain, final}
use cpplinq.Scan.Span.{Span-numbered, spans, length-numbered}
use cpplinq.Agree.Requests.{regular_request}
use cpplinq.Agree.Writer.{static_values}
use cpplinq.Placeholders.{Database, dialect_of, style_of, count_placeholders, question_mark}
use cpplinq.Placeholders.Rules.{shown_statement}

-- For each of the six dialects and every regular request (Agree.Requests says which those are):
-- the statement that is returned shows, outside quotes, one placeholder for each slot.
pub generate-count_placeholders :
    (db : Database) (q : Request) (s : GeneratedSql)
    → regular_request q ≡ true
    → generate (dialect_of db) q ≡ ok s
    → count_placeholders (style_of db) s.sql ≡ length s.slots
unfolding count_placeholders spans
generate-count_placeholders db q s h e =
    ap length (
      Span-numbered (style_of db) question_mark (length s.slots) s.sql
        (shown_statement db q s h e).related)
    ∙ length-numbered question_mark 0 (length s.slots)

-- For each of the six dialects and every regular request: whatever the names of tables and columns
-- hold, the statement that is returned ends outside of quotes.
pub generate-final :
    (db : Database) (q : Request) (s : GeneratedSql)
    → regular_request q ≡ true
    → generate (dialect_of db) q ≡ ok s
    → final (style_of db) plain s.sql ≡ plain
unfolding spans
generate-final db q s h e = (shown_statement db q s h e).related.closed

-- For each of the six dialects and every regular request: the parameters that are returned are the
-- values of the slots that are not dynamic, in order.
pub generate-static_values :
    (db : Database) (q : Request) (s : GeneratedSql)
    → regular_request q ≡ true
    → generate (dialect_of db) q ≡ ok s
    → s.params ≡ static_values s.slots
generate-static_values db q s h e = (shown_statement db q s h e).bound_values
