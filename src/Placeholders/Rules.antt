-- ===== src/Placeholders/Rules.antt =====
-- Every dialect agrees with itself on what its texts show, with question marks and with numbers.
use cpplinq.Common.{ℕ, suc, ◌+◌, [], ◌∷◌, ◌≡◌, refl, ap, ◌∙◌, subst, true, arith, Outcome, ok}
use cpplinq.Text.{Text, codes}
use cpplinq.Generator.State.{GeneratedSql}
use cpplinq.Dialect.Mssql
use cpplinq.Scan.{Style, double_quoted, backticked, bracketed, plain, marks, final, next, silent}
use cpplinq.Scan.Silent.{silent-IsSilent}
use cpplinq.Scan.Span.{Span, spans, silent-Span, append-Span, numbered}
use cpplinq.Agree.Relation.{Relation, Agree, BothReturn}
use cpplinq.Agree.Requests.{regular_request}
use cpplinq.Agree.Follow.{SameStatement}
use cpplinq.Agree.Statements.All.{generate_same}
use cpplinq.Generator.Request.{Request, generate}
use cpplinq.Laws.Keeps.{Keeps}
use cpplinq.Laws.Sqlite.{sqlite-Agree}
use cpplinq.Laws.Postgres.{postgres-Agree}
use cpplinq.Laws.Mysql.{mysql-Agree}
use cpplinq.Laws.Mssql.{mssql-Agree}
use cpplinq.Laws.Oracle.{oracle-Agree}
use cpplinq.Laws.Informix.{informix-Agree}
use cpplinq.Placeholders.{
  Database, sqlite_db, postgres_db, mysql_db, mssql_db, oracle_db, informix_db, dialect_with,
  dialect_of, numbered_dialect, style_of, in_order, question_mark, numbered_mark,
}

-- A placeholder that is read as one mark, outside quotes.
record IsShown (s : Style) (c : ℕ) : Type 0 where
  one_mark : marks s plain (c ∷ []) ≡ c ∷ []
  still_plain : final s plain (c ∷ []) ≡ plain

Keeps-spans :
    (s : Style) (mark : ℕ → ℕ)
    → ((i : ℕ) → IsShown s (mark i))
    → Keeps (spans s mark) s (λ i. mark i ∷ []) (λ i. mark i ∷ [])
unfolding spans numbered
Keeps-spans s mark h = record {
  silent_rel = λ i t x. silent-Span s mark i t x;
  placeholder_rel = λ i. record {
    size = 1;
    ends = omega arith;
    shown = (h i).one_mark;
    closed = (h i).still_plain;
  };
}

question_mark-IsShown : (s : Style) (i : ℕ) → IsShown s (question_mark i)
unfolding marks final next
question_mark-IsShown double_quoted i = record { one_mark = refl; still_plain = refl }
question_mark-IsShown backticked i = record { one_mark = refl; still_plain = refl }
question_mark-IsShown bracketed i = record { one_mark = refl; still_plain = refl }

marks-numbered_mark :
    (s : Style) (i : ℕ) → marks s plain (numbered_mark i ∷ []) ≡ numbered_mark i ∷ []
unfolding marks next
marks-numbered_mark s i = ground arith

final-numbered_mark : (s : Style) (i : ℕ) → final s plain (numbered_mark i ∷ []) ≡ plain
unfolding final next
final-numbered_mark double_quoted i = ground arith
final-numbered_mark backticked i = ground arith
final-numbered_mark bracketed i = ground arith

numbered_mark-IsShown : (s : Style) (i : ℕ) → IsShown s (numbered_mark i)
numbered_mark-IsShown s i = record {
  one_mark = marks-numbered_mark s i;
  still_plain = final-numbered_mark s i;
}

-- Question marks may be exchanged.
shift_question_marks : (i j n : ℕ) → numbered question_mark i n ≡ numbered question_mark j n
unfolding numbered
shift_question_marks i j ℕ.zero = refl
shift_question_marks i j (suc n) = ap (λ l. b'?' ∷ l) (shift_question_marks (suc i) (suc j) n)

move_question_marks :
    (s : Style) (i j k l : ℕ) (t : Text)
    → k + j ≡ i + l
    → Span s question_mark i j t
    → Span s question_mark k l t
move_question_marks s i j k l t e h = record {
  size = h.size;
  ends = omega (arith, e, h.ends);
  shown = h.shown ∙ shift_question_marks i k h.size;
  closed = h.closed;
}

literal_Span : (i : ℕ) (t : Text) → silent bracketed t ≡ true → Span bracketed question_mark i i t
literal_Span i t h = silent-Span bracketed question_mark i t (silent-IsSilent bracketed t h)

swapped_days :
    (i j k : ℕ) (s s' t t' : Text)
    → Span bracketed question_mark i j s
    → Span bracketed question_mark j k t
    → Span bracketed question_mark i k (Mssql.date_add_days_func s t)
unfolding Mssql.date_add_days_func marks final next
swapped_days i j k s s' t t' g h =
    let r = append-Span bracketed question_mark in
    let m = i + h.size in
    r i i k (codes "DATEADD(day, ") _ (literal_Span i (codes "DATEADD(day, ") refl) (
      r i m k t _ (move_question_marks bracketed j k i m t (omega (arith, h.ends)) h) (
        r m m k (codes ", ") _ (literal_Span m (codes ", ") refl) (
          r m k k s _ (move_question_marks bracketed i j m k s (omega (arith, g.ends, h.ends)) g)
            (literal_Span k (codes ")") refl))))

abbrev pub shown_by : Database → (ℕ → ℕ) → Relation
shown_by db mark = spans (style_of db) mark

pub question_mark-Agree :
    (db : Database) → Agree (shown_by db question_mark) (dialect_of db) (dialect_of db)
unfolding dialect_with spans
question_mark-Agree sqlite_db =
    sqlite-Agree _ _ _
      (Keeps-spans double_quoted question_mark (question_mark-IsShown double_quoted))
question_mark-Agree postgres_db =
    postgres-Agree _ _ _
      (Keeps-spans double_quoted question_mark (question_mark-IsShown double_quoted))
question_mark-Agree mysql_db =
    mysql-Agree _ _ _ (Keeps-spans backticked question_mark (question_mark-IsShown backticked))
question_mark-Agree mssql_db =
    mssql-Agree _ _ _ (Keeps-spans bracketed question_mark (question_mark-IsShown bracketed))
      swapped_days
question_mark-Agree oracle_db =
    oracle-Agree _ _ _
      (Keeps-spans double_quoted question_mark (question_mark-IsShown double_quoted))
question_mark-Agree informix_db =
    informix-Agree _ _ _
      (Keeps-spans double_quoted question_mark (question_mark-IsShown double_quoted))

numbered_mark-Agree :
    (db : Database)
    → in_order db ≡ true
    → Agree (shown_by db numbered_mark) (numbered_dialect db) (numbered_dialect db)
unfolding dialect_with
numbered_mark-Agree sqlite_db h =
    sqlite-Agree _ _ _
      (Keeps-spans double_quoted numbered_mark (numbered_mark-IsShown double_quoted))
numbered_mark-Agree postgres_db h =
    postgres-Agree _ _ _
      (Keeps-spans double_quoted numbered_mark (numbered_mark-IsShown double_quoted))
numbered_mark-Agree mysql_db h =
    mysql-Agree _ _ _ (Keeps-spans backticked numbered_mark (numbered_mark-IsShown backticked))
numbered_mark-Agree mssql_db h = absurd (ground (arith, h))
numbered_mark-Agree oracle_db h =
    oracle-Agree _ _ _
      (Keeps-spans double_quoted numbered_mark (numbered_mark-IsShown double_quoted))
numbered_mark-Agree informix_db h =
    informix-Agree _ _ _
      (Keeps-spans double_quoted numbered_mark (numbered_mark-IsShown double_quoted))

-- A call that returns is related to itself.
pub returned :
    (P : GeneratedSql → GeneratedSql → Type 0) (x : Outcome GeneratedSql) (s : GeneratedSql)
    → BothReturn P x x
    → x ≡ ok s
    → P s s
returned P x s h e = subst (λ y. BothReturn P y y) e h

pub shown_statement :
    (db : Database) (q : Request) (s : GeneratedSql)
    → regular_request q ≡ true
    → generate (dialect_of db) q ≡ ok s
    → SameStatement (shown_by db question_mark) s s
shown_statement db q s h e =
    returned (SameStatement (shown_by db question_mark)) (generate (dialect_of db) q) s
      (generate_same _ _ _ (question_mark-Agree db) q h) e

pub numbered_statement :
    (db : Database) (q : Request) (s : GeneratedSql)
    → in_order db ≡ true
    → regular_request q ≡ true
    → generate (numbered_dialect db) q ≡ ok s
    → SameStatement (shown_by db numbered_mark) s s
numbered_statement db q s o h e =
    returned (SameStatement (shown_by db numbered_mark)) (generate (numbered_dialect db) q) s
      (generate_same _ _ _ (numbered_mark-Agree db o) q h) e
