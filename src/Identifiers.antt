-- ===== src/Identifiers.antt =====
-- Reading back the identifiers that quote_id writes.
use cpplinq.Common.{
  append_assoc, ℕ, Bool, true, false, [], ◌∷◌, ◌++◌, ◌≡◌, ap, ◌∙◌, arith, Option, none, some, ◌==◌,
  if◌then◌else◌,
}
use cpplinq.Text.{Text}
use cpplinq.Dialect.Quote.{escape, quote_with}
use cpplinq.Dialect.Sqlite
use cpplinq.Dialect.Postgres
use cpplinq.Dialect.Mysql
use cpplinq.Dialect.Mssql
use cpplinq.Dialect.Oracle
use cpplinq.Dialect.Informix
use cpplinq.Scan.{Style, open_of, close_of}
use cpplinq.Placeholders.{
  Database, sqlite_db, postgres_db, mysql_db, mssql_db, oracle_db, informix_db, dialect_with,
  dialect_of, style_of,
}

abbrev with_char : ℕ → Option (Text × Text) → Option (Text × Text)
with_char c none = none
with_char c (some (id, rest)) = some (c ∷ id, rest)

-- The name up to the closing quote `q`, where two of them stand for one, and what follows it.
-- `pending` says that a quote has just been read.
unfoldable pub read_name : ℕ → Bool → Text → Option (Text × Text)
read_name q false [] = none
read_name q true [] = some ([], [])
read_name q false (c ∷ t) =
    let stop = read_name q true t in
    let more = read_name q false t in if c == q then stop else with_char c more
read_name q true (c ∷ t) =
    let more = read_name q false t in if c == q then with_char q more else some ([], c ∷ t)

unfoldable pub read_quoted : Style → Text → Option (Text × Text)
unfolding read_name
read_quoted s [] = none
read_quoted s (c ∷ t) =
    let name = read_name (close_of s) false t in if c == open_of s then name else none

-- The text does not go on with the closing quote.
abbrev pub ends_name : ℕ → Text → Bool
ends_name q [] = true
ends_name q (c ∷ t) = if c == q then false else true

read_name-stop :
    (q : ℕ) (rest : Text) → ends_name q rest ≡ true → read_name q false (q ∷ rest) ≡ some ([], rest)
unfolding read_name
read_name-stop q [] h = ground arith
read_name-stop q (c ∷ t) h = ground (arith, h)

read_name-char :
    (q c : ℕ) (t : Text)
    → read_name q false ((if c == q then q ∷ q ∷ [] else c ∷ []) ++ t)
      ≡ with_char c (read_name q false t)
unfolding read_name
read_name-char q c t = ground arith

read_name-escape :
    (q : ℕ) (id rest : Text)
    → ends_name q rest ≡ true
    → read_name q false (escape q id ++ q ∷ rest) ≡ some (id, rest)
unfolding escape
read_name-escape q [] rest h = read_name-stop q rest h
read_name-escape q (c ∷ id) rest h =
    ap (read_name q false)
      (append_assoc (if c == q then q ∷ q ∷ [] else c ∷ []) (escape q id) (q ∷ rest))
    ∙ read_name-char q c (escape q id ++ q ∷ rest)
    ∙ ap (with_char c) (read_name-escape q id rest h)

open_read : (s : Style) (t : Text) → read_quoted s (open_of s ∷ t) ≡ read_name (close_of s) false t
unfolding read_quoted
open_read s t = ground arith

read_quoted-quote_with :
    (s : Style) (id rest : Text)
    → ends_name (close_of s) rest ≡ true
    → read_quoted s (quote_with (open_of s) (close_of s) id ++ rest) ≡ some (id, rest)
unfolding quote_with
read_quoted-quote_with s id rest h =
    open_read s ((escape (close_of s) id ++ close_of s ∷ []) ++ rest)
    ∙ ap (read_name (close_of s) false)
        (append_assoc (escape (close_of s) id) (close_of s ∷ []) rest)
    ∙ read_name-escape (close_of s) id rest h

-- For each of the six dialects, every name and every text that does not begin with the closing
-- quote: reading the quoted name followed by the text gives back the name and the text.
pub read_quoted-quote_id :
    (db : Database) (id rest : Text)
    → ends_name (close_of (style_of db)) rest ≡ true
    → read_quoted (style_of db) ((dialect_of db).quote_id id ++ rest) ≡ some (id, rest)
unfolding dialect_with Sqlite.sqlite_with Postgres.postgres_with Mysql.mysql_with Mssql.mssql_with
    Oracle.oracle_with Informix.informix_with Sqlite.quote_id Postgres.quote_id Mysql.quote_id
    Mssql.quote_id Oracle.quote_id Informix.quote_id
read_quoted-quote_id sqlite_db = read_quoted-quote_with (style_of sqlite_db)
read_quoted-quote_id postgres_db = read_quoted-quote_with (style_of postgres_db)
read_quoted-quote_id mysql_db = read_quoted-quote_with (style_of mysql_db)
read_quoted-quote_id mssql_db = read_quoted-quote_with (style_of mssql_db)
read_quoted-quote_id oracle_db = read_quoted-quote_with (style_of oracle_db)
read_quoted-quote_id informix_db = read_quoted-quote_with (style_of informix_db)
