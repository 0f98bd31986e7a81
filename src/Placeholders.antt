-- ===== src/Placeholders.antt =====
-- The six dialects as one table, and the placeholders of the statements that they are given.
pub mod Rules
pub mod Count
pub mod Order
pub mod Errors
use cpplinq.Common.{ℕ, Bool, true, false, ◌+◌, List, [], ◌∷◌, length}
use cpplinq.Text.{Text}
use cpplinq.Dialect.Quote.{Dialect}
use cpplinq.Dialect.Sqlite.{sqlite_with}
use cpplinq.Dialect.Postgres.{postgres_with}
use cpplinq.Dialect.Mysql.{mysql_with}
use cpplinq.Dialect.Mssql.{mssql_with}
use cpplinq.Dialect.Oracle.{oracle_with}
use cpplinq.Dialect.Informix.{informix_with}
use cpplinq.Scan.{Style, double_quoted, backticked, bracketed, plain, marks}

pub data Database : Type 0 where
  sqlite_db postgres_db mysql_db mssql_db oracle_db informix_db : Database

-- The dialect of a database, with `placeholder` overridden.
unfoldable pub dialect_with : Database → (ℕ → Text) → Dialect
dialect_with sqlite_db = sqlite_with
dialect_with postgres_db = postgres_with
dialect_with mysql_db = mysql_with
dialect_with mssql_db = mssql_with
dialect_with oracle_db = oracle_with
dialect_with informix_db = informix_with

-- Each dialect writes a question mark for every parameter.
abbrev pub question_mark : ℕ → ℕ
question_mark i = b'?'

-- A placeholder that carries the number of its parameter, as a code above the bytes.
abbrev pub numbered_mark : ℕ → ℕ
numbered_mark i = 256 + i

abbrev pub dialect_of : Database → Dialect
dialect_of db = dialect_with db (λ i. question_mark i ∷ [])

abbrev pub numbered_dialect : Database → Dialect
numbered_dialect db = dialect_with db (λ i. numbered_mark i ∷ [])

abbrev pub style_of : Database → Style
style_of sqlite_db = double_quoted
style_of postgres_db = double_quoted
style_of mysql_db = backticked
style_of mssql_db = bracketed
style_of oracle_db = double_quoted
style_of informix_db = double_quoted

-- The parameters stand in the text in the order in which they are bound.
abbrev pub in_order : Database → Bool
in_order sqlite_db = true
in_order postgres_db = true
in_order mysql_db = true
in_order mssql_db = false
in_order oracle_db = true
in_order informix_db = true

-- How many placeholders a database finds in a statement.
unfoldable pub count_placeholders : Style → Text → ℕ
count_placeholders s t = length (marks s plain t)
