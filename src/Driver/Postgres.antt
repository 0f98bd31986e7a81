-- ===== src/Driver/Postgres.antt =====
-- src/driver/postgres_connection.cpp: convert_placeholders_to_pg.
use cpplinq.Common.{ℕ, suc, Bool, false, not, ◌&&◌, [], ◌∷◌, ◌++◌, ◌==◌, if◌then◌else◌}
use cpplinq.Text.{Text, to_string}

-- The variables of the loop.
pub record Reader : Type 0 where
  pub in_single_quote : Bool
  pub in_double_quote : Bool
  pub param_idx : ℕ

-- What a round appends to `result`. 39 is the single quote; all but the third branch append `c`.
unfoldable pub converted : Reader → ℕ → Text
converted st c =
    if c == 39 && not st.in_double_quote
    then c ∷ []
    else if c == b'"' && not st.in_single_quote
    then c ∷ []
    else if c == b'?' && (not st.in_single_quote && not st.in_double_quote)
    then b'$' ∷ to_string st.param_idx
    else c ∷ []

-- What a round does to the variables.
unfoldable pub advance : Reader → ℕ → Reader
advance st c =
    if c == 39 && not st.in_double_quote
    then record st { in_single_quote = not st.in_single_quote }
    else if c == b'"' && not st.in_single_quote
    then record st { in_double_quote = not st.in_double_quote }
    else if c == b'?' && (not st.in_single_quote && not st.in_double_quote)
    then record st { param_idx = suc st.param_idx }
    else st

unfoldable pub convert_from : Reader → Text → Text
unfolding converted advance
convert_from st [] = []
convert_from st (c ∷ sql) = converted st c ++ convert_from (advance st c) sql

unfoldable pub convert_placeholders_to_pg : Text → Text
unfolding convert_from
convert_placeholders_to_pg sql =
    convert_from (record { in_single_quote = false; in_double_quote = false; param_idx = 1 }) sql
