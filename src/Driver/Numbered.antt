-- ===== src/Driver/Numbered.antt =====
-- The conversion applied to the statements of the generator.
use cpplinq.Common.{
  ℕ, suc, true, false, [], ◌∷◌, ◌++◌, ◌≡◌, refl, ap, sym, ◌∙◌, arith, append-nil, append_assoc, ok,
  Outcome, throws, subst,
}
use cpplinq.Text.{Text, to_string}
use cpplinq.Scan.{double_quoted, Mode, plain, in_literal, in_identifier, next, marks, final}
use cpplinq.Scan.Silent.{IsSilent, quiet-IsSilent}
use cpplinq.Generator.State.{GeneratedSql}
use cpplinq.Generator.Request.{Request, generate}
use cpplinq.Dialect.Quote.{Dialect}
use cpplinq.Dialect.Postgres.{postgres, postgres_with}
use cpplinq.Agree.Relation.{Relation, BothReturn}
use cpplinq.Agree.Requests.{regular_request}
use cpplinq.Agree.Follow.{SameStatement}
use cpplinq.Agree.Statements.All.{generate_same}
use cpplinq.Laws.Keeps.{Keeps}
use cpplinq.Laws.Postgres.{postgres-Agree}
use cpplinq.Driver.Postgres.{Reader, converted, advance, convert_from, convert_placeholders_to_pg}

-- The flags of the loop for each mode of the reader of SQL.
unfoldable reader : Mode → ℕ → Reader
reader plain i = record { in_single_quote = false; in_double_quote = false; param_idx = suc i }
reader in_literal i = record { in_single_quote = true; in_double_quote = false; param_idx = suc i }
reader in_identifier i = record {
  in_single_quote = false;
  in_double_quote = true;
  param_idx = suc i;
}

unfoldable end_of : Reader → Text → Reader
unfolding advance
end_of st [] = st
end_of st (c ∷ t) = end_of (advance st c) t

convert_from-append :
    (st : Reader) (t u : Text)
    → convert_from st (t ++ u) ≡ convert_from st t ++ convert_from (end_of st t) u
unfolding convert_from end_of
convert_from-append st [] u = refl
convert_from-append st (c ∷ t) u =
    ap (λ x. converted st c ++ x) (convert_from-append (advance st c) t u)
    ∙ sym (append_assoc (converted st c) _ _)

end_of-append : (st : Reader) (t u : Text) → end_of st (t ++ u) ≡ end_of (end_of st t) u
unfolding end_of
end_of-append st [] u = refl
end_of-append st (c ∷ t) u = end_of-append (advance st c) t u

-- A text without placeholders is copied.
convert_from-silent :
    (m : Mode) (i : ℕ) (t : Text) → marks double_quoted m t ≡ [] → convert_from (reader m i) t ≡ t
unfolding convert_from converted advance marks next reader
convert_from-silent m i [] h = refl
convert_from-silent plain i (c ∷ t) h = ground (
  arith,
  h,
  convert_from-silent plain i t,
  convert_from-silent in_literal i t,
  convert_from-silent in_identifier i t,
)
convert_from-silent in_literal i (c ∷ t) h =
    ground (arith, h, convert_from-silent plain i t, convert_from-silent in_literal i t)
convert_from-silent in_identifier i (c ∷ t) h =
    ground (arith, h, convert_from-silent plain i t, convert_from-silent in_identifier i t)

end_of-silent :
    (m : Mode) (i : ℕ) (t : Text)
    → marks double_quoted m t ≡ []
    → end_of (reader m i) t ≡ reader (final double_quoted m t) i
unfolding end_of advance marks final next reader
end_of-silent m i [] h = refl
end_of-silent plain i (c ∷ t) h = ground (
  arith,
  h,
  end_of-silent plain i t,
  end_of-silent in_literal i t,
  end_of-silent in_identifier i t,
)
end_of-silent in_literal i (c ∷ t) h =
    ground (arith, h, end_of-silent plain i t, end_of-silent in_literal i t)
end_of-silent in_identifier i (c ∷ t) h =
    ground (arith, h, end_of-silent plain i t, end_of-silent in_identifier i t)

-- `$1`, `$2`, and so on: the placeholder that libpq reads.
abbrev pub dollar : ℕ → Text
dollar i = b'$' ∷ to_string (suc i)

abbrev pub postgres_numbered : Dialect
postgres_numbered = postgres_with dollar

-- From parameter i on, the conversion of t is t', and it stops outside quotes at parameter j.
record Converts (i j : ℕ) (t t' : Text) : Type 0 where
  text : convert_from (reader plain i) t ≡ t'
  stops : end_of (reader plain i) t ≡ reader plain j

silent-Converts : (i : ℕ) (t : Text) → IsSilent double_quoted t → Converts i i t t
silent-Converts i t h = record {
  text = convert_from-silent plain i t h.no_marks;
  stops = end_of-silent plain i t h.no_marks ∙ ap (λ m. reader m i) h.closed;
}

append-Converts :
    (i j k : ℕ) (s s' t t' : Text)
    → Converts i j s s'
    → Converts j k t t'
    → Converts i k (s ++ t) (s' ++ t')
append-Converts i j k s s' t t' g h = record {
  text =
      convert_from-append (reader plain i) s t
      ∙ ap (λ x. convert_from (reader plain i) s ++ convert_from x t) g.stops
      ∙ ap (λ x. convert_from (reader plain i) s ++ x) h.text
      ∙ ap (λ x. x ++ t') g.text;
  stops = end_of-append (reader plain i) s t ∙ ap (λ x. end_of x t) g.stops ∙ h.stops;
}

converts : Relation
converts = record {
  Rel = Converts;
  quiet_rel = λ i t q. silent-Converts i t (quiet-IsSilent double_quoted t q);
  append_rel = append-Converts;
}

Keeps-converts : Keeps converts double_quoted (λ i. b'?' ∷ []) dollar
unfolding converts reader convert_from end_of converted advance
Keeps-converts = record {
  silent_rel = silent-Converts;
  placeholder_rel = λ i. record { text = append-nil (dollar i); stops = refl };
}

converted_statement :
    (s s' : GeneratedSql)
    → SameStatement converts s s'
    → s' ≡ record s { sql = convert_placeholders_to_pg s.sql }
unfolding converts convert_placeholders_to_pg reader
converted_statement s s' h =
    ap (λ t. record s' { sql = t }) (sym h.related.text)
    ∙ ap (λ p. record s' { sql = convert_placeholders_to_pg s.sql; params = p }) (sym h.same_params)
    ∙ ap (λ p. record s { sql = convert_placeholders_to_pg s.sql; slots = p }) (sym h.same_slots)

converted_outcome :
    (x y : Outcome GeneratedSql) (s : GeneratedSql)
    → BothReturn (SameStatement converts) x y
    → x ≡ ok s
    → y ≡ ok (record s { sql = convert_placeholders_to_pg s.sql })
converted_outcome x (ok s') s h e =
    ap ok
      (converted_statement s s' (subst (λ z. BothReturn (SameStatement converts) z (ok s')) e h))
converted_outcome x (throws f) s h e =
    absurd (subst (λ z. BothReturn (SameStatement converts) z (throws f)) e h)

-- For every regular request: where the PostgreSQL dialect returns a statement, converting its text
-- gives exactly the statement that the generator writes with $1, $2, and so on as placeholders;
-- the parameters and the slots are the same.
pub convert_placeholders_to_pg-generate :
    (q : Request) (s : GeneratedSql)
    → regular_request q ≡ true
    → generate postgres q ≡ ok s
    → generate postgres_numbered q ≡ ok (record s { sql = convert_placeholders_to_pg s.sql })
unfolding postgres cpplinq.Dialect.Postgres.placeholder
convert_placeholders_to_pg-generate q s h e =
    converted_outcome (generate postgres q) (generate postgres_numbered q) s
      (generate_same converts postgres postgres_numbered
        (postgres-Agree converts _ dollar Keeps-converts) q h)
      e
