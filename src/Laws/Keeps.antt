-- ===== src/Laws/Keeps.antt =====
-- Relations that hold of every silent text and of the placeholders, and what follows for the parts
-- that several dialects share.
use cpplinq.Common.{
  ℕ, suc, List, [], ◌++◌, ◌≡◌, refl, subst, throws, true, Outcome, ok, length, is_empty, Bool,
}
use cpplinq.Text.{Text, codes, quiet, to_string}
use cpplinq.Text.Quiet.{quiet-append, quiet-to_string}
use cpplinq.Value.{BoundValue}
use cpplinq.Dialect.Quote.{quote_with, default_create_table_prefix, default_generate_upsert}
use cpplinq.Expr.{DatePart, year, month, day}
use cpplinq.Generator.Visit.{part_text}
use cpplinq.Scan.{Style, double_quoted, open_of, close_of, silent}
use cpplinq.Scan.Silent.{IsSilent, silent-IsSilent}
use cpplinq.Scan.Quoted.{quote_with-IsSilent}
use cpplinq.Agree.Relation.{Relation, BothReturn}
use cpplinq.Agree.Texts.{cat, before, choose, column_list_rel, placeholder_list_rel, pair_list_rel}

pub record Keeps (r : Relation) (s : Style) (p p' : ℕ → Text) : Type 0 where
  pub silent_rel : (i : ℕ) (t : Text) → IsSilent s t → r.Rel i i t t
  pub placeholder_rel : (i : ℕ) → r.Rel i (suc i) (p i) (p' i)

-- A number after a quiet word.
pub quiet_number : (s : Text) (n : ℕ) → quiet s ≡ true → quiet (s ++ to_string n) ≡ true
quiet_number s n h = quiet-append s (to_string n) h (quiet-to_string n)

pub part_text-quiet : (part : DatePart) → quiet (part_text part) ≡ true
unfolding part_text
part_text-quiet year = refl
part_text-quiet month = refl
part_text-quiet day = refl

QuietOrThrows : Outcome Text → Type 0
QuietOrThrows (ok t) = quiet t ≡ true
QuietOrThrows (throws e) = Bool

pub quiet_ok : (s t : Text) → quiet s ≡ true → ok s ≡ ok t → quiet t ≡ true
unfolding QuietOrThrows
quiet_ok s t q h = subst QuietOrThrows h q

pub quiet_between :
    (s : Text) (n : ℕ) (t : Text)
    → quiet s ≡ true
    → quiet t ≡ true
    → quiet (s ++ (to_string n ++ t)) ≡ true
quiet_between s n t h k =
    quiet-append s (to_string n ++ t) h (quiet-append (to_string n) t (quiet-to_string n) k)

module _ (r : Relation) (s : Style) (p p' : ℕ → Text) (keeps : Keeps r s p p') where
  open keeps use {silent_rel, placeholder_rel}

  pub quoted_rel :
      (i : ℕ) (id : Text)
      → r.Rel i i (quote_with (open_of s) (close_of s) id) (quote_with (open_of s) (close_of s) id)
  quoted_rel i id = silent_rel i _ (quote_with-IsSilent s id)

  -- A literal text that may hold quotes.
  pub literal_rel : (i : ℕ) (t : Text) → silent s t ≡ true → r.Rel i i t t
  literal_rel i t h = silent_rel i t (silent-IsSilent s t h)

  pub around :
      {i j : ℕ} {t t' : Text} (a b : Text)
      → silent s a ≡ true
      → silent s b ≡ true
      → r.Rel i j t t'
      → r.Rel i j (a ++ (t ++ b)) (a ++ (t' ++ b))
  around {i} {j} a b ha hb h = cat r (literal_rel i a ha) (cat r h (literal_rel j b hb))

  -- Two texts with one before, one between and one behind them.
  pub around_two :
      {i j k : ℕ} {t t' u u' : Text} (a b c : Text)
      → silent s a ≡ true
      → silent s b ≡ true
      → silent s c ≡ true
      → r.Rel i j t t'
      → r.Rel j k u u'
      → r.Rel i k (a ++ (t ++ (b ++ (u ++ c)))) (a ++ (t' ++ (b ++ (u' ++ c))))
  around_two {i} {j} {k} a b c ha hb hc g h =
      cat r (literal_rel i a ha) (cat r g (around b c hb hc h))

module _ (r : Relation) (p p' : ℕ → Text) (keeps : Keeps r double_quoted p p') where
  open keeps use {placeholder_rel}

  abbrev quoted : Text → Text
  quoted = quote_with b'"' b'"'

  pub default_create_table_prefix_rel :
      (i : ℕ) (table_name : Text)
      → r.Rel i i
          (default_create_table_prefix quoted table_name)
          (default_create_table_prefix quoted table_name)
  unfolding default_create_table_prefix
  default_create_table_prefix_rel i table_name =
      before r (codes "CREATE TABLE IF NOT EXISTS ") refl
        (quoted_rel r double_quoted p p' keeps i table_name)

  pub default_upsert_rel :
      (table_name : Text) (insert_columns : List Text) (values : List BoundValue)
      (conflict_columns update_columns : List Text)
      → BothReturn
          (r.Rel 0 (length insert_columns))
          (default_generate_upsert quoted p table_name insert_columns values conflict_columns
            update_columns)
          (default_generate_upsert quoted p' table_name insert_columns values conflict_columns
            update_columns)
  unfolding default_generate_upsert
  default_upsert_rel table_name is values cs us =
      let q = quoted_rel r double_quoted p p' keeps in
      before r (codes "INSERT INTO ") refl (
        cat r (q 0 table_name) (
          before r (codes " (") refl (
            cat r (column_list_rel r _ _ q is 0) (
              before r (codes ") VALUES (") refl (
                cat r (placeholder_list_rel r p p' placeholder_rel is) (
                  before r (codes ") ON CONFLICT (") refl (
                    cat r (column_list_rel r _ _ q cs (length is)) (
                      choose r (is_empty us) (r.quiet_rel _ (codes ") DO NOTHING") refl) (
                        before r (codes ") DO UPDATE SET ") refl (
                          pair_list_rel r _ _ (codes ", ") [] (codes " = EXCLUDED.") [] refl refl
                            refl refl q us (length is)))))))))))
