-- ===== src/Agree/Texts.antt =====
-- Texts put together from related parts: lists of columns, of placeholders, and the like.
use cpplinq.Common.{
  ℕ, suc, ◌+◌, List, [], ◌∷◌, ◌++◌, map, imap, ◌≡◌, refl, subst, Bool, true, false, arith, length,
  if◌then◌else◌,
}
use cpplinq.Text.{Text, codes, quiet, join, join_rest}
use cpplinq.Dialect.Quote.{Dialect, column_list, placeholder_list, pair_list}
use cpplinq.Generator.Visit.{select_text, column_text}
use cpplinq.Agree.Relation.{Relation, Agree}

module _ (r : Relation) where
  open r use {Rel, quiet_rel, append_rel}

  pub cat :
      {i j k : ℕ} {s s' t t' : Text} → Rel i j s s' → Rel j k t t' → Rel i k (s ++ t) (s' ++ t')
  cat p q = append_rel _ _ _ _ _ _ _ p q

  pub end_at : {i j k : ℕ} {t t' : Text} → j ≡ k → Rel i j t t' → Rel i k t t'
  end_at {i} {t = t} {t' = t'} e h = subst (λ k. Rel i k t t') e h

  -- A quiet text before a part, and one behind it.
  pub before :
      {i j : ℕ} {t t' : Text} (s : Text)
      → quiet s ≡ true
      → Rel i j t t'
      → Rel i j (s ++ t) (s ++ t')
  before s q p = cat (quiet_rel _ s q) p

  pub behind :
      {i j : ℕ} {t t' : Text} (s : Text)
      → quiet s ≡ true
      → Rel i j t t'
      → Rel i j (t ++ s) (t' ++ s)
  behind s q p = cat p (quiet_rel _ s q)

  pub choose :
      {i : ℕ} {s s' t t' : Text} (b : Bool)
      → Rel i i s s'
      → Rel i i t t'
      → Rel i i (if b then s else t) (if b then s' else t')
  choose true p q = p
  choose false p q = q

  pub choose_quiet :
      (i : ℕ) (s t : Text) (b : Bool)
      → quiet s ≡ true
      → quiet t ≡ true
      → Rel i i (if b then s else t) (if b then s else t)
  choose_quiet i s t b p q = choose b (quiet_rel i s p) (quiet_rel i t q)

  module _ {ℓ} {A : Type ℓ} (sep : Text) (quiet_sep : quiet sep ≡ true) where
    join_rest_rel :
        (f f' : A → Text)
        → ((i : ℕ) (x : A) → Rel i i (f x) (f' x))
        → (xs : List A) (i : ℕ) → Rel i i (join_rest sep (map f xs)) (join_rest sep (map f' xs))
    unfolding join_rest
    join_rest_rel f f' h [] i = quiet_rel i [] refl
    join_rest_rel f f' h (x ∷ xs) i = before sep quiet_sep (cat (h i x) (join_rest_rel f f' h xs i))

    pub join_rel :
        (f f' : A → Text)
        → ((i : ℕ) (x : A) → Rel i i (f x) (f' x))
        → (xs : List A) (i : ℕ) → Rel i i (join sep (map f xs)) (join sep (map f' xs))
    unfolding join
    join_rel f f' h [] i = quiet_rel i [] refl
    join_rel f f' h (x ∷ xs) i = cat (h i x) (join_rest_rel f f' h xs i)

    join_rest_imap_rel :
        (f f' : ℕ → A → Text)
        → ((i : ℕ) (x : A) → Rel i (suc i) (f i x) (f' i x))
        → (xs : List A) (i : ℕ)
        → Rel i (i + length xs) (join_rest sep (imap f i xs)) (join_rest sep (imap f' i xs))
    unfolding join_rest imap
    join_rest_imap_rel f f' h [] i = end_at (omega arith) (quiet_rel i [] refl)
    join_rest_imap_rel f f' h (x ∷ xs) i =
        end_at (omega arith)
          (before sep quiet_sep (cat (h i x) (join_rest_imap_rel f f' h xs (suc i))))

    -- A list whose items each bind one parameter.
    pub join_imap_rel :
        (f f' : ℕ → A → Text)
        → ((i : ℕ) (x : A) → Rel i (suc i) (f i x) (f' i x))
        → (xs : List A) (i : ℕ)
        → Rel i (i + length xs) (join sep (imap f i xs)) (join sep (imap f' i xs))
    unfolding join imap
    join_imap_rel f f' h [] i = end_at (omega arith) (quiet_rel i [] refl)
    join_imap_rel f f' h (x ∷ xs) i =
        end_at (omega arith) (cat (h i x) (join_rest_imap_rel f f' h xs (suc i)))

  pub column_list_rel :
      (q q' : Text → Text)
      → ((i : ℕ) (id : Text) → Rel i i (q id) (q' id))
      → (columns : List Text) (i : ℕ) → Rel i i (column_list q columns) (column_list q' columns)
  unfolding column_list
  column_list_rel q q' h columns i = join_rel (codes ", ") refl q q' h columns i

  pub placeholder_list_rel :
      (p p' : ℕ → Text)
      → ((i : ℕ) → Rel i (suc i) (p i) (p' i))
      → (columns : List Text)
      → Rel 0 (length columns) (placeholder_list p columns) (placeholder_list p' columns)
  unfolding placeholder_list
  placeholder_list_rel p p' h columns =
      end_at (omega arith)
        (join_imap_rel (codes ", ") refl (λ i c. p i) (λ i c. p' i) (λ i c. h i) columns 0)

  pub pair_list_rel :
      (q q' : Text → Text) (sep left middle right : Text)
      → quiet sep ≡ true
      → quiet left ≡ true
      → quiet middle ≡ true
      → quiet right ≡ true
      → ((i : ℕ) (id : Text) → Rel i i (q id) (q' id))
      → (columns : List Text) (i : ℕ)
      → Rel i i
          (pair_list q sep left middle right columns)
          (pair_list q' sep left middle right columns)
  unfolding pair_list
  pair_list_rel q q' sep left middle right hs hl hm hr h columns i =
      join_rel sep hs _ _
        (λ k c. before left hl (cat (h k c) (before middle hm (behind right hr (h k c))))) columns i

module _ (r : Relation) (d d' : Dialect) (agree : Agree r d d') where
  open agree use {quote_id_rel}

  pub column_text_rel :
      (i : ℕ) (table_name column_name : Text)
      → r.Rel i i (column_text d table_name column_name) (column_text d' table_name column_name)
  unfolding column_text
  column_text_rel i table_name column_name =
      choose r _ (quote_id_rel i column_name)
        (cat r (quote_id_rel i table_name) (before r (codes ".") refl (quote_id_rel i column_name)))

  pub select_text_rel :
      (star table_name : Text) (select_columns : List Text) (is_distinct : Bool)
      → quiet star ≡ true
      → (i : ℕ)
      → r.Rel i i
          (select_text d star table_name select_columns is_distinct)
          (select_text d' star table_name select_columns is_distinct)
  unfolding select_text
  select_text_rel star table_name select_columns is_distinct q i =
      cat r (choose_quiet r i (codes "DISTINCT ") (codes "") is_distinct refl refl) (
        cat r
          (choose r _ (r.quiet_rel i star q) (column_list_rel r _ _ quote_id_rel select_columns i))
          (before r (codes " FROM ") refl (quote_id_rel i table_name)))
