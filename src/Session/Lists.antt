-- ===== src/Session/Lists.antt =====
-- Parts of lists, counted by native numbers.
use cpplinq.Common.{ℕ, zero, suc, ◌+◌, List, [], ◌∷◌, ◌≡◌, refl, ap, sym, ◌∙◌, arith}

module _ {ℓ} {A : Type ℓ} where
  abbrev pub take : ℕ → List A → List A
  take zero xs = []
  take (suc n) [] = []
  take (suc n) (x ∷ xs) = x ∷ take n xs

  abbrev pub drop : ℕ → List A → List A
  drop zero xs = xs
  drop (suc n) [] = []
  drop (suc n) (x ∷ xs) = drop n xs

  -- Rows of `cols` elements.
  abbrev pub rows : ℕ → ℕ → List A → List (List A)
  rows zero cols xs = []
  rows (suc n) cols xs = take cols xs ∷ rows n cols (drop cols xs)

  -- The value at index `i`, replaced or added at the end. There is nothing to bind past the end.
  abbrev pub place : ℕ → A → List A → List A
  place zero x [] = x ∷ []
  place zero x (y ∷ ys) = x ∷ ys
  place (suc i) x [] = []
  place (suc i) x (y ∷ ys) = y ∷ place i x ys

  abbrev nil : List A
  nil = []

  pub drop_of_none : (n : ℕ) → drop n nil ≡ nil
  drop_of_none zero = refl
  drop_of_none (suc n) = refl

  pub drop-drop : (n k : ℕ) (xs : List A) → drop k (drop n xs) ≡ drop (n + k) xs
  drop-drop zero k xs = ap (λ i. drop i xs) (omega arith)
  drop-drop (suc n) k [] = drop_of_none k ∙ sym (drop_of_none (suc n + k))
  drop-drop (suc n) k (x ∷ xs) = drop-drop n k xs ∙ ap (λ i. drop i (x ∷ xs)) (suc_plus n k)
    where
      suc_plus : (n k : ℕ) → suc (n + k) ≡ suc n + k
      suc_plus n k = omega arith
