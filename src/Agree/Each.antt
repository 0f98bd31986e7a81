-- ===== src/Agree/Each.antt =====
-- Lists of texts that are related item by item, and what they join to.
use cpplinq.Common.{ℕ, List, [], ◌∷◌, ◌++◌, map, ◌≡◌, true, refl}
use cpplinq.Text.{Text, quiet, join, join_rest}
use cpplinq.Agree.Relation.{Relation}
use cpplinq.Agree.Texts.{cat, before}

-- Lists of texts that are related item by item.
abbrev pub Each : Relation → List Text → List Text → Type 0
Each r [] [] = Unit {0}
Each r (t ∷ ts) (t' ∷ ts') = ((i : ℕ) → r.Rel i i t t') × Each r ts ts'
Each r _ _ = ⊥

pub Each-append :
    (r : Relation) (ss ss' ts ts' : List Text)
    → Each r ss ss'
    → Each r ts ts'
    → Each r (ss ++ ts) (ss' ++ ts')
Each-append r [] [] ts ts' p q = q
Each-append r [] (s' ∷ ss') ts ts' p q = absurd p
Each-append r (s ∷ ss) [] ts ts' p q = absurd p
Each-append r (s ∷ ss) (s' ∷ ss') ts ts' p q = (p.0, Each-append r ss ss' ts ts' p.1 q)

Each-join_rest :
    (r : Relation) (sep : Text) (ts ts' : List Text)
    → quiet sep ≡ true
    → Each r ts ts'
    → (i : ℕ) → r.Rel i i (join_rest sep ts) (join_rest sep ts')
unfolding join_rest
Each-join_rest r sep [] [] q p i = r.quiet_rel i [] refl
Each-join_rest r sep [] (t' ∷ ts') q p i = absurd p
Each-join_rest r sep (t ∷ ts) [] q p i = absurd p
Each-join_rest r sep (t ∷ ts) (t' ∷ ts') q p i =
    before r sep q (cat r (p.0 i) (Each-join_rest r sep ts ts' q p.1 i))

pub Each-join :
    (r : Relation) (sep : Text) (ts ts' : List Text)
    → quiet sep ≡ true
    → Each r ts ts'
    → (i : ℕ) → r.Rel i i (join sep ts) (join sep ts')
unfolding join
Each-join r sep [] [] q p i = r.quiet_rel i [] refl
Each-join r sep [] (t' ∷ ts') q p i = absurd p
Each-join r sep (t ∷ ts) [] q p i = absurd p
Each-join r sep (t ∷ ts) (t' ∷ ts') q p i = cat r (p.0 i) (Each-join_rest r sep ts ts' q p.1 i)

pub Each-map :
    (r : Relation) (f f' : Text → Text)
    → ((i : ℕ) (x : Text) → r.Rel i i (f x) (f' x))
    → (xs : List Text) → Each r (map f xs) (map f' xs)
Each-map r f f' h [] = tt
Each-map r f f' h (x ∷ xs) = (λ i. h i x, Each-map r f f' h xs)
