-- ===== src/Context/Slices.antt =====
-- The rounds of a chunked loop: together they are the list, and none is longer than a chunk.
use cpplinq.Common.{
  ℕ, zero, suc, ◌+◌, ◌-◌, ◌<◌, ◌≤◌, min, Bool, true, false, List, [], ◌∷◌, ◌++◌, length, ltb, ◌≡◌,
  refl, ap, sym, ◌∙◌, arith, if◌then◌else◌,
}
use cpplinq.Session.Lists.{take, drop, drop_of_none, drop-drop}
use cpplinq.Context.{DriverCapabilities, slices, chunk_size_of}

module _ {ℓ} {A : Type ℓ} where
  abbrev pub All {κ} : (A → Type κ) → List A → Type κ
  All P [] = Unit
  All P (x ∷ xs) = P x × All P xs

module _ {ℓ} {A : Type ℓ} where
  abbrev pub flatten : List (List A) → List A
  flatten [] = []
  flatten (c ∷ cs) = c ++ flatten cs

  pub take-drop : (n : ℕ) (xs : List A) → take n xs ++ drop n xs ≡ xs
  take-drop zero xs = refl
  take-drop (suc n) [] = refl
  take-drop (suc n) (x ∷ xs) = ap (λ l. x ∷ l) (take-drop n xs)

  abbrev no_elements : List A
  no_elements = []

  take_of_none : (n : ℕ) → take n no_elements ≡ no_elements
  take_of_none zero = refl
  take_of_none (suc n) = refl

  take-min : (n : ℕ) (xs : List A) → take (min n (length xs)) xs ≡ take n xs
  take-min zero xs = ap (λ i. take i xs) (min_zero (length xs))
    where
      min_zero : (k : ℕ) → min 0 k ≡ 0
      min_zero k = omega arith
  take-min (suc n) [] = take_of_none (min (suc n) 0)
  take-min (suc n) (x ∷ xs) =
      ap (λ i. take i (x ∷ xs)) (min_suc n (length xs)) ∙ ap (λ l. x ∷ l) (take-min n xs)
    where
      min_suc : (n k : ℕ) → min (suc n) (suc k) ≡ suc (min n k)
      min_suc n k = omega arith

  pub length-take : (n : ℕ) (xs : List A) → length (take n xs) ≡ min n (length xs)
  length-take zero xs = omega arith
  length-take (suc n) [] = omega arith
  length-take (suc n) (x ∷ xs) = omega (arith, length-take n xs)

  pub length-drop : (n : ℕ) (xs : List A) → length (drop n xs) ≡ length xs - n
  length-drop zero xs = omega arith
  length-drop (suc n) [] = omega arith
  length-drop (suc n) (x ∷ xs) = omega (arith, length-drop n xs)

  drop_past : (n : ℕ) (xs : List A) → length xs ≤ n → drop n xs ≡ []
  drop_past n [] h = drop_of_none n
  drop_past zero (x ∷ xs) h = absurd (omega (arith, h))
  drop_past (suc n) (x ∷ xs) h = drop_past n xs (omega (arith, h))

  -- For every chunk size above 0, and as many rounds as there are elements after the offset: the
  -- rounds together are these elements.
  pub flatten-slices :
      (fuel n offset : ℕ) (xs : List A)
      → 0 < n
      → length xs - offset ≤ fuel
      → flatten (slices fuel n offset xs) ≡ drop offset xs
  unfolding slices
  flatten-slices zero n offset xs p h = sym (drop_past offset xs (omega (arith, h)))
  flatten-slices (suc fuel) n offset xs p h =
      go (ltb offset (length xs)) refl (flatten-slices fuel n (offset + n) xs p)
    where
      go :
          (b : Bool)
          → ltb offset (length xs) ≡ b
          → (length xs - (offset + n) ≤ fuel
              → flatten (slices fuel n (offset + n) xs) ≡ drop (offset + n) xs)
          → flatten (
              if b
              then take (min n (length xs - offset)) (drop offset xs)
                ∷ slices fuel n (offset + n) xs
              else [])
            ≡ drop offset xs
      go true e rest =
          ap (λ i. take (min n i) (drop offset xs) ++ flatten (slices fuel n (offset + n) xs))
            (sym (length-drop offset xs))
          ∙ ap (λ l. l ++ flatten (slices fuel n (offset + n) xs)) (take-min n (drop offset xs))
          ∙ ap (λ l. take n (drop offset xs) ++ l)
              (rest (ground (arith, h, p, e)) ∙ sym (drop-drop offset n xs))
          ∙ take-drop n (drop offset xs)
      go false e rest = sym (drop_past offset xs (ground (arith, e)))

  -- No round is longer than a chunk, and none is empty.
  pub slices-bounded :
      (fuel n offset : ℕ) (xs : List A)
      → 0 < n
      → All (λ c. (0 < length c) × (length c ≤ n)) (slices fuel n offset xs)
  unfolding slices
  slices-bounded zero n offset xs p = tt
  slices-bounded (suc fuel) n offset xs p =
      go (ltb offset (length xs)) refl (slices-bounded fuel n (offset + n) xs p)
    where
      go :
          (b : Bool)
          → ltb offset (length xs) ≡ b
          → All (λ c. (0 < length c) × (length c ≤ n)) (slices fuel n (offset + n) xs)
          → All
              (λ c. (0 < length c) × (length c ≤ n))
              (if b
                then take (min n (length xs - offset)) (drop offset xs)
                  ∷ slices fuel n (offset + n) xs
                else [])
      go true e later =
          let size = length-take (min n (length xs - offset)) (drop offset xs) in
          let rest = length-drop offset xs in
          ((ground (arith, p, e, size, rest), ground (arith, size)), later)
      go false e later = tt

pub chunk_size_of-positive :
    (caps : DriverCapabilities) (chunk_size : ℕ) → 0 < chunk_size_of caps chunk_size
unfolding chunk_size_of
chunk_size_of-positive caps chunk_size = ground arith
