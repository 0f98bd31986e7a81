-- ===== src/Chunks/Elements.antt =====
-- A buffer behaves as the list of its elements.
use native.Mathlib.Nat.{div-eq_of_lt, mod-eq_of_lt, add-div_left, add-mod_left}
use cpplinq.Common.{
  ℕ, zero, suc, ◌+◌, ◌-◌, ◌/◌, ◌%◌, ◌<◌, ◌≤◌, ◌≡◌, refl, ap, sym, ◌∙◌, List, [], ◌∷◌, ◌++◌, length,
  get_elem?, ltb, arith, append-nil, length-append, Bool-cases, inl, inr,
}
use cpplinq.Chunks.{ChunkedBuffer, construct, element_of, take, gather}

plus_one : (k : ℕ) → k + 1 ≡ suc k
plus_one k = omega arith

module _ {ℓ} {A : Type ℓ} where
  abbrev pub flatten : List (List A) → List A
  flatten [] = []
  flatten (c ∷ cs) = c ++ flatten cs

  -- All chunks but the last are full, and the last holds `count` elements.
  abbrev pub Shape : ℕ → ℕ → List (List A) → Type 0
  Shape n count [] = count ≡ 0
  Shape n count (c ∷ []) = (length c ≡ count) × (count ≤ n)
  Shape n count (c ∷ d ∷ ds) = (length c ≡ n) × Shape n count (d ∷ ds)

  pub record IsValid (n : ℕ) (b : ChunkedBuffer A) : Type 0 where
    pub shape : Shape n b.current_chunk_count b.chunks
    pub sized : b.total_size ≡ length (flatten b.chunks)

  pub construct_at_end : (x : A) (c : List A) (i : ℕ) → length c ≡ i → construct i x c ≡ c ++ x ∷ []
  unfolding construct
  construct_at_end x [] zero h = refl
  construct_at_end x [] (suc i) h = absurd (omega (arith, h))
  construct_at_end x (y ∷ c) zero h = absurd (omega (arith, h))
  construct_at_end x (y ∷ c) (suc i) h = ap (λ l. y ∷ l) (construct_at_end x c i (omega (arith, h)))

  get-append_left : (c d : List A) (i : ℕ) → i < length c → get_elem? (c ++ d) i ≡ get_elem? c i
  get-append_left [] d i h = absurd (omega (arith, h))
  get-append_left (x ∷ c) d zero h = refl
  get-append_left (x ∷ c) d (suc i) h = get-append_left c d i (omega (arith, h))

  get-append_right :
      (c d : List A) (i j : ℕ) → i ≡ length c + j → get_elem? (c ++ d) i ≡ get_elem? d j
  get-append_right [] d i j h = ap (get_elem? d) (omega (arith, h))
  get-append_right (x ∷ c) d zero j h = absurd (omega (arith, h))
  get-append_right (x ∷ c) d (suc i) j h = get-append_right c d i j (omega (arith, h))

  take-length : (c : List A) (i : ℕ) → length c ≡ i → take i c ≡ c
  take-length [] zero h = refl
  take-length [] (suc i) h = refl
  take-length (x ∷ c) zero h = absurd (omega (arith, h))
  take-length (x ∷ c) (suc i) h = ap (λ l. x ∷ l) (take-length c i (omega (arith, h)))

  pub gather-flatten :
      (n count : ℕ) (cs : List (List A)) → Shape n count cs → gather n count cs ≡ flatten cs
  unfolding gather
  gather-flatten n count [] h = refl
  gather-flatten n count (c ∷ []) h = take-length c count h.0 ∙ sym (append-nil c)
  gather-flatten n count (c ∷ d ∷ ds) h =
      ap (λ l. l ++ gather n count (d ∷ ds)) (take-length c n h.0)
      ∙ ap (λ l. c ++ l) (gather-flatten n count (d ∷ ds) h.1)

  -- The element at an offset that lies in the first chunk, and one that lies behind it.
  first_chunk :
      (n : ℕ) (c : List A) (cs : List (List A)) (i : ℕ)
      → i < n
      → element_of (get_elem? (c ∷ cs) (i / n)) (i % n) ≡ get_elem? c i
  first_chunk n c cs i h =
      ap (λ k. element_of (get_elem? (c ∷ cs) k) (i % n)) (div-eq_of_lt h)
      ∙ ap (get_elem? c) (mod-eq_of_lt h)

  later_chunk :
      (n : ℕ) (c : List A) (cs : List (List A)) (i j : ℕ)
      → 0 < n
      → i ≡ n + j
      → element_of (get_elem? (c ∷ cs) (i / n)) (i % n) ≡ element_of (get_elem? cs (j / n)) (j % n)
  later_chunk n c cs i j p h =
      ap (λ k. element_of (get_elem? (c ∷ cs) (k / n)) (k % n)) h
      ∙ ap (λ k. element_of (get_elem? (c ∷ cs) k) ((n + j) % n))
          (add-div_left j p ∙ plus_one (j / n))
      ∙ ap (λ k. element_of (get_elem? cs (j / n)) k) (add-mod_left n j)

  pub element-flatten :
      (n count : ℕ) (cs : List (List A)) (i : ℕ)
      → 0 < n
      → Shape n count cs
      → i < length (flatten cs)
      → element_of (get_elem? cs (i / n)) (i % n) ≡ get_elem? (flatten cs) i
  element-flatten n count [] i p h less = absurd (omega (arith, less))
  element-flatten n count (c ∷ []) i p h less =
      first_chunk n c [] i (omega (arith, less, h.0, h.1, length-append c []))
      ∙ ap (λ l. get_elem? l i) (sym (append-nil c))
  element-flatten n count (c ∷ d ∷ ds) i p h less = elim (Bool-cases (ltb i n)) [
    | inl near ↦
        first_chunk n c (d ∷ ds) i (ground (arith, near))
        ∙ sym (get-append_left c (flatten (d ∷ ds)) i (ground (arith, near, h.0)))
    | inr far ↦
        later_chunk n c (d ∷ ds) i (i - n) p (ground (arith, far))
        ∙ element-flatten n count (d ∷ ds) (i - n) p h.1
            (ground (arith, far, less, h.0, length-append c (flatten (d ∷ ds))))
        ∙ sym (get-append_right c (flatten (d ∷ ds)) i (i - n) (ground (arith, far, h.0)))
  ]
