-- ===== src/Chunks/Growth.antt =====
-- Adding an element, and the buffer that a list fills.
use cpplinq.Common.{
  ℕ, suc, ◌<◌, ◌≡◌, refl, ap, sym, ◌∙◌, subst, Bool, true, false, ◌||◌, List, [], ◌∷◌, ◌++◌, ok,
  throws, out_of_range, length, is_empty, get_elem?, ltb, ◌==◌, if◌then◌else◌, arith, append_assoc,
  append-nil, length-append,
}
use cpplinq.Chunks.{
  ChunkedBuffer, empty_buffer, allocate_chunk, construct, change_back, construct_back, emplace_back,
  at, subscript, to_vector,
}
use cpplinq.Chunks.Elements.{
  flatten, Shape, IsValid, construct_at_end, element-flatten, gather-flatten,
}

module _ {ℓ} {A : Type ℓ} where
  change_back-flatten :
      (x : A) (n k : ℕ) (c : List A) (cs : List (List A))
      → Shape n k (c ∷ cs)
      → flatten (change_back (construct k x) (c ∷ cs)) ≡ flatten (c ∷ cs) ++ x ∷ []
  unfolding change_back
  change_back-flatten x n k c [] h =
      append-nil (construct k x c)
      ∙ construct_at_end x c k h.0
      ∙ ap (λ l. l ++ x ∷ []) (sym (append-nil c))
  change_back-flatten x n k c (d ∷ ds) h =
      ap (λ l. c ++ l) (change_back-flatten x n k d ds h.1)
      ∙ sym (append_assoc c (flatten (d ∷ ds)) (x ∷ []))

  change_back-Shape :
      (x : A) (n k : ℕ) (c : List A) (cs : List (List A))
      → Shape n k (c ∷ cs)
      → k < n
      → Shape n (suc k) (change_back (construct k x) (c ∷ cs))
  unfolding change_back
  change_back-Shape x n k c [] h room = (
    omega (arith, ap length (construct_at_end x c k h.0), length-append c (x ∷ []), h.0),
    omega (arith, room),
  )
  change_back-Shape x n k c (d ∷ []) h room = (h.0, change_back-Shape x n k d [] h.1 room)
  change_back-Shape x n k c (d ∷ e ∷ es) h room = (h.0, change_back-Shape x n k d (e ∷ es) h.1 room)

  allocate-Shape :
      (n k : ℕ) (cs : List (List A))
      → Shape n k cs
      → (is_empty cs || k == n) ≡ true
      → Shape n 0 (cs ++ [] ∷ [])
  allocate-Shape n k [] h full = (refl, omega arith)
  allocate-Shape n k (c ∷ []) h full = (ground (arith, h.0, full), (refl, omega arith))
  allocate-Shape n k (c ∷ d ∷ ds) h full = (h.0, allocate-Shape n k (d ∷ ds) h.1 full)

  allocate-flatten : (cs : List (List A)) → flatten (cs ++ [] ∷ []) ≡ flatten cs
  allocate-flatten [] = refl
  allocate-flatten (c ∷ cs) = ap (λ l. c ++ l) (allocate-flatten cs)

  -- A buffer whose last chunk has room.
  record HasRoom (n : ℕ) (b : ChunkedBuffer A) : Type 0 where
    valid : IsValid n b
    room : b.current_chunk_count < n
    some_chunk : is_empty b.chunks ≡ false

  -- The buffer with one element more.
  record Grows (n : ℕ) (x : A) (b b' : ChunkedBuffer A) : Type ℓ where
    valid : IsValid n b'
    longer : flatten b'.chunks ≡ flatten b.chunks ++ x ∷ []

  construct_back-Grows :
      (n : ℕ) (x : A) (b : ChunkedBuffer A) (cs : List (List A))
      → b.chunks ≡ cs
      → HasRoom n b
      → Grows n x b (construct_back x b)
  unfolding construct_back
  construct_back-Grows n x b [] e h = absurd (ground (arith, h.some_chunk, ap is_empty e))
  construct_back-Grows n x b (c ∷ cs) e h =
      let s = subst (Shape n b.current_chunk_count) e h.valid.shape in
      let longer =
        ap (λ l. flatten (change_back (construct b.current_chunk_count x) l)) e
        ∙ change_back-flatten x n b.current_chunk_count c cs s
        ∙ ap (λ l. flatten l ++ x ∷ []) (sym e) in
      record {
        valid = record {
          shape =
              subst
                (λ l.
                  Shape n (suc b.current_chunk_count)
                    (change_back (construct b.current_chunk_count x) l))
                (sym e) (change_back-Shape x n b.current_chunk_count c cs s h.room);
          sized =
              omega
                (arith, h.valid.sized, ap length longer, length-append (flatten b.chunks) (x ∷ []));
        };
        longer = longer;
      }

  HasRoom-kept :
      (n : ℕ) (b : ChunkedBuffer A)
      → IsValid n b
      → 0 < n
      → (is_empty b.chunks || b.current_chunk_count == n) ≡ false
      → HasRoom n b
  HasRoom-kept n b h p e = record {
    valid = h;
    room = count_below n b.current_chunk_count b.chunks h.shape p e;
    some_chunk = ground (arith, e);
  }
    where
      count_below :
          (n k : ℕ) (cs : List (List A))
          → Shape n k cs
          → 0 < n
          → (is_empty cs || k == n) ≡ false
          → k < n
      count_below n k [] h p e = absurd (ground (arith, e))
      count_below n k (c ∷ []) h p e = ground (arith, e, h.1)
      count_below n k (c ∷ d ∷ ds) h p e = count_below n k (d ∷ ds) h.1 p e

  allocate_chunk-HasRoom :
      (n : ℕ) (b : ChunkedBuffer A)
      → IsValid n b
      → 0 < n
      → (is_empty b.chunks || b.current_chunk_count == n) ≡ true
      → HasRoom n (allocate_chunk b)
  unfolding allocate_chunk
  allocate_chunk-HasRoom n b h p e = record {
    valid = record {
      shape = allocate-Shape n b.current_chunk_count b.chunks h.shape e;
      sized = h.sized ∙ sym (ap length (allocate-flatten b.chunks));
    };
    room = p;
    some_chunk = some_last b.chunks;
  }
    where
      some_last : (cs : List (List A)) → is_empty (cs ++ [] ∷ []) ≡ false
      some_last [] = refl
      some_last (c ∷ cs) = refl

  -- For every chunk size above 0, every valid buffer and every element: emplace_back gives a valid
  -- buffer whose elements are those of the old one and then the new one.
  pub emplace_back-flatten :
      (n : ℕ) (x : A) (b : ChunkedBuffer A)
      → 0 < n
      → IsValid n b
      → IsValid n (emplace_back n x b)
        × (flatten (emplace_back n x b).chunks ≡ flatten b.chunks ++ x ∷ [])
  unfolding emplace_back allocate_chunk
  emplace_back-flatten n x b p h = go (is_empty b.chunks || b.current_chunk_count == n) refl
    where
      go :
          (full : Bool)
          → (is_empty b.chunks || b.current_chunk_count == n) ≡ full
          → IsValid n (construct_back x (if full then allocate_chunk b else b))
            × (flatten (construct_back x (if full then allocate_chunk b else b)).chunks
                ≡ flatten b.chunks ++ x ∷ [])
      go true e =
          let g =
            construct_back-Grows n x (allocate_chunk b) (b.chunks ++ [] ∷ []) refl
              (allocate_chunk-HasRoom n b h p e) in
          (g.valid, g.longer ∙ ap (λ l. l ++ x ∷ []) (allocate-flatten b.chunks))
      go false e =
          let g = construct_back-Grows n x b b.chunks refl (HasRoom-kept n b h p e) in
          (g.valid, g.longer)

  -- The elements of a list, added to a buffer one by one.
  unfoldable pub fill : ℕ → List A → ChunkedBuffer A → ChunkedBuffer A
  fill n [] b = b
  fill n (x ∷ xs) b = fill n xs (emplace_back n x b)

  fill_lem :
      (n : ℕ) (xs : List A) (b : ChunkedBuffer A)
      → 0 < n
      → IsValid n b
      → IsValid n (fill n xs b) × (flatten (fill n xs b).chunks ≡ flatten b.chunks ++ xs)
  unfolding fill
  fill_lem n [] b p h = (h, sym (append-nil (flatten b.chunks)))
  fill_lem n (x ∷ xs) b p h =
      let step = emplace_back-flatten n x b p h in
      let rest = fill_lem n xs (emplace_back n x b) p step.0 in
      (rest.0, rest.1 ∙ ap (λ l. l ++ xs) step.1 ∙ append_assoc (flatten b.chunks) (x ∷ []) xs)

  empty-IsValid : (n : ℕ) → IsValid n (empty_buffer {A = A})
  empty-IsValid n = record { shape = refl; sized = refl }

  at-valid :
      (n : ℕ) (b : ChunkedBuffer A) (i : ℕ)
      → 0 < n
      → IsValid n b
      → at n b i ≡ (
          if ltb i (length (flatten b.chunks))
          then ok (get_elem? (flatten b.chunks) i)
          else throws out_of_range)
  unfolding at subscript
  at-valid n b i p h =
      ap (λ k. if ltb i k then ok (subscript n b i) else throws out_of_range) h.sized
      ∙ go (ltb i (length (flatten b.chunks))) refl
    where
      go :
          (near : Bool)
          → ltb i (length (flatten b.chunks)) ≡ near
          → (if near then ok (subscript n b i) else throws out_of_range)
            ≡ (if near then ok (get_elem? (flatten b.chunks) i) else throws out_of_range)
      go true e =
          ap ok (element-flatten n b.current_chunk_count b.chunks i p h.shape (ground (arith, e)))
      go false e = refl

  -- For every chunk size above 0, every list and every index: in the buffer that the list has
  -- filled, `at` gives the element of the list at that index, and throws out_of_range where the
  -- list has none.
  pub at-fill :
      (n : ℕ) (xs : List A) (i : ℕ)
      → 0 < n
      → at n (fill n xs empty_buffer) i
        ≡ (if ltb i (length xs) then ok (get_elem? xs i) else throws out_of_range)
  at-fill n xs i p =
      let f = fill_lem n xs empty_buffer p (empty-IsValid n) in
      at-valid n (fill n xs empty_buffer) i p f.0
      ∙ ap (λ l. if ltb i (length l) then ok (get_elem? l i) else throws out_of_range) f.1

  -- For every chunk size above 0 and every list: to_vector of the buffer that the list has filled
  -- is the list.
  pub to_vector-fill : (n : ℕ) (xs : List A) → 0 < n → to_vector n (fill n xs empty_buffer) ≡ xs
  unfolding to_vector
  to_vector-fill n xs p =
      let f = fill_lem n xs empty_buffer p (empty-IsValid n) in
      gather-flatten n (fill n xs empty_buffer).current_chunk_count (fill n xs empty_buffer).chunks
        f.0.shape
      ∙ f.1
