-- ===== src/Chunks.antt =====
-- include/cpplinq/core/chunked_buffer.h: ChunkedBuffer. `chunk_size` is the template argument. A
-- chunk is the list of the elements that have been constructed in its storage, from offset 0 on.
pub mod Elements
pub mod Growth
use cpplinq.Common.{
  ℕ, zero, suc, ◌+◌, ◌-◌, ◌/◌, ◌%◌, Bool, true, false, ◌||◌, List, [], ◌∷◌, ◌++◌, Option, none,
  some, Outcome, ok, throws, out_of_range, length, is_empty, get_elem?, ltb, ◌==◌, if◌then◌else◌,
}

pub record ChunkedBuffer {ℓ} (A : Type ℓ) : Type ℓ where
  pub chunks : List (List A)
  pub current_chunk_count : ℕ
  pub total_size : ℕ

module _ {ℓ} {A : Type ℓ} where
  abbrev pub empty_buffer : ChunkedBuffer A
  empty_buffer = record { chunks = []; current_chunk_count = 0; total_size = 0 }

  unfoldable pub allocate_chunk : ChunkedBuffer A → ChunkedBuffer A
  allocate_chunk b = record b { chunks = b.chunks ++ [] ∷ []; current_chunk_count = 0 }

  -- Placement new at an offset of a chunk. An offset past the end leaves a gap, and no list.
  unfoldable pub construct : ℕ → A → List A → List A
  construct zero x [] = x ∷ []
  construct zero x (y ∷ ys) = x ∷ ys
  construct (suc i) x [] = []
  construct (suc i) x (y ∷ ys) = y ∷ construct i x ys

  -- What is done to chunks_.back().
  unfoldable pub change_back : (List A → List A) → List (List A) → List (List A)
  change_back f [] = []
  change_back f (c ∷ []) = f c ∷ []
  change_back f (c ∷ d ∷ ds) = c ∷ change_back f (d ∷ ds)

  unfoldable pub construct_back : A → ChunkedBuffer A → ChunkedBuffer A
  unfolding construct change_back
  construct_back x b = record {
    chunks = change_back (construct b.current_chunk_count x) b.chunks;
    current_chunk_count = suc b.current_chunk_count;
    total_size = suc b.total_size;
  }

  unfoldable pub emplace_back : ℕ → A → ChunkedBuffer A → ChunkedBuffer A
  unfolding allocate_chunk construct_back
  emplace_back chunk_size x b =
      construct_back x
        (if is_empty b.chunks || b.current_chunk_count == chunk_size then allocate_chunk b else b)

  abbrev pub element_of : Option (List A) → ℕ → Option A
  element_of none i = none
  element_of (some c) i = get_elem? c i

  -- operator[]: none where the code would read past what has been constructed.
  unfoldable pub subscript : ℕ → ChunkedBuffer A → ℕ → Option A
  subscript chunk_size b index =
      element_of (get_elem? b.chunks (index / chunk_size)) (index % chunk_size)

  unfoldable pub at : ℕ → ChunkedBuffer A → ℕ → Outcome (Option A)
  unfolding subscript
  at chunk_size b index =
      if ltb index b.total_size then ok (subscript chunk_size b index) else throws out_of_range

  abbrev pub take : ℕ → List A → List A
  take zero xs = []
  take (suc n) [] = []
  take (suc n) (x ∷ xs) = x ∷ take n xs

  -- The loop of to_vector: the last chunk has current_chunk_count elements, the others are full.
  unfoldable pub gather : ℕ → ℕ → List (List A) → List A
  gather chunk_size count [] = []
  gather chunk_size count (c ∷ []) = take count c
  gather chunk_size count (c ∷ d ∷ ds) = take chunk_size c ++ gather chunk_size count (d ∷ ds)

  unfoldable pub to_vector : ℕ → ChunkedBuffer A → List A
  unfolding gather
  to_vector chunk_size b = gather chunk_size b.current_chunk_count b.chunks
