-- ===== src/Tests/Chunks.antt =====
-- Three elements in chunks of two.
use cpplinq.Common.{ℕ, List, [], ◌∷◌, ◌≡◌, some, ok, arith}
use cpplinq.Chunks.{empty_buffer, at, to_vector}
use cpplinq.Chunks.Growth.{fill, at-fill, to_vector-fill}

abbrev three : List ℕ
three = 5 ∷ 6 ∷ 7 ∷ []

at-fill_example : at 2 (fill 2 three empty_buffer) 2 ≡ ok (some 7)
at-fill_example = at-fill 2 three 2 (omega arith)

to_vector-fill_example : to_vector 2 (fill 2 three empty_buffer) ≡ three
to_vector-fill_example = to_vector-fill 2 three (omega arith)
