-- ===== src/Value/Utf8/Shape.antt =====
-- The bytes of wstring_to_utf8 against the table of UTF-8.
use cpplinq.Common.{
  ℕ, ◌+◌, ◌*◌, ◌/◌, ◌%◌, ◌<◌, ◌≤◌, Bool, true, false, List, [], ◌∷◌, ◌++◌, ltb, if◌then◌else◌, ◌≡◌,
  refl, arith,
}
use cpplinq.Value.Utf8.{encode_unit, wstring_to_utf8}
use cpplinq.Value.Utf8.RoundTrip.{All}

-- The table: which bytes stand for which numbers. Each number has the shortest form that holds it,
-- and each byte behind the first is in 0x80..0xBF.
pub data IsUtf8 : List ℕ → List ℕ → Type 0 where
  empty : IsUtf8 [] []
  one_byte :
      {cps bytes : List ℕ} (cp : ℕ) → cp < 128 → IsUtf8 cps bytes → IsUtf8 (cp ∷ cps) (cp ∷ bytes)
  two_bytes :
      {cps bytes : List ℕ} (cp x y : ℕ)
      → cp ≡ x * 64 + y
      → 128 ≤ cp
      → x < 32
      → y < 64
      → IsUtf8 cps bytes
      → IsUtf8 (cp ∷ cps) ((192 + x) ∷ (128 + y) ∷ bytes)
  three_bytes :
      {cps bytes : List ℕ} (cp x y z : ℕ)
      → cp ≡ x * 4096 + y * 64 + z
      → 2048 ≤ cp
      → x < 16
      → y < 64
      → z < 64
      → IsUtf8 cps bytes
      → IsUtf8 (cp ∷ cps) ((224 + x) ∷ (128 + y) ∷ (128 + z) ∷ bytes)
  four_bytes :
      {cps bytes : List ℕ} (cp w x y z : ℕ)
      → cp ≡ w * 262144 + x * 4096 + y * 64 + z
      → 65536 ≤ cp
      → w < 8
      → x < 64
      → y < 64
      → z < 64
      → IsUtf8 cps bytes
      → IsUtf8 (cp ∷ cps) ((240 + w) ∷ (128 + x) ∷ (128 + y) ∷ (128 + z) ∷ bytes)

encode_unit-IsUtf8 :
    (cp : ℕ) (cps bytes : List ℕ)
    → cp < 2097152
    → IsUtf8 cps bytes
    → IsUtf8 (cp ∷ cps) (encode_unit cp ++ bytes)
unfolding encode_unit
encode_unit-IsUtf8 cp cps bytes small h =
    go (ltb cp 128) (ltb cp 2048) (ltb cp 65536) refl refl refl
  where
    go :
        (a b c : Bool)
        → ltb cp 128 ≡ a
        → ltb cp 2048 ≡ b
        → ltb cp 65536 ≡ c
        → IsUtf8 (cp ∷ cps) (
            (if a
              then cp ∷ []
              else (if b
                  then (192 + cp / 64 % 32) ∷ (128 + cp % 64) ∷ []
                  else (if c
                      then (224 + cp / 4096 % 16) ∷ (128 + cp / 64 % 64) ∷ (128 + cp % 64) ∷ []
                      else (240 + cp / 262144 % 8)
                        ∷ (128 + cp / 4096 % 64)
                        ∷ (128 + cp / 64 % 64)
                        ∷ (128 + cp % 64)
                        ∷ [])))
            ++ bytes)
    go true b c k l m = one_byte cp (ground (arith, k)) h
    go false true c k l m =
        two_bytes cp (cp / 64 % 32) (cp % 64) (ground (arith, l)) (ground (arith, k)) (omega arith)
          (omega arith) h
    go false false true k l m =
        three_bytes cp (cp / 4096 % 16) (cp / 64 % 64) (cp % 64) (ground (arith, m))
          (ground (arith, l)) (omega arith) (omega arith) (omega arith) h
    go false false false k l m =
        four_bytes cp (cp / 262144 % 8) (cp / 4096 % 64) (cp / 64 % 64) (cp % 64)
          (omega (arith, small)) (ground (arith, m)) (omega arith) (omega arith) (omega arith)
          (omega arith) h

-- For every wide string whose units are below 0x200000 (every Unicode code point is): the bytes
-- written are its UTF-8, unit after unit, each in its shortest form, with every byte behind the
-- first of a unit in 0x80..0xBF.
pub wstring_to_utf8-IsUtf8 :
    (wstr : List ℕ) → All (λ cp. cp < 2097152) wstr → IsUtf8 wstr (wstring_to_utf8 wstr)
unfolding wstring_to_utf8
wstring_to_utf8-IsUtf8 [] h = empty
wstring_to_utf8-IsUtf8 (wc ∷ wstr) h =
    encode_unit-IsUtf8 wc wstr (wstring_to_utf8 wstr) h.0 (wstring_to_utf8-IsUtf8 wstr h.1)
