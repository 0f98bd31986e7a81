-- ===== src/Value/Utf8.antt =====
-- include/cpplinq/mapping/data_types.h: wstring_to_utf8 and utf8_to_wstring, where wchar_t has 32
-- bits. On a number, `x & 0x3F` is the remainder by 64, `x >> 6` the quotient, and `0x80 | y` the sum
-- where y is below 64; the other masks likewise. A test such as `(c & 0xE0) == 0xC0` says that the
-- quotient of the byte by 32 is 6.
pub mod RoundTrip
pub mod Shape
use cpplinq.Common.{
  ℕ, zero, suc, ◌+◌, ◌*◌, ◌/◌, ◌%◌, List, [], ◌∷◌, ◌++◌, ltb, ◌==◌, ◌&&◌, length, Option, none,
  some, if◌then◌else◌,
}

-- One unit: its bytes.
unfoldable pub encode_unit : ℕ → List ℕ
encode_unit cp =
    if ltb cp 128
    then cp ∷ []
    else (if ltb cp 2048
        then (192 + cp / 64 % 32) ∷ (128 + cp % 64) ∷ []
        else (if ltb cp 65536
            then (224 + cp / 4096 % 16) ∷ (128 + cp / 64 % 64) ∷ (128 + cp % 64) ∷ []
            else (240 + cp / 262144 % 8)
              ∷ (128 + cp / 4096 % 64)
              ∷ (128 + cp / 64 % 64)
              ∷ (128 + cp % 64)
              ∷ []))

unfoldable pub wstring_to_utf8 : List ℕ → List ℕ
unfolding encode_unit
wstring_to_utf8 [] = []
wstring_to_utf8 (wc ∷ wstr) = encode_unit wc ++ wstring_to_utf8 wstr

-- One round: the unit, and what is left. A byte that begins nothing that fits stands for itself.
unfoldable pub decode_unit : ℕ → List ℕ → ℕ × List ℕ
decode_unit c [] = (c, [])
decode_unit c (c1 ∷ []) =
    if ltb c 128
    then (c, c1 ∷ [])
    else (if c / 32 == 6 then (c % 32 * 64 + c1 % 64, []) else (c, c1 ∷ []))
decode_unit c (c1 ∷ c2 ∷ []) =
    if ltb c 128
    then (c, c1 ∷ c2 ∷ [])
    else (if c / 32 == 6
        then (c % 32 * 64 + c1 % 64, c2 ∷ [])
        else (if c / 16 == 14
            then (c % 16 * 4096 + c1 % 64 * 64 + c2 % 64, [])
            else (c, c1 ∷ c2 ∷ [])))
decode_unit c (c1 ∷ c2 ∷ c3 ∷ rest) =
    if ltb c 128
    then (c, c1 ∷ c2 ∷ c3 ∷ rest)
    else (if c / 32 == 6
        then (c % 32 * 64 + c1 % 64, c2 ∷ c3 ∷ rest)
        else (if c / 16 == 14
            then (c % 16 * 4096 + c1 % 64 * 64 + c2 % 64, c3 ∷ rest)
            else (if c / 8 == 30
                then (c % 8 * 262144 + c1 % 64 * 4096 + c2 % 64 * 64 + c3 % 64, rest)
                else (c, c1 ∷ c2 ∷ c3 ∷ rest))))

-- Each round takes a byte at least, so as many rounds as there are bytes are enough.
unfoldable pub decode : ℕ → List ℕ → List ℕ
unfolding decode_unit
decode zero str = []
decode (suc fuel) [] = []
decode (suc fuel) (c ∷ str) = let unit = decode_unit c str in unit.0 ∷ decode fuel unit.1

unfoldable pub utf8_to_wstring : List ℕ → List ℕ
unfolding decode
utf8_to_wstring str = decode (length str) str
