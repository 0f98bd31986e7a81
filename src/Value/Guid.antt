-- ===== src/Value/Guid.antt =====
-- include/cpplinq/mapping/data_types.h: SqlGuid. The array is a list of 16 bytes. `b >> 4` is the
-- quotient by 16, `b & 0x0F` the remainder, and `(h << 4) | l` the sum of 16 h and l.
pub mod RoundTrip
use cpplinq.Common.{
  ℕ, zero, suc, ◌+◌, ◌-◌, ◌*◌, ◌/◌, ◌%◌, ◌^◌, Bool, true, false, not, ◌&&◌, ◌||◌, List, [], ◌∷◌,
  ◌++◌, ltb, leb, ◌==◌, length, is_empty, if◌then◌else◌,
}
use cpplinq.Text.{Text}
use cpplinq.Value.{SqlGuid}

abbrev pub nil_guid : SqlGuid
nil_guid = record { bytes = 0 ∷ 0 ∷ 0 ∷ 0 ∷ 0 ∷ 0 ∷ 0 ∷ 0 ∷ 0 ∷ 0 ∷ 0 ∷ 0 ∷ 0 ∷ 0 ∷ 0 ∷ 0 ∷ [] }

-- The constructor from the four parts of a Windows GUID; data4 has eight bytes.
unfoldable pub from_parts : ℕ → ℕ → ℕ → List ℕ → SqlGuid
from_parts data1 data2 data3 data4 = record {
  bytes =
      (data1 / 2 ^ 24 % 256)
      ∷ (data1 / 2 ^ 16 % 256)
      ∷ (data1 / 2 ^ 8 % 256)
      ∷ (data1 % 256)
      ∷ (data2 / 2 ^ 8 % 256)
      ∷ (data2 % 256)
      ∷ (data3 / 2 ^ 8 % 256)
      ∷ (data3 % 256)
      ∷ data4;
}

unfoldable pub all_zero : List ℕ → Bool
all_zero [] = true
all_zero (b ∷ bs) = b == 0 && all_zero bs

unfoldable pub is_nil : SqlGuid → Bool
unfolding all_zero
is_nil g = all_zero g.bytes

-- The character at index `d` of hex_lower or hex_upper.
abbrev pub hex : Bool → ℕ → ℕ
hex upper_case d = if ltb d 10 then b'0' + d else ((if upper_case then b'A' else b'a') + d - 10)

-- i == 4 || i == 6 || i == 8 || i == 10
abbrev pub hyphen_before : ℕ → Bool
hyphen_before i = i == 4 || (i == 6 || (i == 8 || i == 10))

-- The loop from byte `i` on.
unfoldable pub hex_from : Bool → Bool → ℕ → List ℕ → Text
hex_from with_hyphens upper_case i [] = []
hex_from with_hyphens upper_case i (b ∷ bs) =
    (if with_hyphens && hyphen_before i then b'-' ∷ [] else [])
    ++ hex upper_case (b / 16 % 16)
      ∷ hex upper_case (b % 16)
      ∷ hex_from with_hyphens upper_case (suc i) bs

unfoldable pub to_string : Bool → Bool → SqlGuid → Text
unfolding hex_from
to_string with_hyphens upper_case g = hex_from with_hyphens upper_case 0 g.bytes

abbrev pub isxdigit : ℕ → Bool
isxdigit c = leb b'0' c && leb c b'9' || (leb b'a' c && leb c b'f' || leb b'A' c && leb c b'F')

abbrev pub hex_val : ℕ → ℕ
hex_val c =
    if leb b'0' c && leb c b'9'
    then c - b'0'
    else (if leb b'a' c && leb c b'f'
        then c - b'a' + 10
        else (if leb b'A' c && leb c b'F' then c - b'A' + 10 else 0))

unfoldable pub hex_only : Text → Text
hex_only [] = []
hex_only (c ∷ str) = let rest = hex_only str in if isxdigit c then c ∷ rest else rest

unfoldable pub bytes_of : Text → List ℕ
bytes_of [] = []
bytes_of (c ∷ []) = []
bytes_of (c ∷ d ∷ rest) = (16 * hex_val c + hex_val d) ∷ bytes_of rest

unfoldable pub from_string : Text → SqlGuid
unfolding hex_only bytes_of
from_string str =
    if length (hex_only str) == 32 then record { bytes = bytes_of (hex_only str) } else nil_guid
