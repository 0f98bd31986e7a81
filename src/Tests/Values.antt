-- ===== src/Tests/Values.antt =====
-- The value types.
use cpplinq.Common.{ℕ, ◌≤◌, true, List, [], ◌∷◌, length, ◌≡◌, refl, arith}
use cpplinq.Value.{SqlGuid}
use cpplinq.Value.Utf8.{wstring_to_utf8, utf8_to_wstring, decode, encode_unit}
use cpplinq.Value.Utf8.RoundTrip.{utf8_to_wstring-wstring_to_utf8, decode-fuel}
use cpplinq.Value.Utf8.Shape.{IsUtf8, wstring_to_utf8-IsUtf8}
use cpplinq.Value.Guid.{to_string, from_string}
use cpplinq.Value.Guid.RoundTrip.{from_string-to_string}

-- "aé€" and a unit above 0xFFFF.
utf8_to_wstring-wstring_to_utf8_example :
    utf8_to_wstring (wstring_to_utf8 (97 ∷ 233 ∷ 8364 ∷ 128512 ∷ []))
    ≡ 97 ∷ 233 ∷ 8364 ∷ 128512 ∷ []
utf8_to_wstring-wstring_to_utf8_example =
    utf8_to_wstring-wstring_to_utf8 (97 ∷ 233 ∷ 8364 ∷ 128512 ∷ [])
      (omega arith, (omega arith, (omega arith, (omega arith, tt))))

wstring_to_utf8-IsUtf8_example : IsUtf8 (8364 ∷ 97 ∷ []) (226 ∷ 130 ∷ 172 ∷ 97 ∷ [])
unfolding wstring_to_utf8 encode_unit
wstring_to_utf8-IsUtf8_example =
    wstring_to_utf8-IsUtf8 (8364 ∷ 97 ∷ []) (omega arith, (omega arith, tt))

-- A byte that begins a unit of three, with one byte behind it.
abbrev cut_off : List ℕ
cut_off = 226 ∷ 130 ∷ []

decode-fuel_example :
    (decode 9 cut_off ≡ utf8_to_wstring cut_off)
    × (length (utf8_to_wstring cut_off) ≤ length cut_off)
decode-fuel_example = decode-fuel 9 cut_off (omega arith)

abbrev guid : SqlGuid
guid = record {
  bytes = 18 ∷ 52 ∷ 86 ∷ 120 ∷ 154 ∷ 188 ∷ 222 ∷ 240 ∷ 0 ∷ 1 ∷ 2 ∷ 3 ∷ 4 ∷ 5 ∷ 6 ∷ 255 ∷ [];
}

from_string-to_string_example : from_string (to_string true true guid) ≡ guid
from_string-to_string_example = from_string-to_string true true guid refl (
  omega arith,
  (
    omega arith,
    (
      omega arith,
      (
        omega arith,
        (
          omega arith,
          (
            omega arith,
            (
              omega arith,
              (
                omega arith,
                (
                  omega arith,
                  (
                    omega arith,
                    (
                      omega arith,
                      (omega arith, (omega arith, (omega arith, (omega arith, (omega arith, tt))))),
                    ),
                  ),
                ),
              ),
            ),
          ),
        ),
      ),
    ),
  ),
)
