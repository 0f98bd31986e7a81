-- ===== src/Value/Utf8/RoundTrip.antt =====
-- Decoding what has been encoded.
use cpplinq.Common.{
  ℕ, zero, suc, ◌+◌, ◌/◌, ◌%◌, ◌<◌, ◌≤◌, Bool, true, false, List, [], ◌∷◌, ◌++◌, ltb, length,
  length-append, if◌then◌else◌, ◌≡◌, refl, ap, ◌∙◌, arith,
}
use cpplinq.Value.Utf8.{encode_unit, wstring_to_utf8, decode_unit, decode, utf8_to_wstring}

abbrev pub All : (ℕ → Type 0) → List ℕ → Type 0
All P [] = Unit
All P (x ∷ xs) = P x × All P xs

-- A unit in front of other bytes.
two :
    (cp : ℕ) (rest : List ℕ)
    → 128 ≤ cp
    → cp < 2048
    → decode_unit (192 + cp / 64 % 32) ((128 + cp % 64) ∷ rest) ≡ (cp, rest)
unfolding decode_unit
two cp [] h k = ground (arith, h, k)
two cp (a ∷ []) h k = ground (arith, h, k)
two cp (a ∷ b ∷ rest) h k = ground (arith, h, k)

three :
    (cp : ℕ) (rest : List ℕ)
    → 2048 ≤ cp
    → cp < 65536
    → decode_unit (224 + cp / 4096 % 16) ((128 + cp / 64 % 64) ∷ (128 + cp % 64) ∷ rest)
      ≡ (cp, rest)
unfolding decode_unit
three cp [] h k = ground (arith, h, k)
three cp (a ∷ rest) h k = ground (arith, h, k)

four :
    (cp : ℕ) (rest : List ℕ)
    → 65536 ≤ cp
    → cp < 2097152
    → decode_unit
        (240 + cp / 262144 % 8)
        ((128 + cp / 4096 % 64) ∷ (128 + cp / 64 % 64) ∷ (128 + cp % 64) ∷ rest)
      ≡ (cp, rest)
unfolding decode_unit
four cp rest h k = ground (arith, h, k)

one : (cp : ℕ) (rest : List ℕ) → cp < 128 → decode_unit cp rest ≡ (cp, rest)
unfolding decode_unit
one cp [] h = refl
one cp (a ∷ []) h = ground (arith, h)
one cp (a ∷ b ∷ []) h = ground (arith, h)
one cp (a ∷ b ∷ c ∷ rest) h = ground (arith, h)

abbrev rest_of : ℕ → ℕ × List ℕ → List ℕ
rest_of fuel unit = unit.0 ∷ decode fuel unit.1

-- The bytes of a unit are read in one round.
decode-encode_unit :
    (cp fuel : ℕ) (rest : List ℕ)
    → cp < 2097152
    → decode (suc fuel) (encode_unit cp ++ rest) ≡ cp ∷ decode fuel rest
unfolding encode_unit decode
decode-encode_unit cp fuel rest small = go (ltb cp 128) (ltb cp 2048) (ltb cp 65536) refl refl refl
  where
    go :
        (a b c : Bool)
        → ltb cp 128 ≡ a
        → ltb cp 2048 ≡ b
        → ltb cp 65536 ≡ c
        → decode (suc fuel) (
            (if a
              then cp ∷ []
              else (if b
                  then (192 + cp / 64 % 32) ∷ (128 + cp % 64) ∷ []
                  else (if c
                      then (224 + cp / 4096 % 16) ∷ (128 + cp / 64 % 64) ∷ (128 + cp % 64) ∷ []
                      else (240 + cp / 262144 % 8)
                        ∷ (128 + cp / 4096 % 64)
                        ∷ (128 + cp / 64 % 64)
                        ∷ (128 + cp % 64)
                        ∷ [])))
            ++ rest)
          ≡ cp ∷ decode fuel rest
    go true b c h k l = ap (rest_of fuel) (one cp rest (ground (arith, h)))
    go false true c h k l = ap (rest_of fuel) (two cp rest (ground (arith, h)) (ground (arith, k)))
    go false false true h k l =
        ap (rest_of fuel) (three cp rest (ground (arith, k)) (ground (arith, l)))
    go false false false h k l = ap (rest_of fuel) (four cp rest (ground (arith, l)) small)

-- A unit takes a byte at least.
encode_unit-some : (cp : ℕ) → 0 < length (encode_unit cp)
unfolding encode_unit
encode_unit-some cp = ground arith

decode-wstring_to_utf8 :
    (wstr : List ℕ) (fuel : ℕ)
    → All (λ cp. cp < 2097152) wstr
    → length (wstring_to_utf8 wstr) ≤ fuel
    → decode fuel (wstring_to_utf8 wstr) ≡ wstr
unfolding wstring_to_utf8 decode
decode-wstring_to_utf8 [] zero h room = refl
decode-wstring_to_utf8 [] (suc fuel) h room = refl
decode-wstring_to_utf8 (wc ∷ wstr) zero h room = absurd (
    omega (arith, room, encode_unit-some wc, length-append (encode_unit wc) (wstring_to_utf8 wstr)))
decode-wstring_to_utf8 (wc ∷ wstr) (suc fuel) h room =
    decode-encode_unit wc fuel (wstring_to_utf8 wstr) h.0
    ∙ ap (λ l. wc ∷ l)
        (decode-wstring_to_utf8 wstr fuel h.1 (
          omega (
            arith,
            room,
            encode_unit-some wc,
            length-append (encode_unit wc) (wstring_to_utf8 wstr),
          )))

-- For every wide string whose units are below 0x200000 (every Unicode code point is): decoding its
-- UTF-8 gives it back.
pub utf8_to_wstring-wstring_to_utf8 :
    (wstr : List ℕ) → All (λ cp. cp < 2097152) wstr → utf8_to_wstring (wstring_to_utf8 wstr) ≡ wstr
unfolding utf8_to_wstring
utf8_to_wstring-wstring_to_utf8 wstr h =
    decode-wstring_to_utf8 wstr (length (wstring_to_utf8 wstr)) h (omega arith)

decode_unit-shorter : (c : ℕ) (str : List ℕ) → length (decode_unit c str).1 ≤ length str
unfolding decode_unit
decode_unit-shorter c [] = omega arith
decode_unit-shorter c (c1 ∷ []) = ground arith
decode_unit-shorter c (c1 ∷ c2 ∷ []) = ground arith
decode_unit-shorter c (c1 ∷ c2 ∷ c3 ∷ str) = ground arith

decode_more :
    (fuel k : ℕ) (str : List ℕ)
    → length str ≤ fuel
    → length str ≤ k
    → decode fuel str ≡ decode k str
unfolding decode
decode_more zero zero str h l = refl
decode_more zero (suc k) [] h l = refl
decode_more (suc fuel) zero [] h l = refl
decode_more (suc fuel) (suc k) [] h l = refl
decode_more zero (suc k) (c ∷ str) h l = absurd (omega (arith, h))
decode_more (suc fuel) zero (c ∷ str) h l = absurd (omega (arith, l))
decode_more (suc fuel) (suc k) (c ∷ str) h l =
    let shorter = decode_unit-shorter c str in
    ap (λ us. (decode_unit c str).0 ∷ us)
      (decode_more fuel k (decode_unit c str).1 (omega (arith, h, shorter))
        (omega (arith, l, shorter)))

length-decode : (fuel : ℕ) (str : List ℕ) → length (decode fuel str) ≤ length str
unfolding decode
length-decode zero str = omega arith
length-decode (suc fuel) [] = omega arith
length-decode (suc fuel) (c ∷ str) =
    omega (arith, decode_unit-shorter c str, length-decode fuel (decode_unit c str).1)

-- For every string, valid UTF-8 or not: the loop of utf8_to_wstring ends after at most as many
-- rounds as there are bytes (any greater number gives the same), and makes at most as many units.
pub decode-fuel :
    (fuel : ℕ) (str : List ℕ)
    → length str ≤ fuel
    → (decode fuel str ≡ utf8_to_wstring str) × (length (utf8_to_wstring str) ≤ length str)
unfolding utf8_to_wstring
decode-fuel fuel str h =
    (decode_more fuel (length str) str h (omega arith), length-decode (length str) str)
