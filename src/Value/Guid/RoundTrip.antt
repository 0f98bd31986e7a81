-- ===== src/Value/Guid/RoundTrip.antt =====
-- Reading a GUID that has been printed.
use cpplinq.Common.{
  ℕ, suc, ◌*◌, ◌/◌, ◌%◌, ◌<◌, Bool, true, false, ◌&&◌, List, [], ◌∷◌, ◌++◌, ◌==◌, length,
  if◌then◌else◌, ◌≡◌, refl, ap, ◌∙◌, arith,
}
use cpplinq.Value.{SqlGuid}
use cpplinq.Value.Utf8.RoundTrip.{All}
use cpplinq.Value.Guid.{
  nil_guid, hex, hyphen_before, hex_from, to_string, isxdigit, hex_val, hex_only, bytes_of,
  from_string,
}

hex-digit : (u : Bool) (d : ℕ) → d < 16 → isxdigit (hex u d) ≡ true
hex-digit true d h = ground (arith, h)
hex-digit false d h = ground (arith, h)

hex_val-hex : (u : Bool) (d : ℕ) → d < 16 → hex_val (hex u d) ≡ d
hex_val-hex true d h = ground (arith, h)
hex_val-hex false d h = ground (arith, h)

hex_only-kept : (c : ℕ) (str : List ℕ) → isxdigit c ≡ true → hex_only (c ∷ str) ≡ c ∷ hex_only str
unfolding hex_only
hex_only-kept c str h = ap (λ b. if b then c ∷ hex_only str else hex_only str) h

-- The hyphens are dropped.
hex_only-hex_from :
    (w u : Bool) (i : ℕ) (bs : List ℕ)
    → All (λ b. b < 256) bs
    → hex_only (hex_from w u i bs) ≡ hex_from false u i bs
unfolding hex_from hex_only
hex_only-hex_from w u i [] h = refl
hex_only-hex_from w u i (b ∷ bs) h =
    hyphen (w && hyphen_before i) (hex u (b / 16 % 16) ∷ hex u (b % 16) ∷ hex_from w u (suc i) bs)
    ∙ hex_only-kept (hex u (b / 16 % 16)) (hex u (b % 16) ∷ hex_from w u (suc i) bs)
        (hex-digit u (b / 16 % 16) (omega arith))
    ∙ ap (λ l. hex u (b / 16 % 16) ∷ l)
        (hex_only-kept (hex u (b % 16)) (hex_from w u (suc i) bs)
          (hex-digit u (b % 16) (omega arith)))
    ∙ ap (λ l. hex u (b / 16 % 16) ∷ hex u (b % 16) ∷ l) (hex_only-hex_from w u (suc i) bs h.1)
  where
    hyphen :
        (b : Bool) (str : List ℕ) → hex_only ((if b then b'-' ∷ [] else []) ++ str) ≡ hex_only str
    hyphen true str = refl
    hyphen false str = refl

bytes_of-hex_from :
    (u : Bool) (i : ℕ) (bs : List ℕ) → All (λ b. b < 256) bs → bytes_of (hex_from false u i bs) ≡ bs
unfolding hex_from bytes_of
bytes_of-hex_from u i [] h = refl
bytes_of-hex_from u i (b ∷ bs) h =
    ap (λ x. x ∷ bytes_of (hex_from false u (suc i) bs))
      (omega (
        arith,
        hex_val-hex u (b / 16 % 16) (omega arith),
        hex_val-hex u (b % 16) (omega arith),
        h.0,
      ))
    ∙ ap (λ l. b ∷ l) (bytes_of-hex_from u (suc i) bs h.1)

length-hex_from : (u : Bool) (i : ℕ) (bs : List ℕ) → length (hex_from false u i bs) ≡ 2 * length bs
unfolding hex_from
length-hex_from u i [] = omega arith
length-hex_from u i (b ∷ bs) = omega (arith, length-hex_from u (suc i) bs)

-- For every GUID of 16 bytes: reading its text, with or without hyphens, in lower or in upper case,
-- gives it back.
pub from_string-to_string :
    (with_hyphens upper_case : Bool) (g : SqlGuid)
    → length g.bytes ≡ 16
    → All (λ b. b < 256) g.bytes
    → from_string (to_string with_hyphens upper_case g) ≡ g
unfolding from_string to_string
from_string-to_string w u g size h =
    let digits = hex_only-hex_from w u 0 g.bytes h in
    let whole : (length (hex_from false u 0 g.bytes) == 32) ≡ true =
      ground (arith, size, length-hex_from u 0 g.bytes) in
    ap (λ l. if length l == 32 then record { bytes = bytes_of l } else nil_guid) digits
    ∙ ap (λ b. if b then record { bytes = bytes_of (hex_from false u 0 g.bytes) } else nil_guid)
        whole
    ∙ ap (λ l. record { bytes = l }) (bytes_of-hex_from u 0 g.bytes h)
