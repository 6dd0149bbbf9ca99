-- ===== src/Golang/Base64.antt =====
-- encoding/base64: RawURLEncoding, and its Strict decoder.
pub mod RoundTrip
use incus_spire_attestor.Prelude.{
  ℕ, zero, suc, ◌+◌, ◌-◌, ◌*◌, ◌/◌, ◌%◌, ◌^◌, ◌≤◌, ◌<◌, String, ◌≡◌, refl, sym, ap, ◌∙◌, subst, ◌≢◌,
  ◌↔◌, ◌⊎◌, inl, inr, Bool, true, false, not, ◌&&◌, ◌||◌, Option, none, some, List, [], ◌∷◌, ◌++◌,
  map, append-nil, append_assoc, arith, Bytes, codes, ltb, leb, ◌==◌, if◌then◌else◌, Bool-cases,
  Option-cases, same, same_self, same_iff, is_empty, length, take, drop, all, length-append,
  take-append-drop, length-drop, All, All-append,
}

-- The URL alphabet, for v below 64.
unfoldable pub encode_digit : ℕ → ℕ
encode_digit v =
    if ltb v 26
    then b'A' + v
    else if ltb v 52
    then b'a' + (v - 26)
    else if ltb v 62
    then b'0' + (v - 52)
    else if v == 62
    then b'-'
    else b'_'

-- The decode map; `none` is the byte 0xff of an invalid character.
unfoldable pub decode_digit : ℕ → Option ℕ
decode_digit c =
    if leb b'A' c && leb c b'Z'
    then some (c - b'A')
    else if leb b'a' c && leb c b'z'
    then some (c - b'a' + 26)
    else if leb b'0' c && leb c b'9'
    then some (c - b'0' + 52)
    else if c == b'-'
    then some 62
    else if c == b'_'
    then some 63
    else none

-- `EncodeToString` without padding: four digits for three bytes, and two or three for a rest.
unfoldable pub encode : Bytes → Bytes
encode [] = []
encode (a ∷ []) = encode_digit (a / 4) ∷ encode_digit (a % 4 * 16) ∷ []
encode (a ∷ b ∷ []) =
    encode_digit (a / 4) ∷ encode_digit (a % 4 * 16 + b / 16) ∷ encode_digit (b % 16 * 4) ∷ []
encode (a ∷ b ∷ c ∷ rest) =
    encode_digit (a / 4)
    ∷ encode_digit (a % 4 * 16 + b / 16)
    ∷ encode_digit (b % 16 * 4 + c / 64)
    ∷ encode_digit (c % 64)
    ∷ encode rest

-- `EncodedLen` without padding.
abbrev pub encoded_len : ℕ → ℕ
encoded_len n = n / 3 * 4 + (n % 3 * 8 + 5) / 6

-- Newlines and carriage returns are skipped wherever they stand.
unfoldable pub without_newlines : Bytes → Bytes
without_newlines [] = []
without_newlines (c ∷ s) =
    let rest = without_newlines s in if c == b'\n' || c == b'\r' then rest else c ∷ rest

-- The digits of a text.
unfoldable pub digits : Bytes → Option (List ℕ)
digits [] = some []
digits (c ∷ s) = elim (decode_digit c) [
  | none ↦ none
  | some d ↦ elim (digits s) [ none ↦ none | some ds ↦ some (d ∷ ds) ]
]

-- The bytes of a list of digits. A single digit at the end is corrupt, and the strict decoder
-- wants the bits that a short last group leaves over to be zero.
unfoldable pub unpack : List ℕ → Option Bytes
unpack [] = some []
unpack (p ∷ []) = none
unpack (p ∷ q ∷ []) = if q % 16 == 0 then some ((p * 4 + q / 16) ∷ []) else none
unpack (p ∷ q ∷ r ∷ []) =
    if r % 4 == 0 then some ((p * 4 + q / 16) ∷ (q % 16 * 16 + r / 4) ∷ []) else none
unpack (p ∷ q ∷ r ∷ s ∷ rest) = elim (unpack rest) [
  | none ↦ none
  | some bytes ↦ some ((p * 4 + q / 16) ∷ (q % 16 * 16 + r / 4) ∷ (r % 4 * 64 + s) ∷ bytes)
]

-- `Strict().DecodeString`.
unfoldable pub decode : Bytes → Option Bytes
decode text = elim (digits (without_newlines text)) [ none ↦ none | some ds ↦ unpack ds ]
