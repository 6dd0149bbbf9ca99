-- ===== src/Golang/Text.antt =====
-- strings and net/url: trimming, splitting and escaping of byte strings.
use incus_spire_attestor.Prelude.{
  ℕ, ◌+◌, ◌-◌, ◌/◌, ◌%◌, ◌≡◌, refl, Bool, true, false, ◌&&◌, ◌||◌, Option, none, some, List, [],
  ◌∷◌, ◌++◌, arith, Bytes, ltb, leb, ◌==◌, if◌then◌else◌, All,
}

-- The white space of unicode.IsSpace, by the length of its UTF-8 encoding.
abbrev is_space_1 : ℕ → Bool
is_space_1 c = leb 9 c && leb c 13 || c == 32

abbrev is_space_2 : ℕ → ℕ → Bool
is_space_2 c d = c == 0xC2 && (d == 0x85 || d == 0xA0)

abbrev is_space_3 : ℕ → ℕ → ℕ → Bool
is_space_3 c d e =
    c == 0xE1 && d == 0x9A && e == 0x80
    || c == 0xE2 && d == 0x80 && (leb 0x80 e && leb e 0x8A || e == 0xA8 || e == 0xA9 || e == 0xAF)
    || c == 0xE2 && d == 0x81 && e == 0x9F
    || c == 0xE3 && d == 0x80 && e == 0x80

-- Without the white space at the front; `two` and `three` find the encodings of two and three bytes.
trim_front : (ℕ → ℕ → Bool) → (ℕ → ℕ → ℕ → Bool) → Bytes → Bytes
trim_front two three [] = []
trim_front two three (c ∷ []) = if is_space_1 c then [] else c ∷ []
trim_front two three (c ∷ d ∷ []) = elim (is_space_1 c) [
  | true ↦ trim_front two three (d ∷ [])
  | false ↦ if two c d then [] else c ∷ d ∷ []
]
trim_front two three (c ∷ d ∷ e ∷ s) = elim (is_space_1 c) [
  | true ↦ trim_front two three (d ∷ e ∷ s)
  | false ↦ elim (two c d) [
    | true ↦ trim_front two three (e ∷ s)
    | false ↦ elim (three c d e) [ true ↦ trim_front two three s | false ↦ c ∷ d ∷ e ∷ s ]
  ]
]

reverse : Bytes → Bytes
reverse [] = []
reverse (c ∷ s) = reverse s ++ c ∷ []

-- strings.TrimSpace; the back is trimmed on the reversed text.
unfoldable pub trim_space : Bytes → Bytes
unfolding trim_front reverse
trim_space s = reverse (
    trim_front (λ d c. is_space_2 c d) (λ e d c. is_space_3 c d e)
      (reverse (trim_front is_space_2 is_space_3 s)))

-- Adds a byte to the first of some pieces.
abbrev prepend : ℕ → List Bytes → List Bytes
prepend c [] = (c ∷ []) ∷ []
prepend c (piece ∷ pieces) = (c ∷ piece) ∷ pieces

-- strings.SplitSeq at a separator of one byte.
unfoldable pub split : ℕ → Bytes → List Bytes
split sep [] = [] ∷ []
split sep (c ∷ s) = let rest = split sep s in if c == sep then [] ∷ rest else prepend c rest

abbrev with_first : ℕ → Option (Bytes × Bytes) → Option (Bytes × Bytes)
with_first c none = none
with_first c (some (before, after)) = some (c ∷ before, after)

-- strings.Cut at a separator of one byte, with the flag as the option.
unfoldable pub cut : ℕ → Bytes → Option (Bytes × Bytes)
cut sep [] = none
cut sep (c ∷ s) = let rest = cut sep s in if c == sep then some ([], s) else with_first c rest

-- The bytes that url.PathEscape leaves as they are.
unfoldable pub is_path_byte : ℕ → Bool
is_path_byte c =
    leb b'a' c && leb c b'z'
    || leb b'A' c && leb c b'Z'
    || leb b'0' c && leb c b'9'
    || (c == b'-' || c == b'_' || c == b'.' || c == b'~')
    || (c == b'$' || c == b'&' || c == b'+' || c == b'=' || c == b':' || c == b'@')

abbrev upper_hex : ℕ → ℕ
upper_hex n = if ltb n 10 then b'0' + n else b'A' + (n - 10)

-- url.PathEscape.
unfoldable pub path_escape : Bytes → Bytes
path_escape [] = []
path_escape (c ∷ s) =
    let rest = path_escape s in
    if is_path_byte c then c ∷ rest else b'%' ∷ upper_hex (c / 16) ∷ upper_hex (c % 16) ∷ rest

-- Text of such bytes alone is its own escape.
pub path_escape-plain : (s : Bytes) → All (λ c. is_path_byte c ≡ true) s → path_escape s ≡ s
unfolding path_escape
path_escape-plain [] h = refl
path_escape-plain (c ∷ s) h = ground (arith, h.0, path_escape-plain s h.1)
