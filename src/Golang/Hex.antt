-- ===== src/Golang/Hex.antt =====
-- encoding/hex: `EncodeToString`.
use incus_spire_attestor.Prelude.{
  ℕ, ◌+◌, ◌-◌, ◌*◌, ◌/◌, ◌%◌, ◌<◌, ◌≤◌, ◌≡◌, refl, ◌⊎◌, [], ◌∷◌, arith, Bytes, ltb, if◌then◌else◌,
  length, All,
}

-- `hextable[v]`, for v below 16.
digit : ℕ → ℕ
digit v = if ltb v 10 then b'0' + v else b'a' + (v - 10)

-- Two digits for each byte, the high one first.
unfoldable pub encode : Bytes → Bytes
unfolding digit
encode [] = []
encode (b ∷ bs) = digit (b / 16) ∷ digit (b % 16) ∷ encode bs

abbrev pub IsLowerHex : ℕ → Type 0
IsLowerHex c = ((b'0' ≤ c) × (c ≤ b'9')) ⊎ ((b'a' ≤ c) × (c ≤ b'f'))

pub length-encode : (bs : Bytes) → length (encode bs) ≡ 2 * length bs
unfolding encode
length-encode [] = omega arith
length-encode (b ∷ bs) = omega (arith, length-encode bs)

digit-IsLowerHex : (v : ℕ) → v < 16 → IsLowerHex (digit v)
unfolding digit
digit-IsLowerHex v h = grind arith

pub encode-IsLowerHex : (bs : Bytes) → All (λ c. c < 256) bs → All IsLowerHex (encode bs)
unfolding encode
encode-IsLowerHex [] h = tt
encode-IsLowerHex (b ∷ bs) h = (
  digit-IsLowerHex (b / 16) (omega arith),
  (digit-IsLowerHex (b % 16) (omega arith), encode-IsLowerHex bs h.1),
)

digit_injective : (v w : ℕ) → v < 16 → w < 16 → digit v ≡ digit w → v ≡ w
unfolding digit
digit_injective v w h k e = ground arith

pub encode_injective :
    (xs ys : Bytes)
    → All (λ c. c < 256) xs
    → All (λ c. c < 256) ys
    → encode xs ≡ encode ys
    → xs ≡ ys
unfolding encode
encode_injective [] [] h k e = refl
encode_injective [] (y ∷ ys) h k e = cc
encode_injective (x ∷ xs) [] h k e = cc
encode_injective (x ∷ xs) (y ∷ ys) h k e = ground (
  arith,
  digit_injective (x / 16) (y / 16),
  digit_injective (x % 16) (y % 16),
  encode_injective xs ys h.1 k.1,
)
