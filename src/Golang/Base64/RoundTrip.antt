-- ===== src/Golang/Base64/RoundTrip.antt =====
-- Decoding undoes encoding, and only the encoding of a byte string decodes to it.
use incus_spire_attestor.Prelude.{
  ℕ, ◌+◌, ◌*◌, ◌/◌, ◌%◌, ◌≤◌, ◌<◌, ◌≡◌, refl, sym, ap, ◌∙◌, inl, inr, false, some, List, [], ◌∷◌,
  map, arith, Bytes, ◌==◌, Option-cases, length, All,
}
use incus_spire_attestor.Golang.Base64.{
  encode_digit, decode_digit, encode, encoded_len, without_newlines, digits, unpack, decode,
}

decode_digit-encode_digit : (v : ℕ) → v < 64 → decode_digit (encode_digit v) ≡ some v
unfolding decode_digit encode_digit
decode_digit-encode_digit v h = ground arith

encode_digit-decode_digit : (c d : ℕ) → decode_digit c ≡ some d → (d < 64) × (encode_digit d ≡ c)
unfolding decode_digit encode_digit
encode_digit-decode_digit c d h = ground arith

plain_digit :
    (v : ℕ) → v < 64 → ((encode_digit v == b'\n') ≡ false) × ((encode_digit v == b'\r') ≡ false)
unfolding encode_digit
plain_digit v h = ground arith

-- The digit values of `encode`.
groups : Bytes → List ℕ
groups [] = []
groups (a ∷ []) = a / 4 ∷ a % 4 * 16 ∷ []
groups (a ∷ b ∷ []) = a / 4 ∷ (a % 4 * 16 + b / 16) ∷ b % 16 * 4 ∷ []
groups (a ∷ b ∷ c ∷ rest) =
    a / 4 ∷ (a % 4 * 16 + b / 16) ∷ (b % 16 * 4 + c / 64) ∷ c % 64 ∷ groups rest

groups-below : (bs : Bytes) → All (λ b. b < 256) bs → All (λ d. d < 64) (groups bs)
unfolding groups
groups-below [] h = tt
groups-below (a ∷ []) h = omega arith
groups-below (a ∷ b ∷ []) h = omega arith
groups-below (a ∷ b ∷ c ∷ rest) h =
    let later = groups-below rest h.1.1.1 in
    (omega arith, (omega arith, (omega arith, (omega arith, later))))

encode-groups : (bs : Bytes) → encode bs ≡ map encode_digit (groups bs)
unfolding encode groups
encode-groups [] = refl
encode-groups (a ∷ []) = refl
encode-groups (a ∷ b ∷ []) = refl
encode-groups (a ∷ b ∷ c ∷ rest) = rw (encode-groups rest)

digits-map : (ds : List ℕ) → All (λ d. d < 64) ds → digits (map encode_digit ds) ≡ some ds
unfolding digits
digits-map [] h = refl
digits-map (d ∷ ds) h = ground (arith, decode_digit-encode_digit d h.0, digits-map ds h.1)

without_newlines-map :
    (ds : List ℕ)
    → All (λ d. d < 64) ds
    → without_newlines (map encode_digit ds) ≡ map encode_digit ds
unfolding without_newlines
without_newlines-map [] h = refl
without_newlines-map (d ∷ ds) h = ground (arith, plain_digit d h.0, without_newlines-map ds h.1)

unpack-groups : (bs : Bytes) → All (λ b. b < 256) bs → unpack (groups bs) ≡ some bs
unfolding unpack groups
unpack-groups [] h = refl
unpack-groups (a ∷ []) h = ground arith
unpack-groups (a ∷ b ∷ []) h = ground arith
unpack-groups (a ∷ b ∷ c ∷ rest) h = ground (arith, unpack-groups rest h.1.1.1)

-- Every byte string is read back from its encoding.
pub decode-encode : (bs : Bytes) → All (λ b. b < 256) bs → decode (encode bs) ≡ some bs
unfolding decode
decode-encode bs h =
    let below = groups-below bs h in
    ground (
      arith,
      encode-groups bs,
      without_newlines-map (groups bs) below,
      digits-map (groups bs) below,
      unpack-groups bs h,
    )

digits_sound :
    (t : Bytes) (ds : List ℕ)
    → digits t ≡ some ds
    → (t ≡ map encode_digit ds) × All (λ d. d < 64) ds
unfolding digits
digits_sound [] ds h = (ground arith, ground arith)
digits_sound (c ∷ t) ds h = elim (Option-cases (decode_digit c)) [
  | inl bad ↦ absurd (ground arith)
  | inr (d, e) ↦ elim (Option-cases (digits t)) [
    | inl bad ↦ absurd (ground arith)
    | inr (rest, e') ↦
        let shape : ds ≡ d ∷ rest = ground arith in
        let (low, spelled) = encode_digit-decode_digit c d e in
        let (later, lows) = digits_sound t rest e' in rw shape (rw (spelled, ← later), (low, lows))
  ]
]

unpack_sound :
    (ds : List ℕ) (bs : Bytes)
    → All (λ d. d < 64) ds
    → unpack ds ≡ some bs
    → (ds ≡ groups bs) × All (λ b. b < 256) bs
unfolding unpack groups
unpack_sound [] bs h e = let shape : bs ≡ [] = ground arith in rw shape (refl, tt)
unpack_sound (p ∷ []) bs h e = cc
unpack_sound (p ∷ q ∷ []) bs h e =
    let zeros : q % 16 ≡ 0 = ground arith in
    let shape : bs ≡ (p * 4 + q / 16) ∷ [] = ground arith in rw shape (ground arith, omega arith)
unpack_sound (p ∷ q ∷ r ∷ []) bs h e =
    let zeros : r % 4 ≡ 0 = ground arith in
    let shape : bs ≡ (p * 4 + q / 16) ∷ (q % 16 * 16 + r / 4) ∷ [] = ground arith in
    rw shape (ground arith, omega arith)
unpack_sound (p ∷ q ∷ r ∷ s ∷ rest) bs h e = elim (Option-cases (unpack rest)) [
  | inl bad ↦ absurd (ground arith)
  | inr (bytes, e') ↦
      let shape : bs ≡ (p * 4 + q / 16) ∷ (q % 16 * 16 + r / 4) ∷ (r % 4 * 64 + s) ∷ bytes =
        ground arith in
      let (later, lows) = unpack_sound rest bytes h.1.1.1.1 e' in
      rw shape (ground (arith, later), ground (arith, lows))
]

-- What decodes is, without its line breaks, the encoding of the result: the strict decoder accepts
-- one spelling of each byte string.
pub decode_sound :
    (t bs : Bytes) → decode t ≡ some bs → (without_newlines t ≡ encode bs) × All (λ b. b < 256) bs
unfolding decode
decode_sound t bs h = elim (Option-cases (digits (without_newlines t))) [
  | inl bad ↦ absurd (ground arith)
  | inr (ds, e) ↦
      let (spelled, low) = digits_sound (without_newlines t) ds e in
      let (packed, bytes) = unpack_sound ds bs low (ground arith) in
      (spelled ∙ ap (map encode_digit) packed ∙ sym (encode-groups bs), bytes)
]

pub length-without_newlines : (t : Bytes) → length (without_newlines t) ≤ length t
unfolding without_newlines
length-without_newlines [] = omega arith
length-without_newlines (c ∷ t) = ground (arith, length-without_newlines t)

-- Nothing was skipped if no length was lost.
pub without_newlines_of_length :
    (t : Bytes) → length (without_newlines t) ≡ length t → without_newlines t ≡ t
unfolding without_newlines
without_newlines_of_length [] h = refl
without_newlines_of_length (c ∷ t) h =
    ground (arith, length-without_newlines t, without_newlines_of_length t)

pub length-encode : (bs : Bytes) → length (encode bs) ≡ encoded_len (length bs)
unfolding encode
length-encode [] = omega arith
length-encode (a ∷ []) = omega arith
length-encode (a ∷ b ∷ []) = omega arith
length-encode (a ∷ b ∷ c ∷ rest) = omega (arith, length-encode rest)

digit_below : (d : ℕ) → d < 64 → encode_digit d < 0x80
unfolding encode_digit
digit_below d h = ground arith

map-ascii : (ds : List ℕ) → All (λ d. d < 64) ds → All (λ c. c < 0x80) (map encode_digit ds)
map-ascii [] h = tt
map-ascii (d ∷ ds) h = (digit_below d h.0, map-ascii ds h.1)

-- The encoding is ASCII.
pub encode-ascii : (bs : Bytes) → All (λ b. b < 256) bs → All (λ c. c < 0x80) (encode bs)
encode-ascii bs h = rw encode-groups (map-ascii (groups bs) (groups-below bs h))
