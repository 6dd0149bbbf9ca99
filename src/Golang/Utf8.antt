-- ===== src/Golang/Utf8.antt =====
-- unicode/utf8: `Valid`.
use incus_spire_attestor.Prelude.{
  ℕ, ◌<◌, ◌≡◌, refl, Bool, true, false, ◌&&◌, [], ◌∷◌, arith, Bytes, ltb, leb, ◌==◌, if◌then◌else◌,
  All,
}

-- Whether c continues a sequence.
abbrev pub is_continuation : ℕ → Bool
is_continuation c = leb 0x80 c && leb c 0xBF

-- Whether c may stand second behind the first byte b: no overlong form, surrogate, or value above
-- U+10FFFF.
abbrev pub second_ok : ℕ → ℕ → Bool
second_ok b c =
    if b == 0xE0
    then leb 0xA0 c && leb c 0xBF
    else if b == 0xED
    then leb 0x80 c && leb c 0x9F
    else if b == 0xF0
    then leb 0x90 c && leb c 0xBF
    else if b == 0xF4
    then leb 0x80 c && leb c 0x8F
    else is_continuation c

-- `Valid`: ASCII bytes and well-formed sequences of two to four bytes.
unfoldable pub valid : Bytes → Bool
valid [] = true
valid (a ∷ []) = ltb a 0x80
valid (a ∷ b ∷ []) = elim (ltb a 0x80) [
  | true ↦ valid (b ∷ [])
  | false ↦ leb 0xC2 a && leb a 0xDF && is_continuation b
]
valid (a ∷ b ∷ c ∷ []) = elim (ltb a 0x80) [
  | true ↦ valid (b ∷ c ∷ [])
  | false ↦ elim (leb 0xC2 a && leb a 0xDF) [
    | true ↦ is_continuation b && valid (c ∷ [])
    | false ↦ leb 0xE0 a && leb a 0xEF && second_ok a b && is_continuation c
  ]
]
valid (a ∷ b ∷ c ∷ d ∷ s) = elim (ltb a 0x80) [
  | true ↦ valid (b ∷ c ∷ d ∷ s)
  | false ↦ elim (leb 0xC2 a && leb a 0xDF) [
    | true ↦ is_continuation b && valid (c ∷ d ∷ s)
    | false ↦ elim (leb 0xE0 a && leb a 0xEF) [
      | true ↦ second_ok a b && is_continuation c && valid (d ∷ s)
      | false ↦
          leb 0xF0 a
          && leb a 0xF4
          && second_ok a b
          && is_continuation c
          && is_continuation d
          && valid s
    ]
  ]
]

pub valid-ascii : (s : Bytes) → All (λ c. c < 0x80) s → valid s ≡ true
unfolding valid
valid-ascii [] h = refl
valid-ascii (a ∷ []) h = ground arith
valid-ascii (a ∷ b ∷ []) h = ground (arith, valid-ascii (b ∷ []) h.1)
valid-ascii (a ∷ b ∷ c ∷ []) h = ground (arith, valid-ascii (b ∷ c ∷ []) h.1)
valid-ascii (a ∷ b ∷ c ∷ d ∷ s) h = ground (arith, valid-ascii (b ∷ c ∷ d ∷ s) h.1)
