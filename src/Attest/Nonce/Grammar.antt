-- ===== src/Attest/Nonce/Grammar.antt =====
-- What the challenge-key grammar of nonce.go accepts, and that generated keys are in it.
use incus_spire_attestor.Prelude.{
  ◌≡◌, refl, sym, ap, ◌↔◌, ◌++◌, [], ◌∷◌, true, arith, Bytes, same, same_iff, same_self, length,
  length-drop, take, drop, take-append-drop, all, All, ◌∙◌,
}
use incus_spire_attestor.Errors.{ok}
use incus_spire_attestor.Golang.Hex
use incus_spire_attestor.Golang.Hex.{IsLowerHex, encode-IsLowerHex, length-encode, encode_injective}
use incus_spire_attestor.Attest.Types.{IsBytes16}
use incus_spire_attestor.Attest.Nonce.{
  config_key_prefix, is_lower_hex, new_config_key, new_config_key_from_attempt_id,
}

-- The v1 grammar: the prefix, then exactly 32 lowercase hexadecimal digits.
pub record IsConfigKey (raw : Bytes) : Type 0 where
  pub suffix : Bytes
  pub spelled : raw ≡ config_key_prefix ++ suffix
  pub exact : length suffix ≡ 32
  pub digits : All IsLowerHex suffix

all_sound : (s : Bytes) → all is_lower_hex s ≡ true → All IsLowerHex s
unfolding is_lower_hex
all_sound [] h = tt
all_sound (c ∷ s) h = (ground arith, all_sound s (ground arith))

all_complete : (s : Bytes) → All IsLowerHex s → all is_lower_hex s ≡ true
unfolding is_lower_hex
all_complete [] h = refl
all_complete (c ∷ s) h = ground (arith, all_complete s h.1)

take-append : (p s : Bytes) → take (length p) (p ++ s) ≡ p
take-append [] s = refl
take-append (c ∷ p) s = ap (◌∷◌ c) (take-append p s)

drop-append : (p s : Bytes) → drop (length p) (p ++ s) ≡ s
drop-append [] s = refl
drop-append (c ∷ p) s = drop-append p s

-- The three tests of `new_config_key`.
new_config_key_tests :
    (raw : Bytes) {key : Bytes}
    → new_config_key raw ≡ ok key
    → (key ≡ raw)
      × (length raw ≡ 58)
      × (same (take (length config_key_prefix) raw) config_key_prefix ≡ true)
      × (all is_lower_hex (drop (length config_key_prefix) raw) ≡ true)
unfolding new_config_key
new_config_key_tests raw h = ground arith

new_config_key_sound :
    (raw : Bytes) {key : Bytes} → new_config_key raw ≡ ok key → (key ≡ raw) × IsConfigKey raw
new_config_key_sound raw h =
    let (e, len, begins, digits) = new_config_key_tests raw h in
    (
      e,
      record {
        suffix = drop 26 raw;
        spelled =
            sym (take-append-drop 26 raw)
            ∙ ap (λ (p : Bytes). p ++ drop 26 raw) ((same_iff _ config_key_prefix).0 begins);
        exact = omega (arith, length-drop 26 raw);
        digits = all_sound (drop 26 raw) digits;
      },
    )

new_config_key_complete :
    (s : Bytes)
    → length s ≡ 32
    → All IsLowerHex s
    → new_config_key (config_key_prefix ++ s) ≡ ok (config_key_prefix ++ s)
unfolding new_config_key
new_config_key_complete s exact digits =
    ground (arith, same_self config_key_prefix, all_complete s digits)

-- A text is accepted as a challenge key exactly if it is the prefix followed by 32 lowercase
-- hexadecimal digits, and the key is the text itself.
pub new_config_key_iff :
    (raw key : Bytes) → (new_config_key raw ≡ ok key) ↔ ((key ≡ raw) × IsConfigKey raw)
new_config_key_iff raw key = (
  new_config_key_sound raw,
  λ (e, g). rw (e, g.spelled) (new_config_key_complete g.suffix g.exact g.digits),
)

-- Every key made from a 16-byte attempt ID is accepted by the parser of challenge keys.
pub new_config_key-from_attempt_id :
    (id : Bytes)
    → IsBytes16 id
    → new_config_key (new_config_key_from_attempt_id id) ≡ ok (new_config_key_from_attempt_id id)
unfolding new_config_key_from_attempt_id
new_config_key-from_attempt_id id h =
    new_config_key_complete (Hex.encode id) (omega (arith, length-encode id))
      (encode-IsLowerHex id h.1)

-- Different attempt IDs of 16 bytes have different keys.
pub new_config_key_from_attempt_id_injective :
    (id id' : Bytes)
    → IsBytes16 id
    → IsBytes16 id'
    → new_config_key_from_attempt_id id ≡ new_config_key_from_attempt_id id'
    → id ≡ id'
unfolding new_config_key_from_attempt_id
new_config_key_from_attempt_id_injective id id' h h' e = encode_injective id id' h.1 h'.1 (
    sym (drop-append config_key_prefix (Hex.encode id))
    ∙ ap (drop 26) e
    ∙ drop-append config_key_prefix (Hex.encode id'))
