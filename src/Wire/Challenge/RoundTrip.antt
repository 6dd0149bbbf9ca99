-- ===== src/Wire/Challenge/RoundTrip.antt =====
-- The challenge is decoded to the key that was encoded.
use incus_spire_attestor.Prelude.{
  ◌<◌, ◌≡◌, refl, ◌∙◌, subst, true, none, [], ◌∷◌, ◌++◌, arith, Bytes, same, All, All-append,
}
use incus_spire_attestor.Errors.{ok, ◌>>=◌, ◌>>◌, >>=-eq-ok}
use incus_spire_attestor.Golang.Json.{Codec, CodecLaws, is_printable, is_natural_literal}
use incus_spire_attestor.Golang.Utf8.{valid, valid-ascii}
use incus_spire_attestor.Golang.Slices.{contains}
use incus_spire_attestor.Wire.Decode.{
  encode_message, decode_raw, decode_message, decode_strict, no_duplicates, require_non_empty,
}
use incus_spire_attestor.Wire.Message.{store_all, decode_raw-encode_message}
use incus_spire_attestor.Golang.Hex.{IsLowerHex}
use incus_spire_attestor.Attest.Nonce.{config_key_prefix}
use incus_spire_attestor.Attest.Nonce.Grammar.{IsConfigKey, new_config_key_iff}
use incus_spire_attestor.Wire.Challenge.{
  checked_key, challenge_json, store_challenge, store_challenge_data, open_challenge,
  encode_challenge, decode_challenge,
}

-- The challenge envelope with this key holds what `open_challenge` wants.
challenge_opens :
    (key : Bytes)
    → (decode_strict store_challenge
          (record { version = none; challenge = none })
          (challenge_json key)
        >>= open_challenge)
      ≡ (require_non_empty key "config_key" >> checked_key key)
unfolding store_all store_challenge challenge_json open_challenge store_challenge_data
challenge_opens key = refl

checked_key_sound :
    (key : Bytes) {key' : Bytes} → checked_key key ≡ ok key' → (key' ≡ key) × IsConfigKey key
unfolding checked_key
checked_key_sound key {key'} h = (new_config_key_iff key key').0 (ground arith)

hex-below : (s : Bytes) → All IsLowerHex s → All (λ c. c < 0x80) s
hex-below [] h = tt
hex-below (c ∷ s) h = (grind (arith, h.0), hex-below s h.1)

IsConfigKey-valid : (key : Bytes) → IsConfigKey key → valid key ≡ true
IsConfigKey-valid key k = rw k.spelled (
    valid-ascii (config_key_prefix ++ k.suffix) (
      All-append (λ c. c < 0x80) config_key_prefix k.suffix (omega arith)
        (hex-below k.suffix k.digits)))

challenge_json-is_printable :
    (key : Bytes) → valid key ≡ true → is_printable (challenge_json key) ≡ true
unfolding challenge_json is_printable valid is_natural_literal
challenge_json-is_printable key h = rw h

accepted_key :
    (key : Bytes)
    → IsConfigKey key
    → checked_key key ≡ ok key
    → (require_non_empty key "config_key" >> checked_key key) ≡ ok key
unfolding require_non_empty
accepted_key key k h = rw h (rw k.spelled)

challenge_json-no_duplicates : (key : Bytes) → no_duplicates (challenge_json key) ≡ true
unfolding challenge_json no_duplicates contains same
challenge_json-no_duplicates key = refl

-- With a codec that reads back what it prints, the challenge that the server encodes for a key is
-- decoded by the agent to this key.
pub decode_challenge-encode_challenge :
    (codec : Codec)
    → CodecLaws codec
    → (key raw : Bytes) → encode_challenge codec key ≡ ok raw
    → decode_challenge codec raw ≡ ok key
unfolding encode_challenge decode_challenge decode_message
decode_challenge-encode_challenge codec laws key raw h =
    let (key', checked, written) = >>=-eq-ok (checked_key key) _ {b = raw} h in
    let (e, good) = checked_key_sound key checked in
    let read : decode_raw codec raw ≡ ok (challenge_json key) =
      decode_raw-encode_message codec laws (challenge_json key) raw
        (challenge_json-is_printable key (IsConfigKey-valid key good))
        (challenge_json-no_duplicates key)
        (subst (λ k. encode_message codec (challenge_json k) ≡ ok raw) e written) in
    rw read
      (challenge_opens key ∙ accepted_key key good (subst (λ k. checked_key key ≡ ok k) e checked))
