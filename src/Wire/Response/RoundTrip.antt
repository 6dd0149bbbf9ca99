-- ===== src/Wire/Response/RoundTrip.antt =====
-- The response is decoded to the nonce that was encoded, and a nonce has one spelling.
use incus_spire_attestor.Prelude.{
  ◌<◌, ◌≡◌, refl, sym, ap, ◌∙◌, subst, inl, inr, true, none, arith, Bytes, Option-cases, same,
  length, All,
}
use incus_spire_attestor.Errors.{ok, ◌>>=◌, ◌>>◌}
use incus_spire_attestor.Golang.Json.{Codec, CodecLaws, is_printable, is_natural_literal}
use incus_spire_attestor.Golang.Utf8.{valid, valid-ascii}
use incus_spire_attestor.Golang.Slices.{contains}
use incus_spire_attestor.Wire.Decode.{
  decode_raw, decode_message, decode_strict, no_duplicates, require_non_empty,
}
use incus_spire_attestor.Wire.Message.{store_all, decode_raw-encode_message}
use incus_spire_attestor.Golang.Base64
use incus_spire_attestor.Golang.Base64.{without_newlines}
use incus_spire_attestor.Golang.Base64.RoundTrip.{
  decode-encode, decode_sound, length-encode, without_newlines_of_length, encode-ascii,
}
use incus_spire_attestor.Attest.Types.{IsBytes16}
use incus_spire_attestor.Attest.Nonce.{new_nonce}
use incus_spire_attestor.Wire.Response.{
  response_json, store_response, store_response_data, open_response, encode_response,
  decode_response, parse_nonce,
}

-- The response envelope with this nonce holds what `open_response` wants.
response_opens :
    (nonce : Bytes)
    → (decode_strict store_response
          (record { version = none; response = none })
          (response_json nonce)
        >>= open_response)
      ≡ (require_non_empty (Base64.encode nonce) "nonce" >> parse_nonce (Base64.encode nonce))
unfolding store_all store_response response_json open_response store_response_data
response_opens nonce = refl

-- ParseNonce reads back the text that the server stores for a nonce of 16 bytes.
pub parse_nonce-encode :
    (nonce : Bytes) → IsBytes16 nonce → parse_nonce (Base64.encode nonce) ≡ ok nonce
unfolding parse_nonce new_nonce
parse_nonce-encode nonce h = ground (arith, decode-encode nonce h.1, length-encode nonce)

-- ParseNonce accepts one spelling of each nonce: what it returns has 16 bytes, and is the nonce whose
-- encoding the text is.
pub parse_nonce_sound :
    (raw nonce : Bytes) → parse_nonce raw ≡ ok nonce → IsBytes16 nonce × (raw ≡ Base64.encode nonce)
unfolding parse_nonce new_nonce
parse_nonce_sound raw nonce h = elim (Option-cases (Base64.decode raw)) [
  | inl bad ↦ absurd (ground arith)
  | inr (decoded, e) ↦
      let shape : (decoded ≡ nonce) × (length nonce ≡ 16) × (length raw ≡ 22) =
        (ground arith, ground arith, ground arith) in
      let (spelled, bytes) = decode_sound raw decoded e in
      let whole : without_newlines raw ≡ raw = without_newlines_of_length raw (
        ap length spelled
        ∙ length-encode decoded
        ∙ omega (arith, shape.2, ap length shape.0, shape.1)) in
      (
        (shape.1, subst (All (λ c. c < 256)) shape.0 bytes),
        sym whole ∙ spelled ∙ ap Base64.encode shape.0,
      )
]

response_json-is_printable :
    (nonce : Bytes) → IsBytes16 nonce → is_printable (response_json nonce) ≡ true
unfolding response_json is_printable valid is_natural_literal
response_json-is_printable nonce h = rw (valid-ascii (Base64.encode nonce) (encode-ascii nonce h.1))

response_json-no_duplicates : (nonce : Bytes) → no_duplicates (response_json nonce) ≡ true
unfolding response_json no_duplicates contains same
response_json-no_duplicates nonce = refl

accepted_nonce :
    (nonce : Bytes)
    → IsBytes16 nonce
    → (require_non_empty (Base64.encode nonce) "nonce" >> parse_nonce (Base64.encode nonce))
      ≡ ok nonce
unfolding require_non_empty
accepted_nonce nonce h = ground (arith, length-encode nonce, parse_nonce-encode nonce h)

-- With a codec that reads back what it prints, the response that the agent encodes for a nonce of 16
-- bytes is decoded by the server to this nonce.
pub decode_response-encode_response :
    (codec : Codec)
    → CodecLaws codec
    → (nonce raw : Bytes) → IsBytes16 nonce
    → encode_response codec nonce ≡ ok raw
    → decode_response codec raw ≡ ok nonce
unfolding encode_response decode_response decode_message
decode_response-encode_response codec laws nonce raw h e =
    let read : decode_raw codec raw ≡ ok (response_json nonce) =
      decode_raw-encode_message codec laws (response_json nonce) raw
        (response_json-is_printable nonce h) (response_json-no_duplicates nonce) e in
    rw read (response_opens nonce ∙ accepted_nonce nonce h)
