-- ===== src/Wire/Response.antt =====
-- response.go: the message that returns the nonce.
pub mod RoundTrip
use incus_spire_attestor.Prelude.{
  ℕ, zero, suc, ◌+◌, ◌-◌, ◌*◌, ◌/◌, ◌%◌, ◌^◌, ◌≤◌, ◌<◌, String, ◌≡◌, refl, sym, ap, ◌∙◌, subst, ◌≢◌,
  ◌↔◌, ◌⊎◌, inl, inr, Bool, true, false, not, ◌&&◌, ◌||◌, Option, none, some, List, [], ◌∷◌, ◌++◌,
  map, append-nil, append_assoc, arith, Bytes, codes, ltb, leb, ◌==◌, if◌then◌else◌, Bool-cases,
  Option-cases, same, same_self, same_iff, is_empty, length, take, drop, all, length-append,
  take-append-drop, length-drop, All, All-append,
}
use incus_spire_attestor.Errors.{Result, ok, err, json, unknown_field, require, ◌>>=◌, ◌>>◌}
use incus_spire_attestor.Golang.Base64
use incus_spire_attestor.Golang.Json.{
  Json, string, object, end, member, Codec, GoInt, is_field, store_int, store_string,
}
use incus_spire_attestor.Attest.Nonce.{new_nonce}
use incus_spire_attestor.Wire.Decode.{
  config_nonce_type, version_one, invalid, encode_message, decode_message, decode_strict,
  decode_typed_object, require_version, require_non_empty,
}

-- The value of responseEnvelope, responseBody and responseData.
unfoldable pub response_json : Bytes → Json
response_json nonce = object (
    member (codes "version") version_one (
      member (codes "response")
        (object (
          member (codes "type") (string config_nonce_type) (
            member (codes "version") version_one (
              member (codes "data")
                (object (member (codes "nonce") (string (Base64.encode nonce)) end)) end))))
        end))

-- decodedResponse.
pub record DecodedResponse : Type 0 where
  pub version : Option GoInt
  pub response : Option Json

unfoldable pub store_response : Bytes → Json → DecodedResponse → Result DecodedResponse
store_response key v env =
    if is_field (codes "version") key
    then (do n ← store_int v; ok (record env { version = n }))
    else if is_field (codes "response") key
    then ok (record env { response = some v })
    else err (json unknown_field)

-- decodedResponseData, whose one field is a string.
unfoldable pub store_response_data : Bytes → Json → Bytes → Result Bytes
store_response_data key v nonce =
    if is_field (codes "nonce") key then store_string nonce v else err (json unknown_field)

-- NewNonce, with its error replaced.
unfoldable pub checked_nonce : Bytes → Result Bytes
checked_nonce raw = elim (new_nonce raw) [
  | ok nonce ↦ ok nonce
  | err _ ↦ err (invalid "invalid nonce length")
]

-- ParseNonce.
unfoldable pub parse_nonce : Bytes → Result Bytes
unfolding checked_nonce
parse_nonce raw = do
  require (length raw == Base64.encoded_len 16) (invalid "invalid nonce length")
  elim (Base64.decode raw) [
    | none ↦ err (invalid "invalid nonce encoding")
    | some decoded ↦ checked_nonce decoded
  ]

-- DecodeResponse, behind decodeMessage.
unfoldable pub open_response : DecodedResponse → Result Bytes
open_response env = do
  require_version env.version
  body ← decode_typed_object env.response config_nonce_type "response"
  nonce ← decode_strict store_response_data [] body
  require_non_empty nonce "nonce"
  parse_nonce nonce

module _ (codec : Codec) where
  -- EncodeResponse.
  unfoldable pub encode_response : Bytes → Result Bytes
  encode_response nonce = encode_message codec (response_json nonce)

  -- DecodeResponse.
  unfoldable pub decode_response : Bytes → Result Bytes
  decode_response raw = do
    env ← decode_message codec store_response (record { version = none; response = none }) raw
    open_response env
