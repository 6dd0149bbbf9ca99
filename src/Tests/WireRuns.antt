-- ===== src/Tests/WireRuns.antt =====
-- Concrete runs of the wire package, and its theorems at concrete inputs.
use incus_spire_attestor.Prelude.{◌≡◌, refl, Bytes, codes, some, same}
use incus_spire_attestor.Errors.{ok}
use incus_spire_attestor.Golang.Base64
use incus_spire_attestor.Attest.Types.{IsBytes16}
use incus_spire_attestor.Attest.Nonce.{new_config_key, new_nonce}
use incus_spire_attestor.Wire.Challenge.{
  encode_challenge, decode_challenge, challenge_json, checked_key,
}
use incus_spire_attestor.Wire.Challenge.RoundTrip.{decode_challenge-encode_challenge}
use incus_spire_attestor.Wire.Response.{
  encode_response, decode_response, parse_nonce, response_json,
}
use incus_spire_attestor.Wire.Response.RoundTrip.{
  decode_response-encode_response, parse_nonce-encode, parse_nonce_sound,
}
use incus_spire_attestor.Wire.Payload.{
  encode_payload, decode_payload, payload_json, payload_uuid, payload_data_json,
}
use incus_spire_attestor.Wire.Payload.RoundTrip.{IsText, decode_payload-encode_payload}
use incus_spire_attestor.Tests.Postfix.{postfix, postfix-CodecLaws}
use incus_spire_attestor.Wire.Decode.{encode_message, require_non_empty}
use incus_spire_attestor.Golang.Utf8.{valid}
use incus_spire_attestor.Attest.Claims.{new_instance_uuid}
use incus_spire_attestor.Tests.Samples.{
  uuid0, parse_uuid0, parse_uuid0-UuidLaws, claims0, id0, id0-IsBytes16,
}

abbrev key0 : Bytes
key0 = codes "user.spire.attestor.nonce.000102030405060708090a0b0c0d0eff"

challenge0_encoded : encode_challenge postfix key0 ≡ ok (postfix.print (challenge_json key0))
unfolding encode_challenge checked_key new_config_key same encode_message challenge_json postfix
challenge0_encoded = refl

challenge_example : decode_challenge postfix (postfix.print (challenge_json key0)) ≡ ok key0
challenge_example =
    decode_challenge-encode_challenge postfix postfix-CodecLaws key0
      (postfix.print (challenge_json key0)) challenge0_encoded

nonce0_text : parse_nonce (codes "AAECAwQFBgcICQoLDA0O_w") ≡ ok id0
unfolding parse_nonce Base64.decode Base64.digits Base64.without_newlines Base64.decode_digit
    Base64.unpack new_nonce
nonce0_text = refl

parse_nonce_example : parse_nonce (Base64.encode id0) ≡ ok id0
parse_nonce_example = parse_nonce-encode id0 id0-IsBytes16

nonce_spelling_example : IsBytes16 id0 × (codes "AAECAwQFBgcICQoLDA0O_w" ≡ Base64.encode id0)
nonce_spelling_example = parse_nonce_sound (codes "AAECAwQFBgcICQoLDA0O_w") id0 nonce0_text

response0_encoded : encode_response postfix id0 ≡ ok (postfix.print (response_json id0))
unfolding encode_response encode_message response_json postfix Base64.encode Base64.encode_digit
response0_encoded = refl

response_example : decode_response postfix (postfix.print (response_json id0)) ≡ ok id0
response_example =
    decode_response-encode_response postfix postfix-CodecLaws id0
      (postfix.print (response_json id0)) id0-IsBytes16 response0_encoded

claims0-IsText : IsText claims0
unfolding valid
claims0-IsText = record {
  project = refl;
  name = refl;
  type = refl;
  location = refl;
  cloud_init_id = refl;
}

payload0_encoded :
    encode_payload parse_uuid0 postfix claims0 ≡ ok (postfix.print (payload_json claims0 uuid0))
unfolding encode_payload payload_uuid require_non_empty new_instance_uuid same encode_message
    payload_json postfix payload_data_json
payload0_encoded = refl

payload_example :
    (id : Bytes) × (parse_uuid0 claims0.uuid ≡ some id)
    × (decode_payload parse_uuid0 postfix (postfix.print (payload_json claims0 uuid0))
        ≡ ok (record claims0 { uuid = id }))
payload_example =
    decode_payload-encode_payload parse_uuid0 postfix postfix-CodecLaws parse_uuid0-UuidLaws claims0
      (postfix.print (payload_json claims0 uuid0)) claims0-IsText payload0_encoded
