-- ===== src/Wire/Challenge.antt =====
-- challenge.go: the message that names the challenge key.
pub mod RoundTrip
use incus_spire_attestor.Prelude.{
  ℕ, zero, suc, ◌+◌, ◌-◌, ◌*◌, ◌/◌, ◌%◌, ◌^◌, ◌≤◌, ◌<◌, String, ◌≡◌, refl, sym, ap, ◌∙◌, subst, ◌≢◌,
  ◌↔◌, ◌⊎◌, inl, inr, Bool, true, false, not, ◌&&◌, ◌||◌, Option, none, some, List, [], ◌∷◌, ◌++◌,
  map, append-nil, append_assoc, arith, Bytes, codes, ltb, leb, ◌==◌, if◌then◌else◌, Bool-cases,
  Option-cases, same, same_self, same_iff, is_empty, length, take, drop, all, length-append,
  take-append-drop, length-drop, All, All-append,
}
use incus_spire_attestor.Errors.{Result, ok, err, json, unknown_field, ◌>>=◌, ◌>>◌}
use incus_spire_attestor.Golang.Json.{
  Json, string, object, end, member, Codec, GoInt, is_field, store_int, store_string,
}
use incus_spire_attestor.Attest.Nonce.{new_config_key}
use incus_spire_attestor.Wire.Decode.{
  config_nonce_type, version_one, invalid, encode_message, decode_message, decode_strict,
  decode_typed_object, require_version, require_non_empty,
}

-- NewConfigKey, with its error replaced.
unfoldable pub checked_key : Bytes → Result Bytes
checked_key raw = elim (new_config_key raw) [
  | ok key ↦ ok key
  | err _ ↦ err (invalid "invalid config_key")
]

-- The value of challengeEnvelope, challengeBody and challengeData.
unfoldable pub challenge_json : Bytes → Json
challenge_json key = object (
    member (codes "version") version_one (
      member (codes "challenge")
        (object (
          member (codes "type") (string config_nonce_type) (
            member (codes "version") version_one
              (member (codes "data") (object (member (codes "config_key") (string key) end)) end))))
        end))

-- decodedChallenge.
pub record DecodedChallenge : Type 0 where
  pub version : Option GoInt
  pub challenge : Option Json

unfoldable pub store_challenge : Bytes → Json → DecodedChallenge → Result DecodedChallenge
store_challenge key v env =
    if is_field (codes "version") key
    then (do n ← store_int v; ok (record env { version = n }))
    else if is_field (codes "challenge") key
    then ok (record env { challenge = some v })
    else err (json unknown_field)

-- decodedChallengeData, whose one field is a string.
unfoldable pub store_challenge_data : Bytes → Json → Bytes → Result Bytes
store_challenge_data key v config_key =
    if is_field (codes "config_key") key
    then store_string config_key v
    else err (json unknown_field)

-- DecodeChallenge, behind decodeMessage.
unfoldable pub open_challenge : DecodedChallenge → Result Bytes
open_challenge env = do
  require_version env.version
  body ← decode_typed_object env.challenge config_nonce_type "challenge"
  config_key ← decode_strict store_challenge_data [] body
  require_non_empty config_key "config_key"
  checked_key config_key

module _ (codec : Codec) where
  -- EncodeChallenge.
  unfoldable pub encode_challenge : Bytes → Result Bytes
  encode_challenge key = do parsed ← checked_key key; encode_message codec (challenge_json parsed)

  -- DecodeChallenge.
  unfoldable pub decode_challenge : Bytes → Result Bytes
  decode_challenge raw = do
    env ← decode_message codec store_challenge (record { version = none; challenge = none }) raw
    open_challenge env
