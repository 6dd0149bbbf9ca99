-- ===== src/Wire/Payload.antt =====
-- payload.go: the message that carries the guest's claims.
pub mod RoundTrip
use incus_spire_attestor.Prelude.{
  ℕ, zero, suc, ◌+◌, ◌-◌, ◌*◌, ◌/◌, ◌%◌, ◌^◌, ◌≤◌, ◌<◌, String, ◌≡◌, refl, sym, ap, ◌∙◌, subst, ◌≢◌,
  ◌↔◌, ◌⊎◌, inl, inr, Bool, true, false, not, ◌&&◌, ◌||◌, Option, none, some, List, [], ◌∷◌, ◌++◌,
  map, append-nil, append_assoc, arith, Bytes, codes, ltb, leb, ◌==◌, if◌then◌else◌, Bool-cases,
  Option-cases, same, same_self, same_iff, is_empty, length, take, drop, all, length-append,
  take-append-drop, length-drop, All, All-append,
}
use incus_spire_attestor.Errors.{Result, ok, err, json, unknown_field, require, ◌>>=◌, ◌>>◌}
use incus_spire_attestor.Golang.Json.{
  Json, string, array, object, nil, cons, Members, end, member, Codec, GoInt, is_field, store_int,
  store_string, store_list,
}
use incus_spire_attestor.Attest.Types.{Claims}
use incus_spire_attestor.Attest.Claims.{new_instance_uuid}
use incus_spire_attestor.Wire.Decode.{
  guest_claims_type, version_one, invalid, or_wrap, or_missing, encode_message, decode_message,
  decode_strict, decode_typed_object, require_version, require_non_empty,
}

-- payloadData; an empty project is omitted.
unfoldable pub project_member : Bytes → Members → Members
project_member project rest =
    if is_empty project then rest else member (codes "project") (string project) rest

unfoldable pub payload_data_json : Claims → Bytes → Json
unfolding project_member
payload_data_json claims id = object (
    member (codes "instance_name") (string claims.name) (
      project_member claims.project (
        member (codes "instance_type") (string claims.type) (
          member (codes "uuid") (string id) (
            member (codes "location") (string claims.location)
              (member (codes "cloud_init_id") (string claims.cloud_init_id) end))))))

-- The value of payloadEnvelope and payloadEvidence.
unfoldable pub payload_json : Claims → Bytes → Json
payload_json claims id = object (
    member (codes "version") version_one (
      member (codes "evidence")
        (array (
          cons
            (object (
              member (codes "type") (string guest_claims_type) (
                member (codes "version") version_one
                  (member (codes "data") (payload_data_json claims id) end))))
            nil))
        end))

-- decodedPayload.
pub record DecodedPayload : Type 0 where
  pub version : Option GoInt
  pub evidence : Option Json

unfoldable pub store_payload : Bytes → Json → DecodedPayload → Result DecodedPayload
store_payload key v env =
    if is_field (codes "version") key
    then (do n ← store_int v; ok (record env { version = n }))
    else if is_field (codes "evidence") key
    then ok (record env { evidence = some v })
    else err (json unknown_field)

-- decodedPayloadData; an absent project is `none`.
pub record DecodedPayloadData : Type 0 where
  pub instance_name : Bytes
  pub project : Option Json
  pub instance_type : Bytes
  pub uuid : Bytes
  pub location : Bytes
  pub cloud_init_id : Bytes

abbrev pub empty_data : DecodedPayloadData
empty_data = record {
  instance_name = [];
  project = none;
  instance_type = [];
  uuid = [];
  location = [];
  cloud_init_id = [];
}

unfoldable pub store_payload_data : Bytes → Json → DecodedPayloadData → Result DecodedPayloadData
store_payload_data key v d =
    if is_field (codes "instance_name") key
    then (do s ← store_string d.instance_name v; ok (record d { instance_name = s }))
    else if is_field (codes "project") key
    then ok (record d { project = some v })
    else if is_field (codes "instance_type") key
    then (do s ← store_string d.instance_type v; ok (record d { instance_type = s }))
    else if is_field (codes "uuid") key
    then (do s ← store_string d.uuid v; ok (record d { uuid = s }))
    else if is_field (codes "location") key
    then (do s ← store_string d.location v; ok (record d { location = s }))
    else if is_field (codes "cloud_init_id") key
    then (do s ← store_string d.cloud_init_id v; ok (record d { cloud_init_id = s }))
    else err (json unknown_field)

-- The one evidence item.
unfoldable pub only_item : List Json → Result Json
only_item (v ∷ []) = ok v
only_item [] = err (invalid "evidence count")
only_item (v ∷ w ∷ vs) = err (invalid "evidence count")

-- The project hint: absent, or a string that is not empty.
unfoldable pub project_hint : Option Json → Result Bytes
project_hint none = ok []
project_hint (some v) = do
  project ← or_wrap (store_string [] v)
  require (not (is_empty project)) (invalid "project is empty")
  ok project

module _ (parse_uuid : Bytes → Option Bytes) where
  -- payloadUUID.
  unfoldable pub payload_uuid : Bytes → Result Bytes
  payload_uuid raw = do
    require_non_empty raw "uuid"
    elim (new_instance_uuid parse_uuid raw) [
      | ok id ↦ ok id
      | err _ ↦ err (invalid "uuid is not a canonical UUID")
    ]

  -- The checks of DecodePayload on the decoded guest claims.
  unfoldable pub open_payload_data : DecodedPayloadData → Result Claims
  open_payload_data d = do
    require_non_empty d.instance_name "instance_name"
    require_non_empty d.instance_type "instance_type"
    require_non_empty d.location "location"
    require_non_empty d.cloud_init_id "cloud_init_id"
    id ← payload_uuid d.uuid
    project ← project_hint d.project
    ok (record {
      project = project;
      name = d.instance_name;
      uuid = id;
      type = d.instance_type;
      location = d.location;
      cloud_init_id = d.cloud_init_id;
    })

  -- DecodePayload, behind decodeMessage.
  unfoldable pub open_payload : DecodedPayload → Result Claims
  open_payload env = do
    require_version env.version
    evidence ← or_missing env.evidence "evidence"
    items ← or_wrap (store_list evidence)
    item ← only_item items
    body ← decode_typed_object (some item) guest_claims_type "evidence"
    d ← decode_strict store_payload_data empty_data body
    open_payload_data d

  module _ (codec : Codec) where
    -- EncodePayload.
    unfoldable pub encode_payload : Claims → Result Bytes
    encode_payload claims = do
      id ← payload_uuid claims.uuid
      require_non_empty claims.name "instance_name"
      require_non_empty claims.type "instance_type"
      require_non_empty claims.location "location"
      require_non_empty claims.cloud_init_id "cloud_init_id"
      encode_message codec (payload_json claims id)

    -- DecodePayload.
    unfoldable pub decode_payload : Bytes → Result Claims
    decode_payload raw = do
      env ← decode_message codec store_payload (record { version = none; evidence = none }) raw
      open_payload env
