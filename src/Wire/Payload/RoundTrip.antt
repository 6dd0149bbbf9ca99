-- ===== src/Wire/Payload/RoundTrip.antt =====
-- The payload is decoded to the claims that were encoded, with the canonical UUID.
use incus_spire_attestor.Prelude.{
  ◌≡◌, refl, ◌∙◌, ◌≢◌, true, Option, none, some, [], ◌∷◌, arith, Bytes, same, length,
}
use incus_spire_attestor.Errors.{ok, ◌>>=◌, >>=-eq-ok}
use incus_spire_attestor.Golang.Json.{
  Codec, CodecLaws, Json, string, store_string, is_printable, is_natural_literal,
}
use incus_spire_attestor.Golang.Utf8.{valid, valid-ascii}
use incus_spire_attestor.Golang.Slices.{contains}
use incus_spire_attestor.Wire.Decode.{
  decode_raw, decode_message, decode_strict, or_wrap, no_duplicates, require_non_empty,
}
use incus_spire_attestor.Wire.Message.{store_all, decode_raw-encode_message}
use incus_spire_attestor.Errors.{◌>>=◌}
use incus_spire_attestor.Attest.Types.{Claims}
use incus_spire_attestor.Attest.Claims.{new_instance_uuid, UuidLaws}
use incus_spire_attestor.Wire.Payload.{
  DecodedPayloadData, payload_json, payload_data_json, store_payload, store_payload_data, only_item,
  project_hint, payload_uuid, open_payload_data, open_payload, encode_payload, decode_payload,
}

-- The texts that JSON has to carry unchanged: valid UTF-8.
pub record IsText (c : Claims) : Type 0 where
  pub project : valid c.project ≡ true
  pub name : valid c.name ≡ true
  pub type : valid c.type ≡ true
  pub location : valid c.location ≡ true
  pub cloud_init_id : valid c.cloud_init_id ≡ true

hint : Bytes → Option Json
hint [] = none
hint (x ∷ xs) = some (string (x ∷ xs))

decoded_data : Claims → Bytes → DecodedPayloadData
unfolding hint
decoded_data c id = record {
  instance_name = c.name;
  project = hint c.project;
  instance_type = c.type;
  uuid = id;
  location = c.location;
  cloud_init_id = c.cloud_init_id;
}

payload_json-is_printable :
    (c : Claims) (id project : Bytes)
    → c.project ≡ project
    → IsText c
    → valid id ≡ true
    → is_printable (payload_json c id) ≡ true
unfolding payload_json payload_data_json is_printable valid is_natural_literal
payload_json-is_printable c id [] p t u =
    rw p (ground (arith, t.name, t.type, t.location, t.cloud_init_id))
payload_json-is_printable c id (x ∷ xs) p t u =
    rw p (ground (arith, t.name, t.type, t.location, t.cloud_init_id, t.project))

payload_json-no_duplicates :
    (c : Claims) (id project : Bytes)
    → c.project ≡ project
    → no_duplicates (payload_json c id) ≡ true
unfolding payload_json payload_data_json no_duplicates contains same
payload_json-no_duplicates c id [] p = rw p
payload_json-no_duplicates c id (x ∷ xs) p = rw p

module _ (parse_uuid : Bytes → Option Bytes) where
  payload_opens :
      (c : Claims) (id project : Bytes)
      → c.project ≡ project
      → (decode_strict store_payload
            (record { version = none; evidence = none })
            (payload_json c id)
          >>= open_payload parse_uuid)
        ≡ open_payload_data parse_uuid (decoded_data c id)
  unfolding store_all store_payload payload_json payload_data_json open_payload only_item
      store_payload_data decoded_data
  payload_opens c id [] p = rw p refl
  payload_opens c id (x ∷ xs) p = rw p refl

  payload_uuid_sound :
      (raw id : Bytes) → payload_uuid parse_uuid raw ≡ ok id → parse_uuid raw ≡ some id
  unfolding payload_uuid new_instance_uuid require_non_empty
  payload_uuid_sound raw id h = ground arith

  payload_uuid_complete :
      (id : Bytes) → parse_uuid id ≡ some id → length id ≡ 36 → payload_uuid parse_uuid id ≡ ok id
  unfolding payload_uuid new_instance_uuid require_non_empty
  payload_uuid_complete id p n = ground arith

  open_payload_data-decoded :
      (c : Claims) (id project : Bytes)
      → c.project ≡ project
      → payload_uuid parse_uuid id ≡ ok id
      → c.name ≢ []
      → c.type ≢ []
      → c.location ≢ []
      → c.cloud_init_id ≢ []
      → open_payload_data parse_uuid (decoded_data c id) ≡ ok (record c { uuid = id })
  unfolding open_payload_data decoded_data project_hint require_non_empty or_wrap store_string
  open_payload_data-decoded c id [] p u n t l i = ground arith
  open_payload_data-decoded c id (x ∷ xs) p u n t l i = ground arith

  -- With a codec that reads back what it prints and UUIDs as documented, the payload that the agent
  -- encodes for claims in UTF-8 is decoded by the server to the same claims, the UUID in its
  -- canonical spelling.
  pub decode_payload-encode_payload :
      (codec : Codec)
      → CodecLaws codec
      → UuidLaws parse_uuid
      → (c : Claims) (raw : Bytes) → IsText c
      → encode_payload parse_uuid codec c ≡ ok raw
      → (id : Bytes) × (parse_uuid c.uuid ≡ some id)
        × (decode_payload parse_uuid codec raw ≡ ok (record c { uuid = id }))
  unfolding encode_payload decode_payload decode_message require_non_empty
  decode_payload-encode_payload codec laws uuid c raw t h =
      let (id, known, rest) = >>=-eq-ok (payload_uuid parse_uuid c.uuid) _ {b = raw} h in
      let parsed : parse_uuid c.uuid ≡ some id = payload_uuid_sound c.uuid id known in
      let same_id =
        payload_uuid_complete id (uuid.canonical c.uuid id parsed) (uuid.size c.uuid id parsed) in
      let named : c.name ≢ [] = ground arith in
      let typed : c.type ≢ [] = ground arith in
      let located : c.location ≢ [] = ground arith in
      let seeded : c.cloud_init_id ≢ [] = ground arith in
      let read : decode_raw codec raw ≡ ok (payload_json c id) =
        decode_raw-encode_message codec laws (payload_json c id) raw
          (payload_json-is_printable c id c.project refl t
            (valid-ascii id (uuid.ascii c.uuid id parsed)))
          (payload_json-no_duplicates c id c.project refl) (ground arith) in
      (
        id,
        parsed,
        rw read (
            payload_opens c id c.project refl
            ∙ open_payload_data-decoded c id c.project refl same_id named typed located seeded),
      )
