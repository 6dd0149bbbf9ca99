-- ===== src/Wire/Decode.antt =====
-- decode.go: bounds, strict JSON decoding, and the typed envelope shared by the messages. The text of
-- a JSON value is parsed by `codec`; the walk for duplicate names is over the parsed value, which has
-- the same tokens, and a text with no value is refused here as it is by the walk.
use incus_spire_attestor.Prelude.{
  ℕ, String, Bool, true, not, ◌&&◌, Option, none, some, List, [], ◌∷◌, Bytes, codes, ltb, ◌==◌,
  if◌then◌else◌, same, is_empty, length,
}
use incus_spire_attestor.Errors.{
  Result, ok, err, Error, json, eof, syntax, wrong_type, unknown_field, wrap, sentinel,
  wire_invalid, wire_unsupported, require, ◌>>=◌, ◌>>◌,
}
use incus_spire_attestor.Golang.Json.{
  Json, null, bool, number, string, array, object, Items, nil, cons, Members, end, member, Codec,
  GoInt, is_field, store_int, store_string_pointer, store_struct,
}
use incus_spire_attestor.Golang.Slices.{contains}
use incus_spire_attestor.Golang.Utf8.{valid}

-- maxMessageSize.
abbrev pub max_message_size : ℕ
max_message_size = 65536

abbrev pub guest_claims_type : Bytes
guest_claims_type = codes "incus-guest-claims"

abbrev pub config_nonce_type : Bytes
config_nonce_type = codes "incus-config-nonce"

-- envelopeVersion, guestClaimsVersion and configNonceVersion are all 1; this is their literal.
abbrev pub version_one : Json
version_one = number (codes "1")

abbrev pub invalid : String → Error
invalid message = wrap message (sentinel wire_invalid)

abbrev pub unsupported : String → Error
unsupported message = wrap message (sentinel wire_unsupported)

-- wrapJSONError.
unfoldable pub wrap_json_error : Error → Error
wrap_json_error (json eof) = invalid "empty JSON message"
wrap_json_error (json syntax) = invalid "invalid JSON at offset"
wrap_json_error (json wrong_type) = invalid "invalid JSON type"
wrap_json_error (json unknown_field) = invalid "unknown field"
wrap_json_error _ = invalid "invalid JSON"

unfoldable pub or_wrap {ℓ} : {A : Type ℓ} → Result A → Result A
unfolding wrap_json_error
or_wrap (ok a) = ok a
or_wrap (err e) = err (wrap_json_error e)

-- rejectDuplicateValue, rejectDuplicateObject with its `seen`, and rejectDuplicateArray.
unfoldable mutual
  pub no_duplicates : Json → Bool
  no_duplicates null = true
  no_duplicates (bool _) = true
  no_duplicates (number _) = true
  no_duplicates (string _) = true
  no_duplicates (array vs) = no_duplicates_array vs
  no_duplicates (object ms) = no_duplicates_object ms []

  pub no_duplicates_array : Items → Bool
  no_duplicates_array nil = true
  no_duplicates_array (cons v vs) = no_duplicates v && no_duplicates_array vs

  pub no_duplicates_object : Members → List Bytes → Bool
  no_duplicates_object end seen = true
  no_duplicates_object (member key v ms) seen =
      not (contains seen key) && (no_duplicates v && no_duplicates_object ms (key ∷ seen))

-- decodeStrict of a value that is already parsed, into a struct that `store` fills.
unfoldable pub decode_strict {ℓ} :
    {S : Type ℓ} → (Bytes → Json → S → Result S) → S → Json → Result S
decode_strict store s v = or_wrap (store_struct store s v)

-- requireVersion.
unfoldable pub require_version : Option GoInt → Result (Unit {0})
require_version none = err (invalid "version is required")
require_version (some n) =
    if not n.negative && n.magnitude == 1 then ok tt else err (unsupported "version")

-- requireType.
unfoldable pub require_type : Option Bytes → Bytes → Result (Unit {0})
require_type none want = err (invalid "type is required")
require_type (some got) want =
    if is_empty got
    then err (invalid "type is required")
    else if not (same got want)
    then err (unsupported "unsupported type")
    else ok tt

-- requireNonEmpty.
unfoldable pub require_non_empty : Bytes → String → Result (Unit {0})
require_non_empty value name =
    if is_empty value then err (wrap name (invalid "is required")) else ok tt

-- typedObject; `data` is absent, or the raw value.
pub record TypedObject : Type 0 where
  pub type : Option Bytes
  pub version : Option GoInt
  pub body : Option Json

abbrev empty_object : TypedObject
empty_object = record { type = none; version = none; body = none }

unfoldable pub store_typed_object : Bytes → Json → TypedObject → Result TypedObject
store_typed_object key v obj =
    if is_field (codes "type") key
    then (do t ← store_string_pointer v; ok (record obj { type = t }))
    else if is_field (codes "version") key
    then (do n ← store_int v; ok (record obj { version = n }))
    else if is_field (codes "data") key
    then ok (record obj { body = some v })
    else err (json unknown_field)

unfoldable pub or_missing : Option Json → String → Result Json
or_missing none name = err (wrap name (invalid "is required"))
or_missing (some v) name = ok v

-- decodeTypedObject; an absent message is `none`.
unfoldable pub decode_typed_object : Option Json → Bytes → String → Result Json
decode_typed_object raw want what = do
  v ← or_missing raw what
  obj ← decode_strict store_typed_object empty_object v
  require_type obj.type want
  require_version obj.version
  or_missing obj.body "data"

module _ (codec : Codec) where
  open codec use {print, parse}

  -- encodeMessage.
  unfoldable pub encode_message : Json → Result Bytes
  encode_message v =
      let raw = print v in
      if ltb max_message_size (length raw)
      then err (invalid "message exceeds 65536 bytes")
      else ok raw

  -- decodeRaw: size, UTF-8, one value and no duplicate name.
  unfoldable pub decode_raw : Bytes → Result Json
  decode_raw raw = do
    require (not (ltb max_message_size (length raw))) (invalid "message exceeds 65536 bytes")
    require (valid raw) (invalid "message is not valid UTF-8")
    v ← or_wrap (parse raw)
    require (no_duplicates v) (invalid "duplicate field")
    ok v

  -- decodeMessage.
  unfoldable pub decode_message {ℓ} :
      {S : Type ℓ} → (Bytes → Json → S → Result S) → S → Bytes → Result S
  decode_message store s raw = do v ← decode_raw raw; decode_strict store s v
