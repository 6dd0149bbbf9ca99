-- ===== src/Wire/Message.antt =====
-- What holds of every message: an encoded value comes back from the checks of decode.go.
use incus_spire_attestor.Prelude.{◌≡◌, true, arith, Bytes, same}
use incus_spire_attestor.Errors.{ok}
use incus_spire_attestor.Golang.Json.{
  Json, Codec, CodecLaws, store_struct, is_printable, is_field, fold_name, store_int, parse_int,
  store_string_pointer, store_string, store_members, store_list,
}
use incus_spire_attestor.Wire.Decode.{
  encode_message, decode_raw, decode_strict, no_duplicates, or_wrap, decode_typed_object,
  require_type, require_version, store_typed_object, or_missing,
}

-- An encoded message passes the size, UTF-8, one-value and duplicate checks, and gives its value.
pub decode_raw-encode_message :
    (codec : Codec)
    → CodecLaws codec
    → (v : Json) (raw : Bytes) → is_printable v ≡ true
    → no_duplicates v ≡ true
    → encode_message codec v ≡ ok raw
    → decode_raw codec raw ≡ ok v
unfolding encode_message decode_raw or_wrap
decode_raw-encode_message codec laws v raw clean single h =
    let shape : raw ≡ codec.print v = ground arith in
    ground (arith, laws.parse-print v clean, laws.valid-print v)

-- Unfolds the storing of members, names included.
unfoldable pub store_all : Unit {0}
unfolding decode_strict or_wrap store_struct store_members is_field fold_name same store_int
    parse_int store_string store_string_pointer store_list decode_typed_object store_typed_object
    require_type require_version or_missing
store_all = tt
