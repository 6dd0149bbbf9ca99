-- ===== src/Tests/ServerRuns.antt =====
-- A whole attestation against scripted ports, and the theorems of the server package on it.
use incus_spire_attestor.Prelude.{
  ◌≡◌, refl, codes, [], ◌∷◌, Option, some, none, List, true, ◌⊎◌, if◌then◌else◌, same,
}
use incus_spire_attestor.Errors.{ok, Error}
use incus_spire_attestor.Golang.Json.{
  fold_name, is_field, parse_int, store_int, store_string_pointer, store_string, store_list,
  store_members, store_struct,
}
use incus_spire_attestor.Attest.Types.{Instance}
use incus_spire_attestor.Attest.Nonce.{
  new_config_key_from_attempt_id, is_lower_hex, new_config_key, new_nonce, verify_nonce,
}
use incus_spire_attestor.Wire.Response.{
  response_json, store_response, store_response_data, checked_nonce, parse_nonce, open_response,
  encode_response, decode_response,
}
use incus_spire_attestor.Wire.Payload.{
  payload_json, decode_payload, payload_data_json, project_member, store_payload,
  store_payload_data, only_item, project_hint, payload_uuid, open_payload_data, open_payload,
  encode_payload,
}
use incus_spire_attestor.Server.Ports.{
  Ports, Run, Event, rpc, with_timeout, receive_payload, lookup, call, set_nonce, unset_nonce,
  send_challenge, receive_response, send_attributes, read_full,
}
use incus_spire_attestor.Server.Resolve.{
  resolve_unhinted, resolve_instance, search_projects, only_match, matching, resolve_hinted,
}
use incus_spire_attestor.Server.Resolve.Search.{Decided, GivenUp, resolve_unhinted_total}
use incus_spire_attestor.Server.Resolve.Resolved.{Resolves, resolve_instance_ok}
use incus_spire_attestor.Server.Service.{
  Service, Attempt, attest, attest_exchange, prepare, read_random_pair, store_nonce,
  challenge_guest, finish, attest_armed,
}
use incus_spire_attestor.Server.Service.Cleaned.{IsCleaned, attest_cleans_up}
use incus_spire_attestor.Server.Service.Accepted.{IsAccepted}
use incus_spire_attestor.Server.Service.Attested.{IsPrepared, attest_ok}
use incus_spire_attestor.Tests.Postfix.{postfix}
use incus_spire_attestor.Tests.Samples.{uuid0, parse_uuid0, claims0, instance0, keys0, id0}
use incus_spire_attestor.Exec.{wrapped, lift, pure, fail, attempt, ◌>>=◌}
use incus_spire_attestor.Wire.Decode.{
  decode_message, decode_raw, wrap_json_error, or_wrap, decode_strict, require_version,
  require_type, require_non_empty, store_typed_object, or_missing, decode_typed_object,
  encode_message, no_duplicates,
}
use incus_spire_attestor.Attest.Claims.{
  match_claims, validate_claims_uuid, require_virtual_machine, new_instance_uuid, canonical_uuid,
  validate_claims, validate_instance,
}
use incus_spire_attestor.Server.Cleanup.{
  run, or_cleanup, guarded, annotate, annotate_cleanup, return_unless_nil, arm,
}
use incus_spire_attestor.Golang.Slices.{less, sort, compact, contains, has_prefix}
use incus_spire_attestor.Golang.Utf8.{valid}
use incus_spire_attestor.Attest.Attributes.{
  selector_value_len, profile_selectors, user_selectors, check_value_bytes, bound_selectors,
  build_selectors, build_attributes,
}
use incus_spire_attestor.Wire.Challenge.{
  checked_key, challenge_json, store_challenge, store_challenge_data, open_challenge,
  encode_challenge, decode_challenge,
}
use incus_spire_attestor.Golang.Base64
use incus_spire_attestor.Golang.Hex
use incus_spire_attestor.Golang.Maps

-- The instance is in project "p"; the random bytes are always those of `id0`, and the guest answers with them.
abbrev ports0 : Ports (Unit {0})
ports0 = record {
  lookup =
      λ ctx project name w. (if same project (codes "p") then ok (some instance0) else ok none, w);
  set_nonce = λ ctx target key nonce w. (ok tt, w);
  unset_nonce = λ ctx target key w. (ok tt, w);
  receive_payload = λ ctx w. (ok (postfix.print (payload_json claims0 uuid0)), w);
  send_challenge = λ ctx challenge w. (ok tt, w);
  receive_response = λ ctx w. (ok (postfix.print (response_json id0)), w);
  send_attributes = λ ctx attrs w. (ok tt, w);
  read_full = λ n w. (ok id0, w);
}

abbrev service0 : Service
service0 = record {
  projects = codes "q" ∷ codes "p" ∷ [];
  user_selectors = keys0;
  trust_domain = codes "td";
  incus_timeout = 5000000000;
  challenge_timeout = 10000000000;
  cleanup_timeout = 5000000000;
}

abbrev start : Run (Unit {0})
start = record { world = tt; trace = []; once = none }

attested : (attest parse_uuid0 postfix ports0 service0 true start).0 ≡ ok tt
unfolding attest attest_exchange prepare read_random_pair store_nonce challenge_guest finish
    attest_armed run or_cleanup guarded annotate annotate_cleanup return_unless_nil arm
    resolve_instance resolve_unhinted resolve_hinted search_projects matching only_match call lookup
    set_nonce unset_nonce receive_payload send_challenge receive_response send_attributes read_full
    wrapped lift pure fail attempt less sort compact contains has_prefix valid is_lower_hex
    new_config_key new_config_key_from_attempt_id new_nonce verify_nonce require_virtual_machine
    new_instance_uuid canonical_uuid validate_claims_uuid validate_claims validate_instance
    match_claims selector_value_len profile_selectors user_selectors check_value_bytes
    bound_selectors build_selectors build_attributes checked_key challenge_json store_challenge
    store_challenge_data open_challenge encode_challenge decode_challenge response_json
    store_response store_response_data checked_nonce parse_nonce open_response encode_response
    decode_response project_member payload_data_json payload_json store_payload store_payload_data
    only_item project_hint payload_uuid open_payload_data open_payload encode_payload decode_payload
    fold_name is_field parse_int store_int store_string_pointer store_string store_list
    store_members store_struct wrap_json_error or_wrap decode_strict require_version require_type
    require_non_empty store_typed_object or_missing decode_typed_object encode_message decode_raw
    decode_message no_duplicates same postfix Maps.lookup Hex.encode Base64.encode Base64.decode
    ◌>>=◌ Base64.encode_digit Base64.digits Base64.without_newlines Base64.decode_digit
    Base64.unpack
attested = refl

attest_example :
    (a : Attempt) × (prepared : List Event) × IsPrepared parse_uuid0 postfix ports0 service0 []
      prepared a
    × IsAccepted parse_uuid0 postfix ports0 service0 a prepared
        (attest parse_uuid0 postfix ports0 service0 true start).1.trace
attest_example = attest_ok parse_uuid0 postfix ports0 service0 start attested

cleanup_example :
    IsCleaned parse_uuid0 postfix ports0 service0 start
      (attest parse_uuid0 postfix ports0 service0 true start).1
cleanup_example = attest_cleans_up parse_uuid0 postfix ports0 service0 true start

search_example :
    ((os : List (Option Instance)) × Decided parse_uuid0 ports0 rpc claims0 service0.projects start
        os)
    ⊎ ((e : Error) × GivenUp parse_uuid0 ports0 rpc claims0 service0.projects start e)
search_example = resolve_unhinted_total parse_uuid0 ports0 rpc claims0 service0.projects start

resolved : (resolve_instance parse_uuid0 ports0 5 service0.projects claims0 start).0 ≡ ok instance0
unfolding attest attest_exchange prepare read_random_pair store_nonce challenge_guest finish
    attest_armed run or_cleanup guarded annotate annotate_cleanup return_unless_nil arm
    resolve_instance resolve_unhinted resolve_hinted search_projects matching only_match call lookup
    set_nonce unset_nonce receive_payload send_challenge receive_response send_attributes read_full
    wrapped lift pure fail attempt less sort compact contains has_prefix valid is_lower_hex
    new_config_key new_config_key_from_attempt_id new_nonce verify_nonce require_virtual_machine
    new_instance_uuid canonical_uuid validate_claims_uuid validate_claims validate_instance
    match_claims selector_value_len profile_selectors user_selectors check_value_bytes
    bound_selectors build_selectors build_attributes checked_key challenge_json store_challenge
    store_challenge_data open_challenge encode_challenge decode_challenge response_json
    store_response store_response_data checked_nonce parse_nonce open_response encode_response
    decode_response project_member payload_data_json payload_json store_payload store_payload_data
    only_item project_hint payload_uuid open_payload_data open_payload encode_payload decode_payload
    fold_name is_field parse_int store_int store_string_pointer store_string store_list
    store_members store_struct wrap_json_error or_wrap decode_strict require_version require_type
    require_non_empty store_typed_object or_missing decode_typed_object encode_message decode_raw
    decode_message no_duplicates same postfix Maps.lookup Hex.encode Base64.encode Base64.decode
    ◌>>=◌ Base64.encode_digit Base64.digits Base64.without_newlines Base64.decode_digit
    Base64.unpack
resolved = refl

resolve_example :
    Resolves parse_uuid0 ports0
      (with_timeout rpc 5)
      service0.projects
      claims0
      instance0
      start
      (resolve_instance parse_uuid0 ports0 5 service0.projects claims0 start).1
resolve_example =
    resolve_instance_ok parse_uuid0 ports0 5 service0.projects claims0 start instance0 resolved
