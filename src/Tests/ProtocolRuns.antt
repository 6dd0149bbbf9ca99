-- ===== src/Tests/ProtocolRuns.antt =====
-- A whole attestation of an honest guest.
use incus_spire_attestor.Prelude.{
  ◌≡◌, refl, ap, ◌∙◌, ◌++◌, List, same_self, true, none, some, [], ◌∷◌, Bytes, codes, if◌then◌else◌,
  same,
}
use incus_spire_attestor.Errors.{Result, ok, err, sentinel, deadline_exceeded}
use incus_spire_attestor.Golang.Json.{
  fold_name, is_field, parse_int, store_int, store_string_pointer, store_string, store_list,
  store_members, store_struct,
}
use incus_spire_attestor.Attest.Nonce.{
  new_config_key_from_attempt_id, is_lower_hex, new_config_key, new_nonce, verify_nonce,
}
use incus_spire_attestor.Wire.Response.{
  response_json, store_response, store_response_data, checked_nonce, parse_nonce, open_response,
  encode_response, decode_response,
}
use incus_spire_attestor.Wire.Payload.{
  payload_json, decode_payload, payload_data_json, project_member, store_payload,
  store_payload_data, only_item, project_hint, payload_uuid, open_payload_data, open_payload,
  encode_payload,
}
use incus_spire_attestor.Server.Ports.{
  Ports, Run, receive_payload, lookup, call, set_nonce, unset_nonce, send_challenge,
  receive_response, send_attributes, read_full,
}
use incus_spire_attestor.Server.Resolve.{
  resolve_unhinted, resolve_instance, search_projects, only_match, matching, resolve_hinted,
}
use incus_spire_attestor.Server.Service.{
  Service, Attempt, attest, attest_exchange, prepare, read_random_pair, store_nonce,
  challenge_guest, finish, attest_armed,
}
use incus_spire_attestor.Tests.Postfix.{postfix}
use incus_spire_attestor.Tests.Samples.{uuid0, parse_uuid0, claims0, instance0, keys0, id0}
use incus_spire_attestor.Exec.{wrapped, lift, pure, fail, attempt, ◌>>=◌}
use incus_spire_attestor.Wire.Decode.{
  decode_message, decode_raw, wrap_json_error, or_wrap, decode_strict, require_version,
  require_type, require_non_empty, store_typed_object, or_missing, decode_typed_object,
  encode_message, no_duplicates,
}
use incus_spire_attestor.Attest.Claims.{
  match_claims, validate_claims_uuid, require_virtual_machine, new_instance_uuid, canonical_uuid,
  validate_claims, validate_instance,
}
use incus_spire_attestor.Server.Cleanup.{
  run, or_cleanup, guarded, annotate, annotate_cleanup, return_unless_nil, arm,
}
use incus_spire_attestor.Golang.Slices.{less, sort, compact, contains, has_prefix}
use incus_spire_attestor.Golang.Utf8.{valid}
use incus_spire_attestor.Attest.Attributes.{
  selector_value_len, profile_selectors, user_selectors, check_value_bytes, bound_selectors,
  build_selectors, build_attributes,
}
use incus_spire_attestor.Wire.Challenge.{
  checked_key, challenge_json, store_challenge, store_challenge_data, open_challenge,
  encode_challenge, decode_challenge,
}
use incus_spire_attestor.Golang.Base64
use incus_spire_attestor.Golang.Hex
use incus_spire_attestor.Golang.Maps
use incus_spire_attestor.Golang.Maps.{Map}
use incus_spire_attestor.Agent.Ports.{
  Event, claims_read, payload_sent, challenge_received, config_read, waited, response_sent,
}
use incus_spire_attestor.Protocol.Guest.{Agent, IsGuest, calls_from}
use incus_spire_attestor.Protocol.{IsConnected, IsWilling, honest_guest_attested}
use incus_spire_attestor.Tests.Postfix.{postfix-CodecLaws}
use incus_spire_attestor.Tests.Samples.{id0-IsBytes16}
use incus_spire_attestor.Tests.AttestRuns.{attrs0, instance0_attributes}

abbrev key0 : Bytes
key0 = codes "user.spire.attestor.nonce.000102030405060708090a0b0c0d0eff"

abbrev attempt0 : Attempt
attempt0 = record { target = instance0; key = key0; nonce = id0 }

abbrev service0 : Service
service0 = record {
  projects = codes "p" ∷ [];
  user_selectors = keys0;
  trust_domain = codes "td";
  incus_timeout = 5000000000;
  challenge_timeout = 10000000000;
  cleanup_timeout = 5000000000;
}

-- The state of both sides: the values that the guest API shows, and the challenge that was sent last.
record World : Type 0 where
  store : Map
  inbox : Bytes

abbrev guest0 : Agent World
guest0 = record {
  claims = λ w. (ok claims0, w);
  read_config = λ ctx key w. (ok (Maps.lookup key w.store), w);
  send_payload = λ payload w. (ok tt, w);
  receive_challenge = λ w. (ok w.inbox, w);
  send_response = λ response w. (ok tt, w);
  wait = λ ctx delay w. (err (sentinel deadline_exceeded), w);
  context_err = λ ctx w. none;
}

-- What the calls of an agent sent last.
abbrev response_of : List Event → Result Bytes → Result Bytes
response_of [] last = last
response_of (response_sent response (ok _) ∷ es) last = response_of es (ok response)
response_of (e ∷ es) last = response_of es last

-- A server whose peer is the agent: the response is what a run of the agent sends.
abbrev honest_ports : Ports World
honest_ports = record {
  lookup =
      λ ctx project name w. (if same project (codes "p") then ok (some instance0) else ok none, w);
  set_nonce = λ ctx target key nonce w. (ok tt, record w { store = Maps.insert key nonce w.store });
  unset_nonce = λ ctx target key w. (ok tt, record w { store = Maps.delete key w.store });
  receive_payload = λ ctx w. (ok (postfix.print (payload_json claims0 uuid0)), w);
  send_challenge = λ ctx challenge w. (ok tt, record w { inbox = challenge });
  receive_response = λ ctx w. (
    response_of (calls_from postfix parse_uuid0 guest0 5000000000 w)
        (err (sentinel deadline_exceeded)),
    w,
  );
  send_attributes = λ ctx attrs w. (ok tt, w);
  read_full = λ n w. (ok id0, w);
}

guest0-IsGuest : IsGuest guest0 (λ w key. Maps.lookup key w.store)
guest0-IsGuest = record {
  reads = λ ctx key w. refl;
  receive_keeps = λ key w. refl;
  responds = λ response w. refl;
}

response_of-append :
    (es : List Event) (response : Bytes) (last : Result Bytes)
    → response_of (es ++ response_sent response (ok tt) ∷ []) last ≡ ok response
response_of-append [] response last = refl
response_of-append (response_sent r (ok _) ∷ es) response last =
    response_of-append es response (ok r)
response_of-append (response_sent r (err e) ∷ es) response last =
    response_of-append es response last
response_of-append (claims_read r ∷ es) response last = response_of-append es response last
response_of-append (payload_sent payload r ∷ es) response last = response_of-append es response last
response_of-append (challenge_received r ∷ es) response last = response_of-append es response last
response_of-append (config_read ctx key r ∷ es) response last = response_of-append es response last
response_of-append (waited ctx delay r ∷ es) response last = response_of-append es response last

honest_ports-IsConnected :
    IsConnected postfix parse_uuid0 honest_ports guest0 5000000000
      (λ w. w)
      (λ w key. Maps.lookup key w.store)
      service0
      attempt0
honest_ports-IsConnected = record {
  stores = λ ctx key value w. Maps.lookup-insert key key value w.store ∙ (rw (same_self key) refl);
  challenge_keeps = λ key challenge w. refl;
  sends = λ challenge w. refl;
  challenge_arrives = λ challenge w. refl;
  response_arrives = λ ctx w response r.
      ap (λ es. response_of es (err (sentinel deadline_exceeded))) r.calls
      ∙ response_of-append r.earlier response (err (sentinel deadline_exceeded));
}

abbrev server_start : Run World
server_start = record { world = record { store = []; inbox = [] }; trace = []; once = none }

challenge_encoded : encode_challenge postfix key0 ≡ ok (postfix.print (challenge_json key0))
unfolding encode_challenge checked_key new_config_key same encode_message challenge_json postfix
challenge_encoded = refl

response_encoded : encode_response postfix id0 ≡ ok (postfix.print (response_json id0))
unfolding encode_response encode_message response_json postfix Base64.encode Base64.encode_digit
response_encoded = refl

honest_ports-IsWilling : IsWilling honest_ports
honest_ports-IsWilling = record {
  sets = λ ctx target key nonce w. refl;
  unsets = λ ctx target key w. refl;
  takes = λ attrs w. refl;
}

was_prepared : (prepare parse_uuid0 postfix honest_ports service0 server_start).0 ≡ ok attempt0
unfolding attest attest_exchange prepare read_random_pair store_nonce challenge_guest finish
    attest_armed run or_cleanup guarded annotate annotate_cleanup return_unless_nil arm
    resolve_instance resolve_unhinted resolve_hinted search_projects matching only_match call lookup
    set_nonce unset_nonce receive_payload send_challenge receive_response send_attributes read_full
    wrapped lift pure fail attempt less sort compact contains has_prefix valid is_lower_hex
    new_config_key new_config_key_from_attempt_id new_nonce verify_nonce require_virtual_machine
    new_instance_uuid canonical_uuid validate_claims_uuid validate_claims validate_instance
    match_claims selector_value_len profile_selectors user_selectors check_value_bytes
    bound_selectors build_selectors build_attributes checked_key challenge_json store_challenge
    store_challenge_data open_challenge encode_challenge decode_challenge response_json
    store_response store_response_data checked_nonce parse_nonce open_response encode_response
    decode_response project_member payload_data_json payload_json store_payload store_payload_data
    only_item project_hint payload_uuid open_payload_data open_payload encode_payload decode_payload
    fold_name is_field parse_int store_int store_string_pointer store_string store_list
    store_members store_struct wrap_json_error or_wrap decode_strict require_version require_type
    require_non_empty store_typed_object or_missing decode_typed_object encode_message decode_raw
    decode_message no_duplicates same postfix Maps.lookup Hex.encode Base64.encode Base64.decode
    ◌>>=◌ Base64.encode_digit Base64.digits Base64.without_newlines Base64.decode_digit
    Base64.unpack
was_prepared = refl

honest_example : (attest parse_uuid0 postfix honest_ports service0 true server_start).0 ≡ ok tt
honest_example =
    honest_guest_attested postfix parse_uuid0 honest_ports guest0 5000000000 (λ w. w)
      (λ w key. Maps.lookup key w.store) service0 attempt0 (postfix.print (challenge_json key0))
      (postfix.print (response_json id0)) attrs0 server_start postfix-CodecLaws guest0-IsGuest
      honest_ports-IsConnected honest_ports-IsWilling was_prepared id0-IsBytes16 challenge_encoded
      response_encoded instance0_attributes
