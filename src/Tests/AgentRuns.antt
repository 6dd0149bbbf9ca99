-- ===== src/Tests/AgentRuns.antt =====
-- A whole run of the agent against scripted ports, and the theorems of the agent package on it.
use incus_spire_attestor.Prelude.{
  ◌≡◌, ◌≢◌, refl, Bytes, codes, [], some, none, ℕ, true, ◌+◌, ltb, if◌then◌else◌, arith, inl, inr,
  same, Bool-cases,
}
use incus_spire_attestor.Errors.{ok, err, sentinel, deadline_exceeded}
use incus_spire_attestor.Golang.Base64
use incus_spire_attestor.Golang.Context.{rpc, with_timeout}
use incus_spire_attestor.Attest.Nonce.{
  new_config_key_from_attempt_id, is_lower_hex, new_config_key, new_nonce, verify_nonce,
}
use incus_spire_attestor.Wire.Challenge.{
  challenge_json, checked_key, store_challenge, store_challenge_data, open_challenge,
  encode_challenge, decode_challenge,
}
use incus_spire_attestor.Agent.Ports.{Ports, Run, ask}
use incus_spire_attestor.Agent.Poll.{
  poll_config, poll, poll_fuel, conclude, judge, wait, report, read_config, next_poll_delay,
  is_context_error, is_retryable,
}
use incus_spire_attestor.Agent.Poll.Deadline.{Clock, poll_config_terminates}
use incus_spire_attestor.Agent.Poll.Backoff.{BacksOff, poll_config-BacksOff}
use incus_spire_attestor.Agent.Poll.Calls.{IsPolled, poll_config_ok}
use incus_spire_attestor.Agent.Service.{
  attest, attest_exchange, send_claims, receive_key, respond, polled, answer_challenge,
}
use incus_spire_attestor.Agent.Service.Answered.{IsAnswered, agent_attest_ok}
use incus_spire_attestor.Tests.Postfix.{postfix}
use incus_spire_attestor.Tests.Samples.{parse_uuid0, claims0}
use incus_spire_attestor.Golang.Hex
use incus_spire_attestor.Golang.Maps
use incus_spire_attestor.Golang.Json.{
  fold_name, is_field, parse_int, store_int, store_string_pointer, store_string, store_list,
  store_members, store_struct,
}
use incus_spire_attestor.Wire.Response.{
  response_json, store_response, store_response_data, checked_nonce, parse_nonce, open_response,
  encode_response, decode_response,
}
use incus_spire_attestor.Wire.Payload.{
  payload_json, decode_payload, payload_data_json, project_member, store_payload,
  store_payload_data, only_item, project_hint, payload_uuid, open_payload_data, open_payload,
  encode_payload,
}
use incus_spire_attestor.Exec.{wrapped, lift, pure, fail, attempt, ◌>>=◌}
use incus_spire_attestor.Wire.Decode.{
  decode_message, decode_raw, wrap_json_error, or_wrap, decode_strict, require_version,
  require_type, require_non_empty, store_typed_object, or_missing, decode_typed_object,
  encode_message, no_duplicates,
}
use incus_spire_attestor.Attest.Claims.{
  match_claims, validate_claims_uuid, require_virtual_machine, new_instance_uuid, canonical_uuid,
  validate_claims, validate_instance,
}
use incus_spire_attestor.Golang.Slices.{less, sort, compact, contains, has_prefix}
use incus_spire_attestor.Golang.Utf8.{valid}
use incus_spire_attestor.Attest.Attributes.{
  selector_value_len, profile_selectors, user_selectors, check_value_bytes, bound_selectors,
  build_selectors, build_attributes,
}

abbrev key0 : Bytes
key0 = codes "user.spire.attestor.nonce.000102030405060708090a0b0c0d0eff"

abbrev deadline0 : ℕ
deadline0 = 5000000000

-- The state is the clock. The key shows up after 60 ms, and waits end at the deadline.
abbrev ports0 : Ports ℕ
ports0 = record {
  claims = λ w. (ok claims0, w);
  read_config = λ ctx key w.
      (if ltb w 60000000 then ok none else ok (some (codes "AAECAwQFBgcICQoLDA0O_w")), w);
  send_payload = λ payload w. (ok tt, w);
  receive_challenge = λ w. (ok (postfix.print (challenge_json key0)), w);
  send_response = λ response w. (ok tt, w);
  wait = λ ctx delay w.
      if ltb w deadline0 then (ok tt, w + delay) else (err (sentinel deadline_exceeded), w);
  context_err = λ ctx w. if ltb w deadline0 then none else some (sentinel deadline_exceeded);
}

abbrev start : Run ℕ
start = record { world = 0; trace = [] }

answered : (attest parse_uuid0 postfix ports0 5000000000 true start).0 ≡ ok (some tt)
unfolding attest attest_exchange answer_challenge send_claims receive_key respond polled poll_config
    poll poll_fuel conclude judge wait report read_config next_poll_delay ask is_context_error
    is_retryable wrapped lift pure fail attempt less sort compact contains has_prefix valid
    is_lower_hex new_config_key new_config_key_from_attempt_id new_nonce verify_nonce
    require_virtual_machine new_instance_uuid canonical_uuid validate_claims_uuid validate_claims
    validate_instance match_claims selector_value_len profile_selectors user_selectors
    check_value_bytes bound_selectors build_selectors build_attributes checked_key challenge_json
    store_challenge store_challenge_data open_challenge encode_challenge decode_challenge
    response_json store_response store_response_data checked_nonce parse_nonce open_response
    encode_response decode_response project_member payload_data_json payload_json store_payload
    store_payload_data only_item project_hint payload_uuid open_payload_data open_payload
    encode_payload decode_payload fold_name is_field parse_int store_int store_string_pointer
    store_string store_list store_members store_struct wrap_json_error or_wrap decode_strict
    require_version require_type require_non_empty store_typed_object or_missing decode_typed_object
    encode_message decode_raw decode_message no_duplicates same postfix Maps.lookup Hex.encode
    Base64.encode Base64.decode ◌>>=◌ Base64.encode_digit Base64.digits Base64.without_newlines
    Base64.decode_digit Base64.unpack
answered = refl

agent_example :
    IsAnswered parse_uuid0 postfix ports0 5000000000 []
      (attest parse_uuid0 postfix ports0 5000000000 true start).1.trace
agent_example = agent_attest_ok parse_uuid0 postfix ports0 5000000000 start answered

polled_value :
    (poll_config ports0 5000000000 key0 start).0 ≡ ok (some (codes "AAECAwQFBgcICQoLDA0O_w"))
unfolding poll_config poll poll_fuel conclude judge wait report read_config next_poll_delay ask
    is_context_error is_retryable ◌>>=◌ attempt pure fail
polled_value = refl

poll_example :
    IsPolled
      (with_timeout rpc 5000000000)
      key0
      (codes "AAECAwQFBgcICQoLDA0O_w")
      []
      (poll_config ports0 5000000000 key0 start).1.trace
poll_example =
    poll_config_ok ports0 5000000000 key0 start (codes "AAECAwQFBgcICQoLDA0O_w") polled_value

clock0 : Clock ports0 (with_timeout rpc 5000000000) (λ w. w) deadline0
clock0 = record {
  read_onward = λ key w. omega arith;
  wait_onward = λ delay w h. elim (Bool-cases (ltb w deadline0)) [
    | inl early ↦ rw early (ground (arith, early), omega arith)
    | inr late ↦ absurd (ground (arith, late, h))
  ];
}

termination_example : (poll_config ports0 5000000000 key0 start).0 ≢ ok none
termination_example =
    poll_config_terminates ports0 (λ w. w) 5000000000 deadline0 key0 start clock0 (omega arith)

delay_example :
    BacksOff
      (with_timeout rpc 5000000000)
      key0
      (poll_fuel 5000000000)
      0
      start
      (poll_config ports0 5000000000 key0 start)
delay_example = poll_config-BacksOff ports0 5000000000 key0 start
