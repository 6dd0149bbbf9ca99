-- ===== src/Agent/Service.antt =====
-- service.go: the agent's side of one attestation.
pub mod Construct
pub mod Answered
use incus_spire_attestor.Prelude.{
  ℕ, zero, suc, ◌+◌, ◌-◌, ◌*◌, ◌/◌, ◌%◌, ◌^◌, ◌≤◌, ◌<◌, String, ◌≡◌, refl, sym, ap, ◌∙◌, subst, ◌≢◌,
  ◌↔◌, ◌⊎◌, inl, inr, Bool, true, false, not, ◌&&◌, ◌||◌, Option, none, some, List, [], ◌∷◌, ◌++◌,
  map, append-nil, append_assoc, arith, Bytes, codes, ltb, leb, ◌==◌, if◌then◌else◌, Bool-cases,
  Option-cases, same, same_self, same_iff, is_empty, length, take, drop, all, length-append,
  take-append-drop, length-drop, All, All-append,
}
use incus_spire_attestor.Errors.{Result, ok, err, Error, wrap, text}
use incus_spire_attestor.Exec.{Exec, pure, fail, lift, wrapped, ◌>>=◌, ◌>>◌}
use incus_spire_attestor.Golang.Json.{Codec}
use incus_spire_attestor.Attest.Types.{Claims}
use incus_spire_attestor.Attest.Claims.{validate_claims}
use incus_spire_attestor.Wire.Challenge.{decode_challenge}
use incus_spire_attestor.Wire.Response.{parse_nonce, encode_response}
use incus_spire_attestor.Wire.Payload.{encode_payload}
use incus_spire_attestor.Agent.Ports.{
  claims_read, payload_sent, challenge_received, response_sent, Ports, Run, ask,
}
use incus_spire_attestor.Agent.Poll.{poll_config}

-- What the rest of Attest does with the outcome of the polling, where `none` is the end of the fuel.
unfoldable pub polled {ℓ} : {S A : Type ℓ} → (Bytes → Exec S A) → Option Bytes → Exec S (Option A)
polled rest none = pure none
polled rest (some value) = rest value >>= λ a. pure (some a)

module _ {W : Type 0} (parse_uuid : Bytes → Option Bytes) (codec : Codec) (ports : Ports W)
    (poll_timeout : ℕ) where
  -- From Claims to SendPayload.
  unfoldable pub send_claims : Exec (Run W) (Unit {0})
  send_claims = do
    claims ← wrapped (wrap "read guest claims") (ask ports.claims claims_read)
    wrapped (wrap "validate guest claims") (lift (validate_claims parse_uuid claims))
    payload ← wrapped (wrap "encode payload") (lift (encode_payload parse_uuid codec claims))
    wrapped (wrap "send payload") (ask (ports.send_payload payload) (payload_sent payload))

  -- ReceiveChallenge and DecodeChallenge.
  unfoldable pub receive_key : Exec (Run W) Bytes
  receive_key = do
    challenge ← wrapped (wrap "receive challenge") (ask ports.receive_challenge challenge_received)
    wrapped (wrap "decode challenge") (lift (decode_challenge codec challenge))

  -- From ParseNonce to SendResponse.
  unfoldable pub respond : Bytes → Exec (Run W) (Unit {0})
  respond value = do
    nonce ← wrapped (wrap "parse nonce") (lift (parse_nonce value))
    response ← wrapped (wrap "encode response") (lift (encode_response codec nonce))
    wrapped (wrap "send response") (ask (ports.send_response response) (response_sent response))

  -- The rest of Attest behind SendPayload.
  unfoldable pub answer_challenge : Exec (Run W) (Option (Unit {0}))
  answer_challenge = do
    key ← receive_key
    value ← poll_config ports poll_timeout key
    polled respond value

  -- Attest, with an exchange that is not nil.
  unfoldable pub attest_exchange : Exec (Run W) (Option (Unit {0}))
  attest_exchange = do send_claims; answer_challenge

  -- Attest. The flag says that the exchange is not nil.
  unfoldable pub attest : Bool → Exec (Run W) (Option (Unit {0}))
  attest false = fail (text "exchange is required")
  attest true = attest_exchange
