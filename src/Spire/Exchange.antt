-- ===== src/Spire/Exchange.antt =====
-- server_exchange.go and agent_exchange.go: the messages of the SPIRE streams.
use incus_spire_attestor.Prelude.{Bool, Option, none, some, List, Bytes}
use incus_spire_attestor.Errors.{Result, ok, err, Error, sentinel, wire_invalid}
use incus_spire_attestor.Golang.Context.{Context}
use incus_spire_attestor.Attest.Types.{Attributes}

-- The oneof of an AttestRequest; a nil request has none.
pub data AttestRequest : Type 0 where
  payload : Bytes → AttestRequest
  challenge_response : Bytes → AttestRequest
  unset : AttestRequest

pub record AgentAttributes : Type 0 where
  pub spiffe_id : Bytes
  pub can_reattest : Bool
  pub selector_values : List Bytes

-- The oneof of an AttestResponse.
pub data AttestResponse : Type 0 where
  challenge : Bytes → AttestResponse
  agent_attributes : AgentAttributes → AttestResponse

-- Which case of the select is taken: a result of Recv, or the error of the context or of the stream's context.
pub data Selected : Type 0 where
  result : Result AttestRequest → Selected
  ctx_done : Error → Selected
  stream_done : Error → Selected

-- The Attest stream: Send, a blocking Recv, and a Recv in a goroutine under the select of ReceiveResponse.
pub record ServerStream (W : Type 0) : Type 0 where
  pub send : AttestResponse → W → Result (Unit {0}) × W
  pub recv : W → Result AttestRequest × W
  pub recv_until : Context → W → Selected × W

-- What ReceivePayload accepts.
unfoldable pub payload_of : Result AttestRequest → Result Bytes
payload_of (err e) = err e
payload_of (ok (payload raw)) = ok raw
payload_of (ok _) = err (sentinel wire_invalid)

-- What ReceiveResponse accepts.
unfoldable pub response_of : Selected → Result Bytes
response_of (result (err e)) = err e
response_of (result (ok (challenge_response raw))) = ok raw
response_of (result (ok _)) = err (sentinel wire_invalid)
response_of (ctx_done e) = err e
response_of (stream_done e) = err e

module _ {W : Type 0} (stream : ServerStream W) where
  -- ReceivePayload.
  unfoldable pub receive_payload : Context → W → Result Bytes × W
  receive_payload ctx w = let (req, w') = stream.recv w in (payload_of req, w')

  -- SendChallenge.
  unfoldable pub send_challenge : Context → Bytes → W → Result (Unit {0}) × W
  send_challenge ctx raw = stream.send (challenge raw)

  -- ReceiveResponse.
  unfoldable pub receive_response : Context → W → Result Bytes × W
  receive_response ctx w =
      let (selected, w') = stream.recv_until ctx w in (response_of selected, w')

  -- SendAttributes.
  unfoldable pub send_attributes : Context → Attributes → W → Result (Unit {0}) × W
  send_attributes ctx attrs = stream.send (
      agent_attributes (record {
        spiffe_id = attrs.agent_id;
        can_reattest = attrs.can_reattest;
        selector_values = attrs.selectors;
      }))

-- The oneof of a PayloadOrChallengeResponse.
pub data AgentMessage : Type 0 where
  agent_payload : Bytes → AgentMessage
  agent_response : Bytes → AgentMessage

-- The AidAttestation stream. A received message is its challenge, where it has one; a nil message has none.
pub record AgentStream (W : Type 0) : Type 0 where
  pub send : AgentMessage → W → Result (Unit {0}) × W
  pub recv : W → Result (Option Bytes) × W
  pub context_err : W → Option Error

-- What ReceiveChallenge makes of a received message and the error of the stream's context.
unfoldable pub challenge_of : Result (Option Bytes) → Option Error → Result Bytes
challenge_of (err e) (some ctx_err) = err ctx_err
challenge_of (err e) none = err e
challenge_of (ok none) _ = err (sentinel wire_invalid)
challenge_of (ok (some raw)) _ = ok raw

module _ {W : Type 0} (stream : AgentStream W) where
  -- SendPayload.
  unfoldable pub send_payload : Bytes → W → Result (Unit {0}) × W
  send_payload raw = stream.send (agent_payload raw)

  -- ReceiveChallenge.
  unfoldable pub receive_challenge : W → Result Bytes × W
  receive_challenge w =
      let (msg, w') = stream.recv w in (challenge_of msg (stream.context_err w'), w')

  -- SendResponse.
  unfoldable pub send_response : Bytes → W → Result (Unit {0}) × W
  send_response raw = stream.send (agent_response raw)
