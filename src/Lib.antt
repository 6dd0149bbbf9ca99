-- ===== src/Lib.antt =====
-- incus-spire-attestor: SPIRE node attestation of Incus virtual machines, modelled and verified.
--
-- A guest agent sends claims about its instance; the server looks the instance up in the allowed Incus
-- projects, stores a random nonce under a random key in the instance's configuration, and sends the key to
-- the guest as a challenge. Only the guest of that instance can read the nonce and send it back. The
-- server then removes the key and sends SPIRE the agent ID and the selectors.
--
-- Which file models which part:
--   Attest/*    internal/attest: `Types` is types.go, `Nonce` nonce.go, `Claims` claims.go, and
--               `Attributes` attributes.go. Functions have the names of the source in snake_case.
--   Wire/*      internal/wire: `Decode` is decode.go, and `Challenge`, `Response` and `Payload` are the three
--               message files.
--   Server/*    internal/server: `Ports` is ports.go, `Cleanup` cleanup.go, `Resolve` resolve.go, and
--               `Service` service.go. Attest is `attest`; its parts are `prepare` (up to the key),
--               `store_nonce`, `challenge_guest` and `finish`.
--   Agent/*     internal/agent: `Ports` is ports.go, `Poll` poll.go, and `Service` service.go. Attest is
--               `attest`; its parts are `send_claims`, `receive_key`, `poll_config` and `respond`;
--               `answer_challenge` is what follows the claims.
--   Config/*    internal/config: `Types` has the records of server.go and agent.go, `Decode` their functions, and
--               `Validate` is validate.go.
--   Host/*      internal/incus/host: `Snapshot` is map.go and the identity test of mutation.go, `Mutate` the rest of
--               mutation.go, `Retry` retry.go, `Client` client.go, and `Ports` the library that they call.
--   Guest/*     internal/incus/guest: `Client` is client.go, config.go and the calls of claims.go, `Metadata` the
--               parsing of claims.go, `Failures` errors.go, and `Ports` what they call.
--   Spire/*     internal/spire: `Codes` and `Build` are runtime.go, `Requests` the decoding and validation of requests,
--               `ServerPlugin` and `AgentPlugin` the plugins, `Exchange` the two exchange files, and `Attestation`
--               Attest and AidAttestation: the services on the two Incus clients and the streams.
--   Protocol    the server and the agent together: `Guest` is the agent in an instance that has the nonce.
--   Errors      error values: sentinels, wrapping, and the walks of errors.Is and errors.As.
--   Exec        calls of an environment with state: what was done before an error stays done.
--   Golang/*    what the code uses of the Go standard library: hexadecimal and base64 text, sorting, maps,
--               UTF-8, trimming, splitting and escaping, and the decoding of JSON values into structs.
--   Tests/*     concrete runs.
--
-- Strings and byte slices are lists of byte values. The environment of each part (Incus, the SPIRE stream, the
-- guest API, files, clocks and the random reader) is a record of functions on an arbitrary state, and every
-- call is written to a trace with its arguments and its answer. So other clients of Incus may act during any call.
-- The library github.com/google/uuid is the parameter `parse_uuid`, the text of JSON is `codec` or `decoder`, and
-- HCL and time.ParseDuration are `parsers`; `UuidLaws`, `CodecLaws` and `ParserLaws` say what is relied on. `Store`
-- says what Incus promises of ETags, and `Clock` what a clock and a deadline promise. Raw messages are represented
-- by the values that they spell.
--
-- The loops of the server are structural recursion on the list that the source ranges over. The polling loop of
-- the agent runs on fuel, `poll_fuel`: no wait is shorter than 25 ms, so one round for each 25 ms up to
-- the deadline, and two more, are enough; a result `none` is the end of the fuel. The retries of a mutation run on
-- the fuel `mutate_fuel` in the same way.
-- Lengths are natural numbers: every length that the code adds up is bounded by the message and selector
-- limits, or by the size of a list in memory.
--
-- Not modelled: the dialling of sockets and of Incus, and the serving of the plugins in cmd/, which only
-- configure libraries; the generated mocks; the texts of errors beyond their fixed words; the cancellation of contexts beyond
-- which context and deadline a call gets; and attestations that run while a plugin is configured, beyond that each
-- has the runtime that it loaded.
mod Prelude
pub mod Errors
pub mod Exec
pub mod Golang
pub mod Attest
pub mod Wire
pub mod Server
pub mod Tests
pub mod Agent
pub mod Config
pub mod Host
pub mod Guest
pub mod Spire
pub mod Protocol
