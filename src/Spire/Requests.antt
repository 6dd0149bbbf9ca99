-- ===== src/Spire/Requests.antt =====
-- decodeValidServer and decodeValidAgent of server.go and agent.go, and Validate.
use incus_spire_attestor.Prelude.{Bool, true, false, Option, none, some, List, [], ◌∷◌, Bytes}
use incus_spire_attestor.Errors.{Result, ok, err, Error, ◌>>=◌, ◌>>◌}
use incus_spire_attestor.Config.Types.{Agent, Server}
use incus_spire_attestor.Config.Validate.{validate_server, validate_agent, violation}
use incus_spire_attestor.Config.Decode.{Parsers, decode_server, decode_agent}
use incus_spire_attestor.Server.Service.Construct.{failing}

-- A ValidateRequest or ConfigureRequest: the trust domain of the core configuration, and the HCL text.
pub record Request : Type 0 where
  pub core : Option Bytes
  pub hcl : Bytes

-- ValidateResponse; a note is the text of the error.
pub record ValidateResponse : Type 0 where
  pub valid : Bool
  pub notes : List Error

-- The response for an error that may be nil.
abbrev response_for : {A : Type 0} → Result A → ValidateResponse
response_for (ok a) = record { valid = true; notes = [] }
response_for (err e) = record { valid = false; notes = e ∷ [] }

abbrev pub refused_request {ℓ} : {A : Type ℓ} → Result A
refused_request = err (violation "request is required")

module _ (parsers : Parsers) where
  -- decodeValidServer.
  unfoldable pub decode_valid_server : Request → Result (Server × Bytes)
  decode_valid_server req = elim req.core [
    | none ↦ err (violation "core configuration is required")
    | some trust_domain ↦ (do
      cfg ← decode_server parsers req.hcl
      failing (validate_server cfg trust_domain)
      ok (cfg, trust_domain))
  ]

  -- decodeValidAgent.
  unfoldable pub decode_valid_agent : Request → Result (Agent × Bytes)
  decode_valid_agent req = elim req.core [
    | none ↦ err (violation "core configuration is required")
    | some trust_domain ↦ (do
      cfg ← decode_agent parsers req.hcl
      failing (validate_agent cfg trust_domain)
      ok (cfg, trust_domain))
  ]

  -- Validate of ServerPlugin; it reads no state. A nil request is `none`.
  unfoldable pub validate_server_request : Option Request → ValidateResponse
  validate_server_request none = response_for {A = Unit {0}} refused_request
  validate_server_request (some req) = response_for (decode_valid_server req)

  -- Validate of AgentPlugin.
  unfoldable pub validate_agent_request : Option Request → ValidateResponse
  validate_agent_request none = response_for {A = Unit {0}} refused_request
  validate_agent_request (some req) = response_for (decode_valid_agent req)
