-- ===== src/Config/Decode.antt =====
-- server.go and agent.go: from HCL text to configurations, with the defaults of the durations. The HCL library and
-- time.ParseDuration are parameters.
use incus_spire_attestor.Prelude.{ℕ, ◌*◌, String, false, Option, none, some, List, [], Bytes}
use incus_spire_attestor.Errors.{
  Result, ok, err, Error, wrap, sentinel, join, config_invalid, ◌>>=◌,
}
use incus_spire_attestor.Golang.Json.{GoInt}
use incus_spire_attestor.Config.Types.{Agent, Server}

abbrev pub seconds : ℕ → GoInt
seconds n = record { negative = false; magnitude = n * 1000000000 }

-- defaultIncusTimeout, defaultChallengeResponseTimeout, defaultCleanupTimeout and defaultPollTimeout.
abbrev pub default_incus_timeout : GoInt
default_incus_timeout = seconds 5

abbrev pub default_challenge_response_timeout : GoInt
default_challenge_response_timeout = seconds 10

abbrev pub default_cleanup_timeout : GoInt
default_cleanup_timeout = seconds 5

abbrev pub default_poll_timeout : GoInt
default_poll_timeout = seconds 5

-- rawServer; a nil pointer is `none`.
pub record RawServer : Type 0 where
  pub incus_endpoint : Option Bytes
  pub tls_ca_path : Option Bytes
  pub tls_cert_path : Option Bytes
  pub tls_key_path : Option Bytes
  pub projects : List Bytes
  pub user_selectors : List Bytes
  pub incus_timeout : Option Bytes
  pub challenge_response_timeout : Option Bytes
  pub cleanup_timeout : Option Bytes

-- rawAgent.
pub record RawAgent : Type 0 where
  pub project : Option Bytes
  pub poll_timeout : Option Bytes

-- hclsimple.Decode into the two shapes, and time.ParseDuration.
pub record Parsers : Type 0 where
  pub server : Bytes → Result RawServer
  pub agent : Bytes → Result RawAgent
  pub duration : Bytes → Result GoInt

-- optionalString.
unfoldable pub optional_string : Option Bytes → Bytes
optional_string none = []
optional_string (some s) = s

-- An error that wraps ErrInvalid and this one.
abbrev invalid : Error → Error
invalid e = join (sentinel config_invalid) e

abbrev or_invalid : {A : Type 0} → Result A → Result A
or_invalid (ok a) = ok a
or_invalid (err e) = err (invalid e)

module _ (parsers : Parsers) where
  -- parseOptionalDuration.
  unfoldable pub parse_optional_duration : Option Bytes → GoInt → String → Result GoInt
  parse_optional_duration none default attr = ok default
  parse_optional_duration (some raw) default attr = elim (parsers.duration raw) [
    | ok value ↦ ok value
    | err e ↦ err (wrap attr (invalid e))
  ]

  -- DecodeServer behind the HCL library.
  unfoldable pub server_of : RawServer → Result Server
  server_of raw = do
    incus_timeout ← parse_optional_duration raw.incus_timeout default_incus_timeout "incus_timeout"
    challenge_timeout ←
        parse_optional_duration raw.challenge_response_timeout default_challenge_response_timeout
          "challenge_response_timeout"
    cleanup_timeout ←
        parse_optional_duration raw.cleanup_timeout default_cleanup_timeout "cleanup_timeout"
    ok (record {
      incus_endpoint = optional_string raw.incus_endpoint;
      tls_ca_path = optional_string raw.tls_ca_path;
      tls_cert_path = optional_string raw.tls_cert_path;
      tls_key_path = optional_string raw.tls_key_path;
      projects = raw.projects;
      user_selectors = raw.user_selectors;
      incus_timeout = incus_timeout;
      challenge_response_timeout = challenge_timeout;
      cleanup_timeout = cleanup_timeout;
    })

  -- DecodeServer.
  unfoldable pub decode_server : Bytes → Result Server
  decode_server src = do raw ← or_invalid (parsers.server src); server_of raw

  -- DecodeAgent behind the HCL library.
  unfoldable pub agent_of : RawAgent → Result Agent
  agent_of raw = do
    poll_timeout ← parse_optional_duration raw.poll_timeout default_poll_timeout "poll_timeout"
    ok (record { project = optional_string raw.project; poll_timeout = poll_timeout })

  -- DecodeAgent.
  unfoldable pub decode_agent : Bytes → Result Agent
  decode_agent src = do raw ← or_invalid (parsers.agent src); agent_of raw
