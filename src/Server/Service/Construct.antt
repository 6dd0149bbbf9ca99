-- ===== src/Server/Service/Construct.antt =====
-- New of service.go: the service of a validated configuration.
use incus_spire_attestor.Prelude.{Bool, Option, none, some, Bytes}
use incus_spire_attestor.Errors.{Result, ok, err, Error, text, require, ◌>>◌}
use incus_spire_attestor.Config.Types.{Server}
use incus_spire_attestor.Config.Validate.{validate_server}
use incus_spire_attestor.Server.Service.{Service}

-- An error that may be nil, as the result of a call without a value.
abbrev pub failing : Option Error → Result (Unit {0})
failing none = ok tt
failing (some e) = err e

-- The fields that New copies. The durations are positive where ValidateServer has accepted them.
abbrev pub service_of : Server → Bytes → Service
service_of cfg trust_domain = record {
  projects = cfg.projects;
  user_selectors = cfg.user_selectors;
  trust_domain = trust_domain;
  incus_timeout = cfg.incus_timeout.magnitude;
  challenge_timeout = cfg.challenge_response_timeout.magnitude;
  cleanup_timeout = cfg.cleanup_timeout.magnitude;
}

-- New. The flags say that the client and the random reader are not nil.
unfoldable pub new : Bool → Server → Bytes → Bool → Result Service
new client cfg trust_domain random = do
  require client (text "incus client is required")
  require random (text "random reader is required")
  failing (validate_server cfg trust_domain)
  ok (service_of cfg trust_domain)
