-- ===== src/Spire/ServerPlugin/Refused.antt =====
-- The refusal of a configuration by Configure: its code, and that nothing was done.
use incus_spire_attestor.Prelude.{
  String, ◌≡◌, refl, subst, inl, inr, false, ◌||◌, Option, none, some, arith, Bytes, Option-cases,
}
use incus_spire_attestor.Errors.{
  Result-cases, ok, err, Error, join, sentinel, config_invalid, is, canceled, deadline_exceeded,
  ◌>>=◌,
}
use incus_spire_attestor.Exec
use incus_spire_attestor.Exec.{Exec, lift}
use incus_spire_attestor.Golang.Json.{GoInt}
use incus_spire_attestor.Config.Types.{Server}
use incus_spire_attestor.Config.Validate.{validate_server}
use incus_spire_attestor.Config.Decode.{
  default_incus_timeout, default_challenge_response_timeout, default_cleanup_timeout, RawServer,
  Parsers, parse_optional_duration, server_of, decode_server,
}
use incus_spire_attestor.Server.Service.Construct.{failing}
use incus_spire_attestor.Spire.Codes.{invalid_argument, code_of, map_rpc_error}
use incus_spire_attestor.Spire.Requests.{Request, decode_valid_server}
use incus_spire_attestor.Spire.Ports.{Ports, Run}
use incus_spire_attestor.Spire.ServerPlugin.{configure, configure_status}
use incus_spire_attestor.Spire.ServerPlugin.Classes.{
  IsInvalid, IsInvalidIf, violation-IsInvalid, wrap-IsInvalid, validate_server-IsInvalid,
}

-- The errors of the HCL library and of time.ParseDuration are no context errors.
pub record ParserLaws (parsers : Parsers) : Type 0 where
  pub server :
      (src : Bytes) (e : Error)
      → parsers.server src ≡ err e
      → (is canceled e || is deadline_exceeded e) ≡ false
  pub duration :
      (raw : Bytes) (e : Error)
      → parsers.duration raw ≡ err e
      → (is canceled e || is deadline_exceeded e) ≡ false

module _ (parsers : Parsers) (laws : ParserLaws parsers) where
  joined-IsInvalid :
      (e : Error)
      → (is canceled e || is deadline_exceeded e) ≡ false
      → IsInvalid (join (sentinel config_invalid) e)
  unfolding IsInvalid code_of is
  joined-IsInvalid e h = ground (arith, h)

  parse_optional_duration-IsInvalid :
      (raw : Option Bytes) (default : GoInt) (attr : String) (e : Error)
      → parse_optional_duration parsers raw default attr ≡ err e
      → IsInvalid e
  unfolding parse_optional_duration
  parse_optional_duration-IsInvalid none default attr e h = cc
  parse_optional_duration-IsInvalid (some raw) default attr e h =
      elim (Result-cases (parsers.duration raw)) [
        | inl (d, q) ↦ absurd (ground (arith, q, h))
        | inr (x, q) ↦
            subst IsInvalid (ground (arith, q, h))
              (wrap-IsInvalid attr _ (joined-IsInvalid x (laws.duration raw x q)))
      ]

  server_of-IsInvalid : (raw : RawServer) (e : Error) → server_of parsers raw ≡ err e → IsInvalid e
  unfolding server_of
  server_of-IsInvalid raw e h = ground (
    arith,
    parse_optional_duration-IsInvalid raw.incus_timeout default_incus_timeout "incus_timeout" e,
    parse_optional_duration-IsInvalid raw.challenge_response_timeout
        default_challenge_response_timeout "challenge_response_timeout" e,
    parse_optional_duration-IsInvalid raw.cleanup_timeout default_cleanup_timeout "cleanup_timeout"
        e,
  )

  decode_server-IsInvalid :
      (src : Bytes) (e : Error) → decode_server parsers src ≡ err e → IsInvalid e
  unfolding decode_server
  decode_server-IsInvalid src e h = elim (Result-cases (parsers.server src)) [
    | inl (raw, q) ↦ server_of-IsInvalid raw e (rw q at h)
    | inr (x, q) ↦ subst IsInvalid (ground (arith, q, h)) (joined-IsInvalid x (laws.server src x q))
  ]

  accepted-IsInvalid :
      (cfg : Server) (trust_domain : Bytes) (e : Error)
      → ◌>>=◌ {B = Server × Bytes}
          (failing (validate_server cfg trust_domain))
          (λ _. ok (cfg, trust_domain))
        ≡ err e
      → IsInvalid e
  unfolding IsInvalidIf
  accepted-IsInvalid cfg trust_domain e h =
      ground (arith, h, validate_server-IsInvalid cfg trust_domain e)

  decode_valid_server-IsInvalid :
      (req : Request) (e : Error) → decode_valid_server parsers req ≡ err e → IsInvalid e
  unfolding decode_valid_server
  decode_valid_server-IsInvalid req e h = elim (Option-cases req.core) [
    | inl q ↦
        subst IsInvalid (ground (arith, q, h))
          (violation-IsInvalid "core configuration is required")
    | inr (domain, q) ↦ elim (Result-cases (decode_server parsers req.hcl)) [
      | inl (cfg, d) ↦ accepted-IsInvalid cfg domain e (ground (arith, q, d, h))
      | inr (x, d) ↦ decode_server-IsInvalid req.hcl e (ground (arith, q, d, h))
    ]
  ]

  -- If no error of the HCL library and of ParseDuration is a context error, then Configure answers a request that does not decode to
  -- a valid configuration with the code InvalidArgument and the refusal as its message; it makes no call, and leaves the plugin as it is.
  pub configure_refused :
      {W : Type 0} (ports : Ports W) (req : Request) (s : Run W) (e : Error)
      → decode_valid_server parsers req ≡ err e
      → configure_status parsers ports (some req) s
        ≡ (some (record { code = invalid_argument; message = e }), s)
  unfolding configure_status configure lift Exec.◌>>=◌ map_rpc_error IsInvalid
  configure_refused ports req s e h = rw (h, decode_valid_server-IsInvalid req e h) refl
