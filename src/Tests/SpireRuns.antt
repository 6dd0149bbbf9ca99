-- ===== src/Tests/SpireRuns.antt =====
-- The server plugin on concrete data.
use incus_spire_attestor.Prelude.{
  ℕ, suc, ◌≡◌, refl, false, none, some, [], ◌∷◌, arith, codes, if◌then◌else◌, same,
}
use incus_spire_attestor.Errors.{ok, err, text, is}
use incus_spire_attestor.Exec
use incus_spire_attestor.Exec.{pure, fail, lift, attempt, wrapped}
use incus_spire_attestor.Golang.Slices.{contains, has_prefix}
use incus_spire_attestor.Config.Validate.{
  validate_server, server_errors, require_nonempty, require_positive, validate_projects,
  project_errors, validate_user_selectors, selector_errors, validate_user_selector, join_all,
  violation,
}
use incus_spire_attestor.Config.Decode.{
  Parsers, parse_optional_duration, optional_string, server_of, decode_server,
}
use incus_spire_attestor.Host.Client.{standalone_of}
use incus_spire_attestor.Server.Service.Construct
use incus_spire_attestor.Spire.Codes.{invalid_argument}
use incus_spire_attestor.Spire.Requests.{Request, decode_valid_server}
use incus_spire_attestor.Spire.Ports as SpirePorts
use incus_spire_attestor.Spire.Build.{
  read_credential, client_on, or_close, new_host, build_server_runtime,
}
use incus_spire_attestor.Spire.ServerPlugin.{retire, publish, configure, configure_status}
use incus_spire_attestor.Spire.ServerPlugin.Published.{
  IsSound, configure_all, new_plugin, published-IsSound,
}
use incus_spire_attestor.Spire.ServerPlugin.Configured.{IsConfigured, configure_total}
use incus_spire_attestor.Spire.ServerPlugin.Refused.{ParserLaws, configure_refused}

-- One configuration, and a duration of five seconds; everything else is a syntax error.
abbrev parsers0 : Parsers
parsers0 = record {
  server = λ src.
      if same src (codes "good")
      then ok (record {
        incus_endpoint = some (codes "https://incus:8443");
        tls_ca_path = some (codes "/ca");
        tls_cert_path = some (codes "/cert");
        tls_key_path = some (codes "/key");
        projects = codes "p" ∷ [];
        user_selectors = [];
        incus_timeout = some (codes "5s");
        challenge_response_timeout = none;
        cleanup_timeout = none;
      })
      else err (text "syntax");
  agent = λ src. ok (record { project = none; poll_timeout = none });
  duration = λ raw.
      if same raw (codes "5s")
      then ok (record { negative = false; magnitude = 5000000000 })
      else err (text "duration");
}

parsers0-ParserLaws : ParserLaws parsers0
unfolding is
parsers0-ParserLaws = record {
  server = λ src e h. ground (arith, h);
  duration = λ raw e h. ground (arith, h);
}

-- Connections are numbered from 0.
abbrev ports0 : SpirePorts.Ports ℕ
ports0 = record {
  open_file = λ path w. (ok 7, w);
  read_all = λ file limit w. (ok (codes "pem"), w);
  connect = λ endpoint ca cert key w. (ok w, suc w);
  get_server =
      λ connection w. (ok (some (record { clustered = false; server_name = codes "host1" })), w);
  close_idle = λ connection w. w;
}

abbrev good : Request
good = record { core = some (codes "td"); hcl = codes "good" }

abbrev bad : Request
bad = record { core = some (codes "td"); hcl = codes "bad" }

plugin_example : IsSound (
    configure_all parsers0 ports0
      (some good ∷ some bad ∷ none ∷ some good ∷ [])
      (new_plugin parsers0 ports0 0))
plugin_example = published-IsSound parsers0 ports0 (some good ∷ some bad ∷ none ∷ some good ∷ []) 0

was_configured : (configure parsers0 ports0 (some good) (new_plugin parsers0 ports0 0)).0 ≡ ok tt
unfolding configure lift Exec.◌>>=◌ decode_valid_server decode_server server_of
    parse_optional_duration optional_string validate_server server_errors require_nonempty
    require_positive validate_projects project_errors validate_user_selectors selector_errors
    validate_user_selector join_all contains has_prefix same build_server_runtime read_credential
    client_on or_close new_host standalone_of Construct.new wrapped attempt pure publish retire
    SpirePorts.ask SpirePorts.open_file SpirePorts.read_all SpirePorts.connect SpirePorts.get_server
was_configured = refl

configured_example :
    IsConfigured parsers0 ports0
      (some good)
      (new_plugin parsers0 ports0 0)
      (configure parsers0 ports0 (some good) (new_plugin parsers0 ports0 0)).1
      (configure parsers0 ports0 (some good) (new_plugin parsers0 ports0 0)).0
configured_example = configure_total parsers0 ports0 (some good) (new_plugin parsers0 ports0 0)

abbrev no_core : Request
no_core = record { core = none; hcl = codes "good" }

was_refused :
    decode_valid_server parsers0 no_core ≡ err (violation "core configuration is required")
unfolding decode_valid_server
was_refused = refl

refused_example : configure_status parsers0 ports0 (some no_core) (new_plugin parsers0 ports0 0) ≡ (
  some (record { code = invalid_argument; message = violation "core configuration is required" }),
  new_plugin parsers0 ports0 0,
)
refused_example =
    configure_refused parsers0 parsers0-ParserLaws ports0 no_core (new_plugin parsers0 ports0 0)
      (violation "core configuration is required") was_refused
