-- ===== src/Tests/ConfigRuns.antt =====
-- A valid server configuration, and the theorems of the config package on it.
use incus_spire_attestor.Prelude.{◌≡◌, refl, Bytes, codes, [], ◌∷◌, none, List, false, ℕ, ◌*◌, same}
use incus_spire_attestor.Errors.{ok}
use incus_spire_attestor.Golang.Json.{GoInt}
use incus_spire_attestor.Attest.Attributes.{user_selectors}
use incus_spire_attestor.Config.Types.{Server}
use incus_spire_attestor.Config.Validate.{
  validate_server, server_errors, require_nonempty, require_positive, validate_projects,
  project_errors, validate_user_selectors, selector_errors, validate_user_selector, join_all,
}
use incus_spire_attestor.Config.Validate.Accepted.{
  IsValidServer, validate_server_iff, user_selectors-validate_server,
}
use incus_spire_attestor.Tests.Samples.{instance0, keys0}
use incus_spire_attestor.Golang.Slices.{contains, has_prefix}

abbrev seconds : ℕ → GoInt
seconds n = record { negative = false; magnitude = n * 1000000000 }

abbrev server0 : Server
server0 = record {
  incus_endpoint = codes "https://incus:8443";
  tls_ca_path = codes "/ca";
  tls_cert_path = codes "/cert";
  tls_key_path = codes "/key";
  projects = codes "p" ∷ codes "q" ∷ [];
  user_selectors = keys0;
  incus_timeout = seconds 5;
  challenge_response_timeout = seconds 10;
  cleanup_timeout = seconds 5;
}

server0_valid : validate_server server0 (codes "td") ≡ none
unfolding validate_server server_errors require_nonempty require_positive validate_projects
    project_errors validate_user_selectors selector_errors validate_user_selector join_all contains
    has_prefix same
server0_valid = refl

validate_example : IsValidServer server0 (codes "td")
validate_example = (validate_server_iff server0 (codes "td")).0 server0_valid

allowed_keys_example :
    (chosen : List Bytes) × (user_selectors instance0.expanded_config server0.user_selectors
      ≡ ok chosen)
allowed_keys_example =
    user_selectors-validate_server server0 (codes "td") instance0.expanded_config server0_valid
