-- ===== src/Config/Validate.antt =====
-- validate.go: all violations of a configuration. A map that is used as a set is the list of its keys.
pub mod Accepted
use incus_spire_attestor.Prelude.{
  ℕ, zero, suc, ◌+◌, ◌-◌, ◌*◌, ◌/◌, ◌%◌, ◌^◌, ◌≤◌, ◌<◌, String, ◌≡◌, refl, sym, ap, ◌∙◌, subst, ◌≢◌,
  ◌↔◌, ◌⊎◌, inl, inr, Bool, true, false, not, ◌&&◌, ◌||◌, Option, none, some, List, [], ◌∷◌, ◌++◌,
  map, append-nil, append_assoc, arith, Bytes, codes, ltb, leb, ◌==◌, if◌then◌else◌, Bool-cases,
  Option-cases, same, same_self, same_iff, is_empty, length, take, drop, all, length-append,
  take-append-drop, length-drop, All, All-append,
}
use incus_spire_attestor.Errors.{Error, wrap, sentinel, join, config_invalid}
use incus_spire_attestor.Golang.Json.{GoInt}
use incus_spire_attestor.Golang.Slices.{contains, has_prefix}
use incus_spire_attestor.Config.Types.{Agent, Server}

-- maxProjects and maxUserSelectors.
abbrev pub max_projects : ℕ
max_projects = 32

abbrev pub max_user_selectors : ℕ
max_user_selectors = 32

-- userKeyPrefix, reservedNonceKey and reservedNoncePrefix.
abbrev pub user_key_prefix : Bytes
user_key_prefix = codes "user."

abbrev pub reserved_nonce_key : Bytes
reserved_nonce_key = codes "user.spire.attestor.nonce"

abbrev pub reserved_nonce_prefix : Bytes
reserved_nonce_prefix = reserved_nonce_key ++ codes "."

abbrev pub violation : String → Error
violation message = wrap message (sentinel config_invalid)

-- The chain of the errors that are joined.
abbrev pub fold_join : Error → List Error → Error
fold_join e [] = e
fold_join e (f ∷ es) = join e (fold_join f es)

-- errors.Join on errors that are not nil: nil if there is none.
unfoldable pub join_all : List Error → Option Error
join_all [] = none
join_all (e ∷ es) = some (fold_join e es)

-- The error of an option, as a list.
abbrev pub errors_of : Option Error → List Error
errors_of none = []
errors_of (some e) = e ∷ []

-- requireNonempty.
unfoldable pub require_nonempty : Bytes → String → Option Error
require_nonempty value attr =
    if is_empty value then some (wrap attr (violation "is required")) else none

-- requirePositive.
unfoldable pub require_positive : GoInt → String → Option Error
require_positive value attr =
    if value.negative || value.magnitude == 0
    then some (wrap attr (violation "must be positive"))
    else none

-- The loop of validateProjects.
unfoldable pub project_errors : List Bytes → List Bytes → List Error
project_errors seen [] = []
project_errors seen (project ∷ projects) = elim (is_empty project) [
  | true ↦ violation "project must be nonempty" ∷ project_errors seen projects
  | false ↦ elim (contains seen project) [
    | true ↦ violation "duplicate project" ∷ project_errors seen projects
    | false ↦ project_errors (project ∷ seen) projects
  ]
]

-- validateProjects.
unfoldable pub validate_projects : List Bytes → Option Error
validate_projects projects = join_all (
    (if length projects == 0
      then violation "projects must contain at least one project" ∷ []
      else [])
    ++ ((if ltb max_projects (length projects)
          then violation "projects count exceeds 32" ∷ []
          else [])
        ++ project_errors [] projects))

-- validateUserSelector.
unfoldable pub validate_user_selector : Bytes → Option Error
validate_user_selector key =
    if is_empty key
    then some (violation "user_selectors entry must be nonempty")
    else if not (has_prefix key user_key_prefix) || same key user_key_prefix
    then some (violation "user_selectors entry must be a user.* key")
    else if same key reserved_nonce_key || has_prefix key reserved_nonce_prefix
    then some (violation "user_selectors entry uses the reserved nonce namespace")
    else none

-- The loop of validateUserSelectors.
unfoldable pub selector_errors : List Bytes → List Bytes → List Error
selector_errors seen [] = []
selector_errors seen (key ∷ keys) = elim (validate_user_selector key) [
  | some e ↦ e ∷ selector_errors seen keys
  | none ↦ elim (contains seen key) [
    | true ↦ violation "duplicate user selector" ∷ selector_errors seen keys
    | false ↦ selector_errors (key ∷ seen) keys
  ]
]

-- validateUserSelectors.
unfoldable pub validate_user_selectors : List Bytes → Option Error
validate_user_selectors keys = join_all (
    (if ltb max_user_selectors (length keys)
      then violation "user_selectors count exceeds 32" ∷ []
      else [])
    ++ selector_errors [] keys)

-- ValidateAgent.
unfoldable pub validate_agent : Agent → Bytes → Option Error
validate_agent cfg trust_domain = join_all (
    errors_of (require_nonempty trust_domain "trust_domain")
    ++ errors_of (require_positive cfg.poll_timeout "poll_timeout"))

-- The errors that ValidateServer joins, in their order.
unfoldable pub server_errors : Server → Bytes → List Error
server_errors cfg trust_domain =
    errors_of (require_nonempty trust_domain "trust_domain")
    ++ (errors_of (require_nonempty cfg.incus_endpoint "incus_endpoint")
        ++ (errors_of (require_nonempty cfg.tls_ca_path "tls_ca_path")
            ++ (errors_of (require_nonempty cfg.tls_cert_path "tls_cert_path")
                ++ (errors_of (require_nonempty cfg.tls_key_path "tls_key_path")
                    ++ (errors_of (require_positive cfg.incus_timeout "incus_timeout")
                        ++ (errors_of (
                              require_positive cfg.challenge_response_timeout
                                "challenge_response_timeout")
                            ++ (errors_of (require_positive cfg.cleanup_timeout "cleanup_timeout")
                                ++ (errors_of (validate_projects cfg.projects)
                                    ++ errors_of
                                        (validate_user_selectors cfg.user_selectors)))))))))

-- ValidateServer.
unfoldable pub validate_server : Server → Bytes → Option Error
validate_server cfg trust_domain = join_all (server_errors cfg trust_domain)
