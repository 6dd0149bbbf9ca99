-- ===== src/Config/Validate/Accepted.antt =====
-- What ValidateServer accepts, and what it guarantees to the server.
use incus_spire_attestor.Prelude.{
  ◌≤◌, ◌<◌, String, ◌≡◌, refl, ◌≢◌, ◌↔◌, inl, inr, Bool, true, false, Option, none, some, List, [],
  ◌∷◌, ◌++◌, arith, Bytes, ltb, ◌==◌, if◌then◌else◌, Bool-cases, Option-cases, same_self, same_iff,
  is_empty, length, All,
}
use incus_spire_attestor.Errors.{ok, Error}
use incus_spire_attestor.Golang.Json.{GoInt}
use incus_spire_attestor.Golang.Maps.{Map}
use incus_spire_attestor.Golang.Slices.{contains, has_prefix}
use incus_spire_attestor.Attest.Attributes.{user_selectors}
use incus_spire_attestor.Attest.Attributes.Selectors.{reserved, user_selectors_total}
use incus_spire_attestor.Config.Types.{Server}
use incus_spire_attestor.Config.Validate.{
  user_key_prefix, reserved_nonce_key, reserved_nonce_prefix, join_all, errors_of, require_nonempty,
  require_positive, project_errors, validate_projects, validate_user_selector, selector_errors,
  validate_user_selectors, server_errors, validate_server,
}

-- Each of the strings differs from those before it and from the ones seen.
abbrev pub IsDistinct : List Bytes → List Bytes → Type 0
IsDistinct seen [] = Unit {0}
IsDistinct seen (s ∷ ss) = (contains seen s ≡ false) × IsDistinct (s ∷ seen) ss

abbrev pub IsPositive : GoInt → Type 0
IsPositive n = (n.negative ≡ false) × (0 < n.magnitude)

-- A user key: `user.` and more, outside the namespace of nonces.
pub record IsUserKey (key : Bytes) : Type 0 where
  pub user : has_prefix key user_key_prefix ≡ true
  pub named : key ≢ user_key_prefix
  pub no_nonce : key ≢ reserved_nonce_key
  pub no_reserved : has_prefix key reserved_nonce_prefix ≡ false

pub record IsValidServer (cfg : Server) (trust_domain : Bytes) : Type 0 where
  pub domain : trust_domain ≢ []
  pub endpoint : cfg.incus_endpoint ≢ []
  pub ca : cfg.tls_ca_path ≢ []
  pub cert : cfg.tls_cert_path ≢ []
  pub key : cfg.tls_key_path ≢ []
  pub incus : IsPositive cfg.incus_timeout
  pub challenge : IsPositive cfg.challenge_response_timeout
  pub cleanup : IsPositive cfg.cleanup_timeout
  pub project_count : (1 ≤ length cfg.projects) × (length cfg.projects ≤ 32)
  pub projects : All (λ p. p ≢ []) cfg.projects
  pub distinct_projects : IsDistinct [] cfg.projects
  pub selector_count : length cfg.user_selectors ≤ 32
  pub selectors : All IsUserKey cfg.user_selectors
  pub distinct_selectors : IsDistinct [] cfg.user_selectors

join_all_none : (es : List Error) → join_all es ≡ none → es ≡ []
unfolding join_all
join_all_none [] h = refl
join_all_none (e ∷ es) h = cc

errors_of_none : (o : Option Error) → errors_of o ≡ [] → o ≡ none
errors_of_none none h = refl
errors_of_none (some e) h = cc

append_none : (es fs : List Error) → es ++ fs ≡ [] → (es ≡ []) × (fs ≡ [])
append_none [] fs h = (refl, h)
append_none (e ∷ es) fs h = cc

require_nonempty_iff : (s : Bytes) (attr : String) → (require_nonempty s attr ≡ none) ↔ (s ≢ [])
unfolding require_nonempty
require_nonempty_iff s attr = (λ h. ground (arith, h), λ h. ground (arith, h))

require_positive_iff : (n : GoInt) (attr : String) → (require_positive n attr ≡ none) ↔ IsPositive n
unfolding require_positive
require_positive_iff n attr = (λ h. (ground (arith, h), ground (arith, h)), λ h. ground (arith, h))

project_errors_iff :
    (seen ps : List Bytes)
    → (project_errors seen ps ≡ []) ↔ (All (λ p. p ≢ []) ps × IsDistinct seen ps)
unfolding project_errors
project_errors_iff seen [] = (λ h. (tt, tt), λ h. refl)
project_errors_iff seen (p ∷ ps) = elim (Bool-cases (is_empty p)) [
  | inl empty ↦ rw (empty, project_errors) (λ h. cc, λ h. absurd (ground (arith, empty, h.0.0)))
  | inr named ↦ elim (Bool-cases (contains seen p)) [
    | inl twice ↦ rw (named, twice, project_errors) (λ h. cc, λ h. absurd (ground (arith, h.1.0)))
    | inr fresh ↦
        let later = project_errors_iff (p ∷ seen) ps in
        rw (named, fresh, project_errors)
          (
            λ h. ((ground (arith, named), (later.0 h).0), (refl, (later.0 h).1)),
            λ h. later.1 (h.0.1, h.1.1),
          )
  ]
]

prefix_named : (key : Bytes) → has_prefix key user_key_prefix ≡ true → is_empty key ≡ false
unfolding has_prefix
prefix_named [] h = cc
prefix_named (c ∷ key) h = refl

validate_user_selector_iff : (key : Bytes) → (validate_user_selector key ≡ none) ↔ IsUserKey key
unfolding validate_user_selector
validate_user_selector_iff key = (
  λ h. record {
    user = ground (arith, h);
    named = ground (arith, h, same_self key, same_iff key user_key_prefix);
    no_nonce = ground (arith, h, same_iff key reserved_nonce_key);
    no_reserved = ground (arith, h);
  },
  λ h. ground (
    arith,
    prefix_named key h.user,
    h.user,
    h.named,
    h.no_nonce,
    h.no_reserved,
    same_iff key user_key_prefix,
    same_iff key reserved_nonce_key,
  ),
)

selector_errors_iff :
    (seen ks : List Bytes)
    → (selector_errors seen ks ≡ []) ↔ (All IsUserKey ks × IsDistinct seen ks)
unfolding selector_errors
selector_errors_iff seen [] = (λ h. (tt, tt), λ h. refl)
selector_errors_iff seen (k ∷ ks) = elim (Option-cases (validate_user_selector k)) [
  | inl good ↦ elim (Bool-cases (contains seen k)) [
    | inl twice ↦ rw (good, twice, selector_errors) (λ h. cc, λ h. absurd (ground (arith, h.1.0)))
    | inr fresh ↦
        let later = selector_errors_iff (k ∷ seen) ks in
        rw (good, fresh, selector_errors)
          (
            λ h. (((validate_user_selector_iff k).0 good, (later.0 h).0), (refl, (later.0 h).1)),
            λ h. later.1 (h.0.1, h.1.1),
          )
  ]
  | inr (e, bad) ↦
      rw (bad, selector_errors)
        (λ h. cc, λ h. absurd (ground (arith, bad, (validate_user_selector_iff k).1 h.0.0)))
]

join_all_iff : (es : List Error) → (join_all es ≡ none) ↔ (es ≡ [])
unfolding join_all
join_all_iff es = (join_all_none es, λ h. rw h refl)

-- One more error in front that is there if the test holds.
join_all_if :
    (test : Bool) (e : Error) (es : List Error)
    → (join_all ((if test then e ∷ [] else []) ++ es) ≡ none)
      ↔ ((test ≡ false) × (join_all es ≡ none))
unfolding join_all
join_all_if true e es = (λ h. cc, λ h. absurd (ground (arith, h.0)))
join_all_if false e es = (λ h. (refl, h), λ h. h.1)

-- One more error in front that is there unless the check is passed.
join_all_cons :
    (o : Option Error) (es : List Error)
    → (join_all (errors_of o ++ es) ≡ none) ↔ ((o ≡ none) × (join_all es ≡ none))
unfolding join_all
join_all_cons none es = (λ h. (refl, h), λ h. h.1)
join_all_cons (some e) es = (λ h. cc, λ h. absurd (ground (arith, h.0)))

join_all_last : (o : Option Error) → (join_all (errors_of o) ≡ none) ↔ (o ≡ none)
unfolding join_all
join_all_last none = (λ h. refl, λ h. refl)
join_all_last (some e) = (λ h. cc, λ h. cc)

validate_user_selectors_iff :
    (ks : List Bytes)
    → (validate_user_selectors ks ≡ none) ↔ ((length ks ≤ 32) × All IsUserKey ks × IsDistinct [] ks)
unfolding validate_user_selectors
validate_user_selectors_iff ks = (
  λ h.
      let (few, clean) = (join_all_if (ltb 32 (length ks)) _ (selector_errors [] ks)).0 h in
      let (good, distinct) = (selector_errors_iff [] ks).0 (join_all_none _ clean) in
      (ground (arith, few), good, distinct),
  λ (few, good, distinct).
      (join_all_if (ltb 32 (length ks)) _ (selector_errors [] ks)).1
        (ground (arith, few), (join_all_iff _).1 ((selector_errors_iff [] ks).1 (good, distinct))),
)

validate_projects_iff :
    (ps : List Bytes)
    → (validate_projects ps ≡ none)
      ↔ ((1 ≤ length ps) × (length ps ≤ 32) × All (λ p. p ≢ []) ps × IsDistinct [] ps)
unfolding validate_projects
validate_projects_iff ps = (
  λ h.
      let (some_project, rest) = (join_all_if (length ps == 0) _ _).0 h in
      let (few, clean) = (join_all_if (ltb 32 (length ps)) _ (project_errors [] ps)).0 rest in
      let (named, distinct) = (project_errors_iff [] ps).0 (join_all_none _ clean) in
      (ground (arith, some_project), ground (arith, few), named, distinct),
  λ (some_project, few, named, distinct). (join_all_if (length ps == 0) _ _).1 (
    ground (arith, some_project),
    (join_all_if (ltb 32 (length ps)) _ (project_errors [] ps)).1
        (ground (arith, few), (join_all_iff _).1 ((project_errors_iff [] ps).1 (named, distinct))),
  ),
)

validate_server_sound :
    (cfg : Server) (domain : Bytes) → validate_server cfg domain ≡ none → IsValidServer cfg domain
unfolding validate_server server_errors
validate_server_sound cfg domain h0 =
    let (o0, h1) = (join_all_cons _ _).0 h0 in
    let (o1, h2) = (join_all_cons _ _).0 h1 in
    let (o2, h3) = (join_all_cons _ _).0 h2 in
    let (o3, h4) = (join_all_cons _ _).0 h3 in
    let (o4, h5) = (join_all_cons _ _).0 h4 in
    let (o5, h6) = (join_all_cons _ _).0 h5 in
    let (o6, h7) = (join_all_cons _ _).0 h6 in
    let (o7, h8) = (join_all_cons _ _).0 h7 in
    let (o8, h9) = (join_all_cons _ _).0 h8 in
    let (some_project, few_projects, named, distinct) = (validate_projects_iff cfg.projects).0 o8 in
    let (few, good, distinct_keys) =
      (validate_user_selectors_iff cfg.user_selectors).0 ((join_all_last _).0 h9) in
    record {
      domain = (require_nonempty_iff domain "trust_domain").0 o0;
      endpoint = (require_nonempty_iff cfg.incus_endpoint "incus_endpoint").0 o1;
      ca = (require_nonempty_iff cfg.tls_ca_path "tls_ca_path").0 o2;
      cert = (require_nonempty_iff cfg.tls_cert_path "tls_cert_path").0 o3;
      key = (require_nonempty_iff cfg.tls_key_path "tls_key_path").0 o4;
      incus = (require_positive_iff cfg.incus_timeout "incus_timeout").0 o5;
      challenge =
          (require_positive_iff cfg.challenge_response_timeout "challenge_response_timeout").0 o6;
      cleanup = (require_positive_iff cfg.cleanup_timeout "cleanup_timeout").0 o7;
      project_count = (some_project, few_projects);
      projects = named;
      distinct_projects = distinct;
      selector_count = few;
      selectors = good;
      distinct_selectors = distinct_keys;
    }

validate_server_complete :
    (cfg : Server) (domain : Bytes) → IsValidServer cfg domain → validate_server cfg domain ≡ none
unfolding validate_server server_errors join_all
validate_server_complete cfg domain v =
    rw
      (
        (require_nonempty_iff domain "trust_domain").1 v.domain,
        (require_nonempty_iff cfg.incus_endpoint "incus_endpoint").1 v.endpoint,
        (require_nonempty_iff cfg.tls_ca_path "tls_ca_path").1 v.ca,
        (require_nonempty_iff cfg.tls_cert_path "tls_cert_path").1 v.cert,
        (require_nonempty_iff cfg.tls_key_path "tls_key_path").1 v.key,
        (require_positive_iff cfg.incus_timeout "incus_timeout").1 v.incus,
        (require_positive_iff cfg.challenge_response_timeout "challenge_response_timeout").1
            v.challenge,
        (require_positive_iff cfg.cleanup_timeout "cleanup_timeout").1 v.cleanup,
        (validate_projects_iff cfg.projects).1
            (v.project_count.0, v.project_count.1, v.projects, v.distinct_projects),
        (validate_user_selectors_iff cfg.user_selectors).1
            (v.selector_count, v.selectors, v.distinct_selectors),
      )
      refl

-- ValidateServer accepts exactly the configurations with no empty required field, positive durations, one to 32
-- distinct projects that are not empty, and at most 32 distinct user.* keys outside the nonce namespace.
pub validate_server_iff :
    (cfg : Server) (domain : Bytes) → (validate_server cfg domain ≡ none) ↔ IsValidServer cfg domain
validate_server_iff cfg domain =
    (validate_server_sound cfg domain, validate_server_complete cfg domain)

no_reserved_key : (keys : List Bytes) → All IsUserKey keys → reserved keys ≡ false
no_reserved_key [] h = refl
no_reserved_key (k ∷ ks) h = ground (arith, h.0.no_reserved, no_reserved_key ks h.1)

-- With a configuration that ValidateServer accepts, BuildAttributes never refuses a user key as
-- reserved: whatever the configuration of the instance holds, the user selectors are built.
pub user_selectors-validate_server :
    (cfg : Server) (domain : Bytes) (config : Map)
    → validate_server cfg domain ≡ none
    → (chosen : List Bytes) × (user_selectors config cfg.user_selectors ≡ ok chosen)
user_selectors-validate_server cfg domain config h =
    let free = no_reserved_key cfg.user_selectors (validate_server_sound cfg domain h).selectors in
    elim (user_selectors_total config cfg.user_selectors) [
      | inl (bad, _) ↦ absurd (ground (arith, bad, free))
      | inr (_, chosen) ↦ chosen
    ]
