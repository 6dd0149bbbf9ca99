-- ===== src/Spire/ServerPlugin/Classes.antt =====
-- The errors of ValidateServer are all of the class that has the code InvalidArgument.
use incus_spire_attestor.Prelude.{
  String, ◌≡◌, refl, sym, subst, inl, inr, Bool, true, false, Option, none, some, List, [], ◌∷◌,
  ◌++◌, arith, Bytes, ltb, ◌==◌, if◌then◌else◌, Bool-cases, Option-cases, is_empty, length, All,
  All-append,
}
use incus_spire_attestor.Errors.{Error, wrap, join, is}
use incus_spire_attestor.Golang.Json.{GoInt}
use incus_spire_attestor.Golang.Slices.{contains}
use incus_spire_attestor.Config.Types.{Server}
use incus_spire_attestor.Config.Validate.{
  max_projects, max_user_selectors, validate_server, server_errors, violation, fold_join, join_all,
  errors_of, require_nonempty, require_positive, project_errors, validate_projects,
  validate_user_selector, selector_errors, validate_user_selectors,
}
use incus_spire_attestor.Spire.Codes.{invalid_argument, code_of}

unfoldable pub IsInvalid : Error → Type 0
IsInvalid e = code_of e ≡ invalid_argument

pub violation-IsInvalid : (message : String) → IsInvalid (violation message)
unfolding IsInvalid code_of is
violation-IsInvalid message = refl

pub wrap-IsInvalid : (message : String) (e : Error) → IsInvalid e → IsInvalid (wrap message e)
unfolding IsInvalid code_of is
wrap-IsInvalid message e h = ground (arith, h)

join-IsInvalid : (e f : Error) → IsInvalid e → IsInvalid f → IsInvalid (join e f)
unfolding IsInvalid code_of is
join-IsInvalid e f h k = ground (arith, h, k)

fold_join-IsInvalid :
    (e : Error) (es : List Error) → IsInvalid e → All IsInvalid es → IsInvalid (fold_join e es)
fold_join-IsInvalid e [] h hs = h
fold_join-IsInvalid e (f ∷ es) h hs =
    join-IsInvalid e (fold_join f es) h (fold_join-IsInvalid f es hs.0 hs.1)

-- Where an error that may be nil is not, it is of this class.
unfoldable pub IsInvalidIf : Option Error → Type 0
IsInvalidIf o = (e : Error) → o ≡ some e → IsInvalid e

join_all-IsInvalid : (es : List Error) → All IsInvalid es → IsInvalidIf (join_all es)
unfolding join_all IsInvalidIf
join_all-IsInvalid [] hs e h = cc
join_all-IsInvalid (f ∷ es) hs e h =
    subst IsInvalid (ground (arith, h)) (fold_join-IsInvalid f es hs.0 hs.1)

errors_of-IsInvalid : (o : Option Error) → IsInvalidIf o → All IsInvalid (errors_of o)
unfolding IsInvalidIf
errors_of-IsInvalid none h = tt
errors_of-IsInvalid (some e) h = (h e refl, tt)

require_nonempty-IsInvalid :
    (value : Bytes) (attr : String) → IsInvalidIf (require_nonempty value attr)
unfolding IsInvalidIf require_nonempty IsInvalid code_of is
require_nonempty-IsInvalid value attr e h = ground (arith, h)

require_positive-IsInvalid :
    (value : GoInt) (attr : String) → IsInvalidIf (require_positive value attr)
unfolding IsInvalidIf require_positive IsInvalid code_of is
require_positive-IsInvalid value attr e h = ground (arith, h)

validate_user_selector-IsInvalid : (key : Bytes) → IsInvalidIf (validate_user_selector key)
unfolding IsInvalidIf validate_user_selector IsInvalid code_of is
validate_user_selector-IsInvalid key e h = ground (arith, h)

-- One violation, or none.
when-IsInvalid :
    (b : Bool) (message : String) → All IsInvalid (if b then violation message ∷ [] else [])
when-IsInvalid true message = (violation-IsInvalid message, tt)
when-IsInvalid false message = tt

-- One error more, or none.
grown-IsInvalid :
    (es l : List Error) (e : Error) → IsInvalid e → All IsInvalid es → l ≡ e ∷ es → All IsInvalid l
grown-IsInvalid es l e h hs q = subst (All IsInvalid) (sym q) (h, hs)

project_errors-IsInvalid :
    (seen projects : List Bytes) → All IsInvalid (project_errors seen projects)
unfolding project_errors
project_errors-IsInvalid seen [] = tt
project_errors-IsInvalid seen (p ∷ ps) =
    let rest = project_errors seen ps in
    elim (Bool-cases (is_empty p)) [
      | inl e ↦
          grown-IsInvalid rest _ (violation "project must be nonempty") (violation-IsInvalid _)
            (project_errors-IsInvalid seen ps) (ground (arith, e))
      | inr e ↦ elim (Bool-cases (contains seen p)) [
        | inl d ↦
            grown-IsInvalid rest _ (violation "duplicate project") (violation-IsInvalid _)
              (project_errors-IsInvalid seen ps) (ground (arith, e, d))
        | inr d ↦
            let q : project_errors (p ∷ seen) ps ≡ project_errors seen (p ∷ ps) =
              ground (arith, e, d) in
            subst (All IsInvalid) q (project_errors-IsInvalid (p ∷ seen) ps)
      ]
    ]

selector_errors-IsInvalid : (seen keys : List Bytes) → All IsInvalid (selector_errors seen keys)
unfolding selector_errors IsInvalidIf
selector_errors-IsInvalid seen [] = tt
selector_errors-IsInvalid seen (k ∷ ks) =
    let rest = selector_errors seen ks in
    elim (Option-cases (validate_user_selector k)) [
      | inr (x, e) ↦
          grown-IsInvalid rest _ x (validate_user_selector-IsInvalid k x e)
            (selector_errors-IsInvalid seen ks) (ground (arith, e))
      | inl e ↦ elim (Bool-cases (contains seen k)) [
        | inl d ↦
            grown-IsInvalid rest _ (violation "duplicate user selector") (violation-IsInvalid _)
              (selector_errors-IsInvalid seen ks) (ground (arith, e, d))
        | inr d ↦
            let q : selector_errors (k ∷ seen) ks ≡ selector_errors seen (k ∷ ks) =
              ground (arith, e, d) in
            subst (All IsInvalid) q (selector_errors-IsInvalid (k ∷ seen) ks)
      ]
    ]

record AreInvalid (es : List Error) : Type 0 where
  each : All IsInvalid es

append-AreInvalid : (es fs : List Error) → AreInvalid es → AreInvalid fs → AreInvalid (es ++ fs)
append-AreInvalid es fs h k = record { each = All-append IsInvalid es fs h.each k.each }

errors_of-AreInvalid : (o : Option Error) → IsInvalidIf o → AreInvalid (errors_of o)
errors_of-AreInvalid o h = record { each = errors_of-IsInvalid o h }

when-AreInvalid :
    (b : Bool) (message : String) → AreInvalid (if b then violation message ∷ [] else [])
when-AreInvalid b message = record { each = when-IsInvalid b message }

validate_projects-IsInvalid : (projects : List Bytes) → IsInvalidIf (validate_projects projects)
unfolding validate_projects
validate_projects-IsInvalid projects =
    let count : AreInvalid _ =
      append-AreInvalid _ _
        (when-AreInvalid (length projects == 0) "projects must contain at least one project")
        (append-AreInvalid _ _
          (when-AreInvalid (ltb max_projects (length projects)) "projects count exceeds 32")
          (record { each = project_errors-IsInvalid [] projects })) in
    join_all-IsInvalid _ count.each

validate_user_selectors-IsInvalid : (keys : List Bytes) → IsInvalidIf (validate_user_selectors keys)
unfolding validate_user_selectors
validate_user_selectors-IsInvalid keys =
    let count : AreInvalid _ =
      append-AreInvalid _ _
        (when-AreInvalid (ltb max_user_selectors (length keys)) "user_selectors count exceeds 32")
        (record { each = selector_errors-IsInvalid [] keys }) in
    join_all-IsInvalid _ count.each

-- An error that may be nil, in front of others.
more-AreInvalid :
    (o : Option Error) (es : List Error)
    → IsInvalidIf o
    → AreInvalid es
    → AreInvalid (errors_of o ++ es)
more-AreInvalid o es h hs = append-AreInvalid (errors_of o) es (errors_of-AreInvalid o h) hs

server_errors-AreInvalid :
    (cfg : Server) (trust_domain : Bytes) → AreInvalid (server_errors cfg trust_domain)
unfolding server_errors
server_errors-AreInvalid cfg trust_domain =
    more-AreInvalid _ _ (require_nonempty-IsInvalid trust_domain "trust_domain") (
      more-AreInvalid _ _ (require_nonempty-IsInvalid cfg.incus_endpoint "incus_endpoint") (
        more-AreInvalid _ _ (require_nonempty-IsInvalid cfg.tls_ca_path "tls_ca_path") (
          more-AreInvalid _ _ (require_nonempty-IsInvalid cfg.tls_cert_path "tls_cert_path") (
            more-AreInvalid _ _ (require_nonempty-IsInvalid cfg.tls_key_path "tls_key_path") (
              more-AreInvalid _ _ (require_positive-IsInvalid cfg.incus_timeout "incus_timeout") (
                more-AreInvalid _ _
                  (require_positive-IsInvalid cfg.challenge_response_timeout
                    "challenge_response_timeout")
                  (more-AreInvalid _ _
                    (require_positive-IsInvalid cfg.cleanup_timeout "cleanup_timeout")
                    (more-AreInvalid _ _ (validate_projects-IsInvalid cfg.projects) (
                      errors_of-AreInvalid _
                        (validate_user_selectors-IsInvalid cfg.user_selectors))))))))))

pub validate_server-IsInvalid :
    (cfg : Server) (trust_domain : Bytes) → IsInvalidIf (validate_server cfg trust_domain)
unfolding validate_server
validate_server-IsInvalid cfg trust_domain =
    join_all-IsInvalid (server_errors cfg trust_domain)
      (server_errors-AreInvalid cfg trust_domain).each
