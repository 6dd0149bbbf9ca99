-- ===== src/Server/Resolve.antt =====
-- resolve.go: the search for the one allowed instance that the claims describe.
pub mod Search
pub mod Resolved
use incus_spire_attestor.Prelude.{
  ℕ, zero, suc, ◌+◌, ◌-◌, ◌*◌, ◌/◌, ◌%◌, ◌^◌, ◌≤◌, ◌<◌, String, ◌≡◌, refl, sym, ap, ◌∙◌, subst, ◌≢◌,
  ◌↔◌, ◌⊎◌, inl, inr, Bool, true, false, not, ◌&&◌, ◌||◌, Option, none, some, List, [], ◌∷◌, ◌++◌,
  map, append-nil, append_assoc, arith, Bytes, codes, ltb, leb, ◌==◌, if◌then◌else◌, Bool-cases,
  Option-cases, same, same_self, same_iff, is_empty, length, take, drop, all, length-append,
  take-append-drop, length-drop, All, All-append,
}
use incus_spire_attestor.Errors.{Result, ok, err, Error, wrap, deny}
use incus_spire_attestor.Exec.{Exec, pure, lift, wrapped, ◌>>=◌, ◌>>◌}
use incus_spire_attestor.Golang.Slices.{contains}
use incus_spire_attestor.Attest.Types.{Claims, Instance}
use incus_spire_attestor.Attest.Claims.{match_claims}
use incus_spire_attestor.Server.Ports.{Context, rpc, with_timeout, Ports, Run, lookup}

-- attest.Instance{}.
abbrev pub zero_instance : Instance
zero_instance = record {
  project = [];
  name = [];
  uuid = [];
  type = [];
  location = [];
  cloud_init_id = [];
  profiles = [];
  expanded_config = [];
}

abbrev pub found_or_denied : Option Instance → Result Instance
found_or_denied none = deny "instance not found"
found_or_denied (some target) = ok target

-- The switch on the number of matches.
unfoldable pub only_match : Instance × ℕ → Result Instance
only_match (matched, matches) =
    if matches == 1
    then ok matched
    else if matches == 0
    then deny "instance not found"
    else deny "multiple matching instances"

-- What one round of the search adds: the instance if it was found and matches.
unfoldable pub matching : (Bytes → Option Bytes) → Claims → Option Instance → Option Instance
matching parse_uuid claims none = none
matching parse_uuid claims (some target) = elim (match_claims parse_uuid claims target) [
  | ok _ ↦ some target
  | err _ ↦ none
]

-- `matched = instance; matches++`, unless the round was left by `continue`.
abbrev pub tally : Option Instance → Instance × ℕ → Instance × ℕ
tally none (matched, matches) = (matched, matches)
tally (some target) (matched, matches) = (target, matches + 1)

module _ {W : Type 0} (parse_uuid : Bytes → Option Bytes) (ports : Ports W) where
  -- resolveHinted.
  unfoldable pub resolve_hinted : Context → List Bytes → Claims → Exec (Run W) Instance
  resolve_hinted ctx projects claims =
      if not (contains projects claims.project) then lift (deny "project is not allowed") else do
        found ← wrapped (wrap "lookup instance") (lookup ports ctx claims.project claims.name)
        target ← lift (found_or_denied found)
        lift (match_claims parse_uuid claims target)
        pure target

  -- The loop of resolveUnhinted, over the allowed projects.
  unfoldable pub search_projects :
      Context → Claims → List Bytes → Instance × ℕ → Exec (Run W) (Instance × ℕ)
  search_projects ctx claims [] acc = pure acc
  search_projects ctx claims (project ∷ projects) acc = do
    found ← wrapped (wrap "lookup instance") (lookup ports ctx project claims.name)
    search_projects ctx claims projects (tally (matching parse_uuid claims found) acc)

  -- resolveUnhinted.
  unfoldable pub resolve_unhinted : Context → List Bytes → Claims → Exec (Run W) Instance
  resolve_unhinted ctx projects claims = do
    found ← search_projects ctx claims projects (zero_instance, 0)
    lift (only_match found)

  -- resolveInstance.
  unfoldable pub resolve_instance : ℕ → List Bytes → Claims → Exec (Run W) Instance
  resolve_instance incus_timeout projects claims =
      let lookup_ctx = with_timeout rpc incus_timeout in
      if not (is_empty claims.project)
      then resolve_hinted lookup_ctx projects claims
      else resolve_unhinted lookup_ctx projects claims
