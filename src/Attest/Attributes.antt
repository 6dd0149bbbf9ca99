-- ===== src/Attest/Attributes.antt =====
-- attributes.go: the agent ID and the selectors of an attested instance.
pub mod Selectors
pub mod Laws
use incus_spire_attestor.Prelude.{
  ℕ, zero, suc, ◌+◌, ◌-◌, ◌*◌, ◌/◌, ◌%◌, ◌^◌, ◌≤◌, ◌<◌, String, ◌≡◌, refl, sym, ap, ◌∙◌, subst, ◌≢◌,
  ◌↔◌, ◌⊎◌, inl, inr, Bool, true, false, not, ◌&&◌, ◌||◌, Option, none, some, List, [], ◌∷◌, ◌++◌,
  map, append-nil, append_assoc, arith, Bytes, codes, ltb, leb, ◌==◌, if◌then◌else◌, Bool-cases,
  Option-cases, same, same_self, same_iff, is_empty, length, take, drop, all, length-append,
  take-append-drop, length-drop, All, All-append,
}
use incus_spire_attestor.Errors.{Result, ok, err, deny, require, ◌>>=◌, ◌>>◌}
use incus_spire_attestor.Golang.Slices.{sort, compact, has_prefix}
use incus_spire_attestor.Attest.Types.{Instance, Attributes}
use incus_spire_attestor.Attest.Nonce.{config_key_prefix}
use incus_spire_attestor.Attest.Claims.{validate_instance, denied_because}
use incus_spire_attestor.Golang.Maps.{Map, lookup}

-- maxSelectors.
abbrev pub max_selectors : ℕ
max_selectors = 100

-- maxSelectorValueBytes.
abbrev pub max_selector_value_bytes : ℕ
max_selector_value_bytes = 32768

-- selectorValueLen: what follows the first colon. `strings.IndexByte` below 0 is the empty list.
unfoldable pub selector_value_len : Bytes → ℕ
selector_value_len [] = 0
selector_value_len (c ∷ s) = if c == b':' then length s else selector_value_len s

-- The first four selectors.
abbrev pub fixed_selectors : Instance → Bytes → List Bytes
fixed_selectors target id =
    (codes "project:" ++ target.project)
    ∷ (codes "name:" ++ target.name)
    ∷ (codes "location:" ++ target.location)
    ∷ (codes "uuid:" ++ id)
    ∷ []

-- `for _, profile := range instance.Profiles`.
unfoldable pub profile_selectors : List Bytes → List Bytes
profile_selectors [] = []
profile_selectors (profile ∷ rest) = (codes "profile:" ++ profile) ∷ profile_selectors rest

-- `for _, key := range userSelectors`.
unfoldable pub user_selectors : Map → List Bytes → Result (List Bytes)
user_selectors config [] = ok []
user_selectors config (key ∷ keys) =
    if has_prefix key config_key_prefix
    then deny "reserved selector key"
    else elim (lookup key config) [
      | none ↦ user_selectors config keys
      | some value ↦ user_selectors config keys >>= λ rest. ok ((key ++ b':' ∷ value) ∷ rest)
    ]

-- The loop over the value bytes, from `value_bytes`.
unfoldable pub check_value_bytes : ℕ → List Bytes → Result (Unit {0})
check_value_bytes value_bytes [] = ok tt
check_value_bytes value_bytes (s ∷ ss) =
    let sum = value_bytes + selector_value_len s in
    let rest = check_value_bytes sum ss in
    if ltb max_selector_value_bytes sum then deny "selector value bytes exceed" else rest

-- The two bounds on the final selectors, in their order.
unfoldable pub bound_selectors : List Bytes → Result (List Bytes)
bound_selectors selectors = do
  require (not (ltb max_selectors (length selectors))) (denied_because "selector count")
  check_value_bytes 0 selectors
  ok selectors

-- buildSelectors.
unfoldable pub build_selectors : Instance → Bytes → List Bytes → Result (List Bytes)
build_selectors target id keys = do
  chosen ← user_selectors target.expanded_config keys
  let selectors = fixed_selectors target id ++ (profile_selectors target.profiles ++ chosen)
  bound_selectors (compact (sort selectors))

-- BuildAttributes.
unfoldable pub build_attributes :
    (Bytes → Option Bytes) → Bytes → Instance → List Bytes → Result Attributes
build_attributes parse_uuid trust_domain target keys = do
  id ← validate_instance parse_uuid target
  selectors ← build_selectors target id keys
  ok (record {
    agent_id = codes "spiffe://" ++ (trust_domain ++ (codes "/spire/agent/incus/" ++ id));
    can_reattest = true;
    selectors = selectors;
  })
