-- ===== src/Tests/AttestRuns.antt =====
-- Concrete runs of the attest package, and its theorems at concrete inputs.
use incus_spire_attestor.Prelude.{
  ◌≡◌, refl, Bytes, codes, [], ◌∷◌, ◌++◌, ◌↔◌, ◌⊎◌, true, arith, false, List, same,
}
use incus_spire_attestor.Errors.{ok, is, denied, deny, wrap, sentinel}
use incus_spire_attestor.Golang.Hex
use incus_spire_attestor.Attest.Types.{Instance, Attributes}
use incus_spire_attestor.Attest.Nonce.{new_config_key, new_config_key_from_attempt_id, verify_nonce}
use incus_spire_attestor.Attest.Nonce.Grammar.{
  IsConfigKey, new_config_key_iff, new_config_key-from_attempt_id,
  new_config_key_from_attempt_id_injective,
}
use incus_spire_attestor.Attest.Claims.{
  match_claims, validate_claims, validate_claims_uuid, canonical_uuid, validate_instance,
}
use incus_spire_attestor.Attest.Claims.Matching.{
  IsMatch, IsValidInstance, match_claims_iff, match_claims_denied, validate_claims_denied,
}
use incus_spire_attestor.Attest.Attributes.{
  build_attributes, build_selectors, user_selectors, profile_selectors, bound_selectors,
  check_value_bytes, selector_value_len,
}
use incus_spire_attestor.Attest.Attributes.Selectors.{
  user_selectors_total, user_selectors_iff, profile_selectors_iff, reserved, IsChosen,
}
use incus_spire_attestor.Attest.Attributes.Laws.{
  build_attributes_iff, build_selectors_order, IsSelectorsOf,
}
use incus_spire_attestor.Golang.Slices.{contains, has_prefix, compact, sort}
use incus_spire_attestor.Golang.Maps.{lookup}
use incus_spire_attestor.Tests.Samples.{
  uuid0, parse_uuid0, claims0, instance0, keys0, id0, id1, id0-IsBytes16,
}

abbrev key0 : Bytes
key0 = codes "user.spire.attestor.nonce.000102030405060708090a0b0c0d0eff"

key_of_id0 : new_config_key_from_attempt_id id0 ≡ key0
unfolding new_config_key_from_attempt_id Hex.encode
key_of_id0 = refl

key0_accepted : new_config_key key0 ≡ ok key0
unfolding new_config_key same
key0_accepted = refl

new_config_key_example : IsConfigKey key0
new_config_key_example = ((new_config_key_iff key0 key0).0 key0_accepted).1

attempt_id_example :
    new_config_key (new_config_key_from_attempt_id id0) ≡ ok (new_config_key_from_attempt_id id0)
attempt_id_example = new_config_key-from_attempt_id id0 id0-IsBytes16

injective_example : id0 ≡ id0
injective_example =
    new_config_key_from_attempt_id_injective id0 id0 id0-IsBytes16 id0-IsBytes16 refl

short_nonce_denied : verify_nonce id0 (0 ∷ []) ≡ deny "nonce length"
unfolding verify_nonce
short_nonce_denied = refl

other_nonce_denied : verify_nonce id0 id1 ≡ deny "nonce mismatch"
unfolding verify_nonce same
other_nonce_denied = refl

claims0_match : match_claims parse_uuid0 claims0 instance0 ≡ ok tt
unfolding match_claims validate_claims_uuid same canonical_uuid validate_instance
claims0_match = refl

match_claims_example : IsMatch parse_uuid0 claims0 instance0
match_claims_example = (match_claims_iff parse_uuid0 claims0 instance0).0 claims0_match

abbrev elsewhere : Instance
elsewhere = record instance0 { location = codes "n2" }

mismatch_example : is denied (wrap "location mismatch" (sentinel denied)) ≡ true
unfolding match_claims validate_claims_uuid same canonical_uuid validate_instance
mismatch_example =
    match_claims_denied parse_uuid0 claims0 elsewhere (wrap "location mismatch" (sentinel denied))
      refl

nameless_example : is denied (wrap "instance name is required" (sentinel denied)) ≡ true
unfolding validate_claims validate_claims_uuid
nameless_example =
    validate_claims_denied parse_uuid0 (record claims0 { name = [] })
      (wrap "instance name is required" (sentinel denied)) refl

abbrev pub attrs0 : Attributes
attrs0 = record {
  agent_id = codes "spiffe://td/spire/agent/incus/" ++ uuid0;
  can_reattest = true;
  selectors =
      codes "location:n1"
      ∷ codes "name:web"
      ∷ codes "profile:a"
      ∷ codes "profile:default"
      ∷ codes "project:p"
      ∷ codes "user.role:db"
      ∷ (codes "uuid:" ++ uuid0)
      ∷ [];
}

pub instance0_attributes : build_attributes parse_uuid0 (codes "td") instance0 keys0 ≡ ok attrs0
unfolding build_attributes validate_instance same canonical_uuid build_selectors user_selectors
    has_prefix lookup bound_selectors compact sort profile_selectors check_value_bytes
    selector_value_len
instance0_attributes = refl

build_attributes_example :
    (id : Bytes) × IsValidInstance parse_uuid0 instance0 id
    × (attrs0.agent_id ≡ codes "spiffe://" ++ (codes "td" ++ (codes "/spire/agent/incus/" ++ id)))
    × (attrs0.can_reattest ≡ true)
    × IsSelectorsOf instance0 id keys0 attrs0.selectors
build_attributes_example =
    (build_attributes_iff parse_uuid0 (codes "td") instance0 keys0 attrs0).0 instance0_attributes

reordered : Instance
reordered = record instance0 { profiles = codes "a" ∷ codes "default" ∷ [] }

build_selectors_example :
    build_selectors instance0 uuid0 keys0 ≡ build_selectors reordered uuid0 keys0
unfolding reordered contains
build_selectors_example =
    build_selectors_order instance0 reordered uuid0 keys0 keys0 refl (λ x. ground (arith))
      (λ k. refl) (λ x. refl)

user_selectors_example :
    ((reserved keys0 ≡ true)
      × (user_selectors instance0.expanded_config keys0 ≡ deny "reserved selector key"))
    ⊎ ((reserved keys0 ≡ false)
        × ((chosen : List Bytes) × (user_selectors instance0.expanded_config keys0 ≡ ok chosen)))
user_selectors_example = user_selectors_total instance0.expanded_config keys0

chosen_example :
    (contains (codes "user.role:db" ∷ []) (codes "user.role:db") ≡ true)
    ↔ IsChosen instance0.expanded_config keys0 (codes "user.role:db")
unfolding user_selectors has_prefix lookup same
chosen_example =
    user_selectors_iff instance0.expanded_config keys0 (codes "user.role:db" ∷ [])
      (codes "user.role:db") refl

profile_example : (contains (profile_selectors instance0.profiles) (codes "profile:a") ≡ true) ↔ (
    (p : Bytes) × (contains instance0.profiles p ≡ true)
    × (codes "profile:a" ≡ codes "profile:" ++ p))
profile_example = profile_selectors_iff instance0.profiles (codes "profile:a")
