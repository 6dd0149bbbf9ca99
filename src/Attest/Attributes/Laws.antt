-- ===== src/Attest/Attributes/Laws.antt =====
-- What BuildAttributes returns: bounds, content, and independence of order.
use incus_spire_attestor.Prelude.{
  ℕ, ◌+◌, ◌≤◌, ◌≡◌, refl, sym, ap, ◌∙◌, subst, ◌↔◌, inl, inr, true, Option, List, [], ◌∷◌, ◌++◌,
  arith, Bytes, codes, length,
}
use incus_spire_attestor.Errors.{ok, >>=-eq-ok}
use incus_spire_attestor.Golang.Slices.{contains, sort, compact}
use incus_spire_attestor.Golang.Slices.Sorted.{
  IsStrict, compact-sort-IsStrict, contains-compact-sort, compact-sort_unique, strict_unique,
}
use incus_spire_attestor.Attest.Types.{Instance, Attributes}
use incus_spire_attestor.Attest.Claims.{validate_instance}
use incus_spire_attestor.Attest.Claims.Matching.{
  IsValidInstance, validate_instance_sound, validate_instance_complete,
}
use incus_spire_attestor.Attest.Attributes.{
  user_selectors, profile_selectors, fixed_selectors, selector_value_len, check_value_bytes,
  build_selectors, build_attributes, max_selector_value_bytes, bound_selectors,
}
use incus_spire_attestor.Attest.Attributes.Selectors.{
  SameSet, SameMap, reserved-SameSet, user_selectors_total, user_selectors-SameSet,
  profile_selectors-SameSet, contains-append,
}

-- The value bytes of a list of selectors.
abbrev pub value_bytes : List Bytes → ℕ
value_bytes [] = 0
value_bytes (s ∷ ss) = selector_value_len s + value_bytes ss

check_value_bytes_sound :
    (n : ℕ) (ss : List Bytes)
    → n ≤ max_selector_value_bytes
    → check_value_bytes n ss ≡ ok tt
    → n + value_bytes ss ≤ max_selector_value_bytes
unfolding check_value_bytes
check_value_bytes_sound n [] fits h = omega arith
check_value_bytes_sound n (s ∷ ss) fits h =
    ground (arith, check_value_bytes_sound (n + selector_value_len s) ss)

check_value_bytes_complete :
    (n : ℕ) (ss : List Bytes)
    → n + value_bytes ss ≤ max_selector_value_bytes
    → check_value_bytes n ss ≡ ok tt
unfolding check_value_bytes
check_value_bytes_complete n [] h = refl
check_value_bytes_complete n (s ∷ ss) h =
    ground (arith, check_value_bytes_complete (n + selector_value_len s) ss)

-- The list that is sorted and compacted.
abbrev pub raw_selectors : Instance → Bytes → List Bytes → List Bytes
raw_selectors target id chosen =
    fixed_selectors target id ++ (profile_selectors target.profiles ++ chosen)

-- The selectors of an attestation.
pub record IsSelectorsOf (target : Instance) (id : Bytes) (keys : List Bytes)
    (selectors : List Bytes) : Type 0 where
  pub chosen : List Bytes
  pub from_keys : user_selectors target.expanded_config keys ≡ ok chosen
  pub strict : IsStrict selectors
  pub content : SameSet selectors (raw_selectors target id chosen)
  pub count : length selectors ≤ 100
  pub size : value_bytes selectors ≤ 32768

abbrev IsBounded : List Bytes → Type 0
IsBounded selectors = (length selectors ≤ 100) × (value_bytes selectors ≤ 32768)

bound_selectors_sound :
    (ss : List Bytes) {selectors : List Bytes}
    → bound_selectors ss ≡ ok selectors
    → (selectors ≡ ss) × IsBounded ss
unfolding bound_selectors
bound_selectors_sound ss h = (
  ground (arith, check_value_bytes_sound 0 ss (omega arith)),
  (
    ground (arith, check_value_bytes_sound 0 ss (omega arith)),
    ground (arith, check_value_bytes_sound 0 ss (omega arith)),
  ),
)

bound_selectors_complete : (ss : List Bytes) → IsBounded ss → bound_selectors ss ≡ ok ss
unfolding bound_selectors
bound_selectors_complete ss h = ground (arith, check_value_bytes_complete 0 ss)

build_selectors_sound :
    (target : Instance) (id : Bytes) (keys : List Bytes) {selectors : List Bytes}
    → build_selectors target id keys ≡ ok selectors
    → IsSelectorsOf target id keys selectors
unfolding build_selectors
build_selectors_sound target id keys {selectors} h =
    let (chosen, from, rest) =
      >>=-eq-ok (user_selectors target.expanded_config keys) _ {b = selectors} h in
    let raw : List Bytes = raw_selectors target id chosen in
    let (shape, bounds) = bound_selectors_sound (compact (sort raw)) {selectors = selectors} rest in
    record {
      chosen = chosen;
      from_keys = from;
      strict = subst IsStrict (sym shape) (compact-sort-IsStrict raw);
      content = λ x. ap (λ (l : List Bytes). contains l x) shape ∙ contains-compact-sort raw x;
      count = rw shape bounds.0;
      size = rw shape bounds.1;
    }

-- Any list with the properties of IsSelectorsOf is the one that is returned.
build_selectors_complete :
    (target : Instance) (id : Bytes) (keys selectors : List Bytes)
    → IsSelectorsOf target id keys selectors
    → build_selectors target id keys ≡ ok selectors
unfolding build_selectors
build_selectors_complete target id keys selectors s =
    let raw : List Bytes = raw_selectors target id s.chosen in
    let shape : compact (sort raw) ≡ selectors =
      strict_unique _ _ (compact-sort-IsStrict raw) s.strict
        (λ x. contains-compact-sort raw x ∙ sym (s.content x)) in
    rw (s.from_keys, shape) (bound_selectors_complete selectors (s.count, s.size))

-- BuildAttributes returns attributes exactly if the snapshot is valid with UUID `id`; they are then
-- the agent ID under `id`, and the one strictly ascending list that holds the fixed selectors, those
-- of the profiles and those of the listed keys, which has to keep within both bounds.
pub build_attributes_iff :
    (parse_uuid : Bytes → Option Bytes) (trust_domain : Bytes) (target : Instance)
    (keys : List Bytes) (attrs : Attributes)
    → (build_attributes parse_uuid trust_domain target keys ≡ ok attrs) ↔ (
        (id : Bytes) × IsValidInstance parse_uuid target id
        × (attrs.agent_id
            ≡ codes "spiffe://" ++ (trust_domain ++ (codes "/spire/agent/incus/" ++ id)))
        × (attrs.can_reattest ≡ true)
        × IsSelectorsOf target id keys attrs.selectors)
unfolding build_attributes
build_attributes_iff parse_uuid trust_domain target keys attrs = (
  λ h.
      let (id, valid, rest) = >>=-eq-ok (validate_instance parse_uuid target) _ {b = attrs} h in
      let (selectors, built, e) = >>=-eq-ok (build_selectors target id keys) _ {b = attrs} rest in
      (
        id,
        validate_instance_sound parse_uuid target id valid,
        ground arith,
        ground arith,
        subst (IsSelectorsOf target id keys) (ground arith)
            (build_selectors_sound target id keys built),
      ),
  λ (id, valid, agent, can, sel).
      rw
        (
          validate_instance_complete parse_uuid target id valid,
          build_selectors_complete target id keys attrs.selectors sel,
        )
        (ground arith),
)

SameSet-append : (a b c d : List Bytes) → SameSet a b → SameSet c d → SameSet (a ++ c) (b ++ d)
SameSet-append a b c d e f x =
    ground (arith, contains-append a c x, contains-append b d x, e x, f x)

-- For two snapshots with the same fixed selectors, neither the order nor the repetition of profiles
-- and user keys, nor the order of the configuration map, changes the result of buildSelectors, its
-- refusals included.
pub build_selectors_order :
    (target other : Instance) (id : Bytes) (keys keys' : List Bytes)
    → fixed_selectors target id ≡ fixed_selectors other id
    → SameSet target.profiles other.profiles
    → SameMap target.expanded_config other.expanded_config
    → SameSet keys keys'
    → build_selectors target id keys ≡ build_selectors other id keys'
unfolding build_selectors
build_selectors_order target other id keys keys' fixed profiles config listed =
    let same_reserved = reserved-SameSet keys keys' listed in
    elim (user_selectors_total target.expanded_config keys) [
      | inl (bad, e) ↦ elim (user_selectors_total other.expanded_config keys') [
        | inl (bad', e') ↦ rw (e, e')
        | inr (fine', rest) ↦ cc
      ]
      | inr (fine, (chosen, e)) ↦ elim (user_selectors_total other.expanded_config keys') [
        | inl (bad', e') ↦ cc
        | inr (fine', (chosen', e')) ↦
            rw (e, e')
              (ap bound_selectors (
                compact-sort_unique _ _ (
                  SameSet-append _ _ _ _ (λ x. ap (λ (l : List Bytes). contains l x) fixed)
                    (SameSet-append _ _ _ _ (profile_selectors-SameSet _ _ profiles)
                      (user_selectors-SameSet _ _ keys keys' chosen chosen' config listed e e')))))
      ]
    ]
