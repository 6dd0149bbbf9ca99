-- ===== src/Attest/Claims/Matching.antt =====
-- When claims.go accepts, as predicates, and that every refusal is a denial.
use incus_spire_attestor.Prelude.{
  ◌≡◌, ◌≢◌, [], Bytes, Option, some, arith, same_iff, ◌⊎◌, String, same_self, ◌↔◌, true,
}
use incus_spire_attestor.Errors.{ok, is, >>=-eq-ok}
use incus_spire_attestor.Attest.Types.{Claims, Instance, virtual_machine}
use incus_spire_attestor.Attest.Claims.{
  canonical_uuid, validate_claims_uuid, require_virtual_machine, validate_instance, match_claims,
  Error, err, denied, validate_claims,
}

module _ (parse_uuid : Bytes → Option Bytes) where
  -- Required fields are present, the type is virtual-machine, and the UUID is canonically `id`.
  pub record IsValidClaims (claims : Claims) (id : Bytes) : Type 0 where
    pub name : claims.name ≢ []
    pub location : claims.location ≢ []
    pub cloud_init_id : claims.cloud_init_id ≢ []
    pub vm : claims.type ≡ virtual_machine
    pub uuid : parse_uuid claims.uuid ≡ some id

  validate_claims_uuid_sound :
      (c : Claims) (id : Bytes) → validate_claims_uuid parse_uuid c ≡ ok id → IsValidClaims c id
  unfolding validate_claims_uuid canonical_uuid
  validate_claims_uuid_sound c id h = record {
    name = ground arith;
    location = ground arith;
    cloud_init_id = ground arith;
    vm = ground (arith, same_iff c.type virtual_machine);
    uuid = ground arith;
  }

  require_virtual_machine_self :
      (source : String) → require_virtual_machine virtual_machine source ≡ ok tt
  unfolding require_virtual_machine
  require_virtual_machine_self source = ground (arith, same_self virtual_machine)

  validate_claims_uuid_complete :
      (c : Claims) (id : Bytes) → IsValidClaims c id → validate_claims_uuid parse_uuid c ≡ ok id
  unfolding validate_claims_uuid canonical_uuid
  validate_claims_uuid_complete c id v =
      rw (v.vm, require_virtual_machine_self)
        (ground (arith, v.name, v.location, v.cloud_init_id, v.uuid))

  -- What the API snapshot must have; its canonical UUID is `id`.
  pub record IsValidInstance (target : Instance) (id : Bytes) : Type 0 where
    pub project : target.project ≢ []
    pub name : target.name ≢ []
    pub location : target.location ≢ []
    pub cloud_init_id : target.cloud_init_id ≢ []
    pub vm : target.type ≡ virtual_machine
    pub uuid : parse_uuid target.uuid ≡ some id

  pub validate_instance_sound :
      (i : Instance) (id : Bytes) → validate_instance parse_uuid i ≡ ok id → IsValidInstance i id
  unfolding validate_instance canonical_uuid
  validate_instance_sound i id h = record {
    project = ground arith;
    name = ground arith;
    location = ground arith;
    cloud_init_id = ground arith;
    vm = ground (arith, same_iff i.type virtual_machine);
    uuid = ground arith;
  }

  pub validate_instance_complete :
      (i : Instance) (id : Bytes) → IsValidInstance i id → validate_instance parse_uuid i ≡ ok id
  unfolding validate_instance canonical_uuid
  validate_instance_complete i id v =
      rw (v.vm, require_virtual_machine_self)
        (ground (arith, v.project, v.name, v.location, v.cloud_init_id, v.uuid))

  -- The claims name the virtual machine that the API snapshot describes.
  pub record IsMatch (c : Claims) (i : Instance) : Type 0 where
    pub id : Bytes
    pub claims_valid : IsValidClaims c id
    pub instance_valid : IsValidInstance i id
    pub project : (c.project ≡ []) ⊎ (c.project ≡ i.project)
    pub name : c.name ≡ i.name
    pub location : c.location ≡ i.location
    pub cloud_init_id : c.cloud_init_id ≡ i.cloud_init_id

  match_claims_sound :
      (c : Claims) (i : Instance) → match_claims parse_uuid c i ≡ ok tt → IsMatch c i
  unfolding match_claims
  match_claims_sound c i h =
      let (id, valid, rest) = >>=-eq-ok (validate_claims_uuid parse_uuid c) _ h in
      let (id', valid', rest') = >>=-eq-ok (validate_instance parse_uuid i) _ rest in
      let same_id : id ≡ id' = ground (arith, same_iff id id') in
      record {
        id = id;
        claims_valid = validate_claims_uuid_sound c id valid;
        instance_valid = validate_instance_sound i id (rw same_id valid');
        project = ground (arith, same_iff c.project i.project);
        name = ground (arith, same_iff c.name i.name);
        location = ground (arith, same_iff c.location i.location);
        cloud_init_id = ground (arith, same_iff c.cloud_init_id i.cloud_init_id);
      }

  match_claims_complete :
      (c : Claims) (i : Instance) → IsMatch c i → match_claims parse_uuid c i ≡ ok tt
  unfolding match_claims
  match_claims_complete c i m = ground (
    arith,
    validate_claims_uuid_complete c m.id m.claims_valid,
    validate_instance_complete i m.id m.instance_valid,
    m.claims_valid.vm,
    m.instance_valid.vm,
    same_iff c.type i.type,
    same_iff c.project i.project,
    same_iff c.name i.name,
    same_iff c.location i.location,
    same_iff c.cloud_init_id i.cloud_init_id,
    same_self m.id,
  )

  -- MatchClaims accepts exactly when both sides are valid virtual machines with one canonical UUID,
  -- with equal name, location and cloud-init ID, and the project hint is empty or the right one.
  pub match_claims_iff :
      (c : Claims) (i : Instance) → (match_claims parse_uuid c i ≡ ok tt) ↔ IsMatch c i
  match_claims_iff c i = (match_claims_sound c i, match_claims_complete c i)

  canonical_uuid_denied :
      (raw : Bytes) (e : Error) → canonical_uuid parse_uuid raw ≡ err e → is denied e ≡ true
  unfolding canonical_uuid is
  canonical_uuid_denied raw e h = ground arith

  require_virtual_machine_denied :
      (t : Bytes) (source : String) (e : Error)
      → require_virtual_machine t source ≡ err e
      → is denied e ≡ true
  unfolding require_virtual_machine is
  require_virtual_machine_denied t source e h = ground arith

  validate_claims_uuid_denied :
      (c : Claims) (e : Error) → validate_claims_uuid parse_uuid c ≡ err e → is denied e ≡ true
  unfolding validate_claims_uuid is
  validate_claims_uuid_denied c e h =
      ground
        (arith, require_virtual_machine_denied c.type "guest" e, canonical_uuid_denied c.uuid e)

  validate_instance_denied :
      (i : Instance) (e : Error) → validate_instance parse_uuid i ≡ err e → is denied e ≡ true
  unfolding validate_instance is
  validate_instance_denied i e h =
      ground (arith, require_virtual_machine_denied i.type "api" e, canonical_uuid_denied i.uuid e)

  -- Whatever is wrong with the claims or the snapshot, the refusal of MatchClaims is a denial.
  pub match_claims_denied :
      (c : Claims) (i : Instance) (e : Error)
      → match_claims parse_uuid c i ≡ err e
      → is denied e ≡ true
  unfolding match_claims is
  match_claims_denied c i e h =
      ground (arith, validate_claims_uuid_denied c e, validate_instance_denied i e)

  pub validate_claims_denied :
      (c : Claims) (e : Error) → validate_claims parse_uuid c ≡ err e → is denied e ≡ true
  unfolding validate_claims
  validate_claims_denied c e h = ground (arith, validate_claims_uuid_denied c e)
