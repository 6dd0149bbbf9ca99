-- ===== src/Attest/Claims.antt =====
-- claims.go: validation of guest claims and API snapshots, and the match between them. `parse_uuid`
-- stands for github.com/google/uuid: `Parse` followed by `String`, with `none` for an error.
pub mod Matching
use incus_spire_attestor.Prelude.{
  ◌≡◌, ◌&&◌, not, Bool, true, if◌then◌else◌, Bytes, same, is_empty, Option, none, some, String,
  length, All, ◌<◌,
}
use incus_spire_attestor.Errors.{
  Result, ok, err, text, deny, ◌>>=◌, ◌>>◌, require, wrap, sentinel, denied, Error,
}
use incus_spire_attestor.Attest.Types.{Claims, Instance, virtual_machine}

-- requireVirtualMachine; `source` is "guest" or "api".
unfoldable pub require_virtual_machine : Bytes → String → Result (Unit {0})
require_virtual_machine instance_type source =
    if is_empty instance_type
    then err (wrap source (wrap "instance type is required" (sentinel denied)))
    else if not (same instance_type virtual_machine)
    then err (wrap source (wrap "instance type is not virtual-machine" (sentinel denied)))
    else ok tt

abbrev pub denied_because : String → Error
denied_because message = wrap message (sentinel denied)

-- What github.com/google/uuid documents of `Parse` followed by `String`: the canonical text is 36
-- ASCII bytes, and it parses to itself.
pub record UuidLaws (parse_uuid : Bytes → Option Bytes) : Type 0 where
  pub canonical : (raw id : Bytes) → parse_uuid raw ≡ some id → parse_uuid id ≡ some id
  pub size : (raw id : Bytes) → parse_uuid raw ≡ some id → length id ≡ 36
  pub ascii : (raw id : Bytes) → parse_uuid raw ≡ some id → All (λ c. c < 0x80) id

module _ (parse_uuid : Bytes → Option Bytes) where
  -- NewInstanceUUID.
  unfoldable pub new_instance_uuid : Bytes → Result Bytes
  new_instance_uuid raw = elim (parse_uuid raw) [
    | none ↦ err (text "invalid instance uuid")
    | some id ↦ ok id
  ]

  -- The error of NewInstanceUUID is replaced by a denial.
  unfoldable pub canonical_uuid : Bytes → Result Bytes
  unfolding new_instance_uuid
  canonical_uuid raw = elim (new_instance_uuid raw) [
    | ok id ↦ ok id
    | err _ ↦ deny "invalid instance uuid"
  ]

  -- validateClaims.
  unfoldable pub validate_claims_uuid : Claims → Result Bytes
  unfolding require_virtual_machine
  validate_claims_uuid claims = do
    require (not (is_empty claims.name)) (denied_because "instance name is required")
    require (not (is_empty claims.location)) (denied_because "location is required")
    require (not (is_empty claims.cloud_init_id)) (denied_because "cloud-init id is required")
    require_virtual_machine claims.type "guest"
    canonical_uuid claims.uuid

  -- ValidateClaims.
  unfoldable pub validate_claims : Claims → Result (Unit {0})
  validate_claims claims = do validate_claims_uuid claims; ok tt

  -- validateInstance.
  unfoldable pub validate_instance : Instance → Result Bytes
  unfolding require_virtual_machine
  validate_instance target = do
    require (not (is_empty target.project)) (denied_because "project is required")
    require (not (is_empty target.name)) (denied_because "instance name is required")
    require (not (is_empty target.location)) (denied_because "location is required")
    require (not (is_empty target.cloud_init_id)) (denied_because "cloud-init id is required")
    require_virtual_machine target.type "api"
    canonical_uuid target.uuid

  -- MatchClaims.
  unfoldable pub match_claims : Claims → Instance → Result (Unit {0})
  match_claims claims target = do
    claim_uuid ← validate_claims_uuid claims
    instance_uuid ← validate_instance target
    require (not (not (is_empty claims.project) && not (same claims.project target.project)))
        (denied_because "project mismatch")
    require (same claims.name target.name) (denied_because "instance name mismatch")
    require (same claims.type target.type) (denied_because "instance type mismatch")
    require (same claims.location target.location) (denied_because "location mismatch")
    require (same claims.cloud_init_id target.cloud_init_id)
        (denied_because "cloud-init id mismatch")
    require (same claim_uuid instance_uuid) (denied_because "instance uuid mismatch")
