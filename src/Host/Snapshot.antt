-- ===== src/Host/Snapshot.antt =====
-- map.go, and the identity test of mutation.go. An instance of the Incus API has the fields that are read.
use incus_spire_attestor.Prelude.{
  Bool, false, not, ◌&&◌, Option, none, some, List, [], Bytes, codes, if◌then◌else◌, same, is_empty,
}
use incus_spire_attestor.Errors.{Result, ok, err, sentinel, replaced_target, require, ◌>>=◌, ◌>>◌}
use incus_spire_attestor.Golang.Maps.{Map}
use incus_spire_attestor.Golang.Maps
use incus_spire_attestor.Attest.Types.{Instance, virtual_machine}
use incus_spire_attestor.Attest.Claims.{denied_because, canonical_uuid, new_instance_uuid}

-- api.Instance.
pub record ApiInstance : Type 0 where
  pub name : Bytes
  pub project : Bytes
  pub type : Bytes
  pub location : Bytes
  pub profiles : List Bytes
  pub expanded_config : Map

-- volatileUUIDKey, volatileCloudInitIDKey and standaloneLocationSentinel.
abbrev pub volatile_uuid_key : Bytes
volatile_uuid_key = codes "volatile.uuid"

abbrev pub volatile_cloud_init_id_key : Bytes
volatile_cloud_init_id_key = codes "volatile.cloud-init.instance-id"

abbrev pub standalone_location_sentinel : Bytes
standalone_location_sentinel = codes "none"

-- configValue; a missing key reads as the empty string.
unfoldable pub config_value : Map → Bytes → Bytes
config_value cfg key = elim (Maps.lookup key cfg) [ none ↦ [] | some value ↦ value ]

-- The replacement of the location that Incus returns for a standalone server.
unfoldable pub resolved_location : Bytes → Bytes → Bytes
resolved_location standalone location =
    if same location standalone_location_sentinel then standalone else location

module _ (parse_uuid : Bytes → Option Bytes) where
  -- mapInstance. The copies of lists and maps are the values themselves.
  unfoldable pub map_instance : Bytes → Bytes → Option ApiInstance → Bytes → Result Instance
  map_instance project name none standalone = err (denied_because "instance is required")
  map_instance project name (some inst) standalone = do
    require (not (is_empty inst.name)) (denied_because "instance name is required")
    require (same inst.name name) (denied_because "instance name mismatch")
    require (not (not (is_empty inst.project) && not (same inst.project project)))
        (denied_because "project mismatch")
    uuid ← canonical_uuid parse_uuid (config_value inst.expanded_config volatile_uuid_key)
    require (not (is_empty (resolved_location standalone inst.location)))
        (denied_because "instance location is required")
    ok (record {
      project = project;
      name = name;
      uuid = uuid;
      type = inst.type;
      location = resolved_location standalone inst.location;
      cloud_init_id = config_value inst.expanded_config volatile_cloud_init_id_key;
      profiles = inst.profiles;
      expanded_config = inst.expanded_config;
    })

  -- Whether the UUID is that of the target.
  unfoldable pub is_uuid_of : Bytes → Result Bytes → Bool
  is_uuid_of want (ok got) = same got want
  is_uuid_of want (err e) = false

  -- matchResolvedTarget.
  unfoldable pub match_resolved_target : Instance → Option ApiInstance → Result (Unit {0})
  match_resolved_target target none = err (sentinel replaced_target)
  match_resolved_target target (some current) =
      if not (is_empty current.project) && not (same current.project target.project)
      then err (sentinel replaced_target)
      else if not (same current.name target.name)
      then err (sentinel replaced_target)
      else if not (same current.type virtual_machine)
      then err (sentinel replaced_target)
      else if not (
          is_uuid_of target.uuid
            (new_instance_uuid parse_uuid (config_value current.expanded_config volatile_uuid_key)))
      then err (sentinel replaced_target)
      else ok tt
