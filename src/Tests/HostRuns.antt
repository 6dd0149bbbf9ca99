-- ===== src/Tests/HostRuns.antt =====
-- A snapshot of an API instance, and the theorems of the host package on it.
use incus_spire_attestor.Prelude.{◌≡◌, refl, codes, some, same}
use incus_spire_attestor.Errors.{ok}
use incus_spire_attestor.Golang.Maps
use incus_spire_attestor.Host.Snapshot.{
  map_instance, match_resolved_target, is_uuid_of, config_value, resolved_location,
}
use incus_spire_attestor.Host.Identity.{
  IsSnapshot, IsTarget, map_instance_ok, match_resolved_target_iff,
  match_resolved_target-map_instance,
}
use incus_spire_attestor.Tests.IncusStore.{api0, target0}
use incus_spire_attestor.Tests.Samples.{parse_uuid0}
use incus_spire_attestor.Attest.Claims.{canonical_uuid, new_instance_uuid}

mapped : map_instance parse_uuid0 (codes "p") (codes "web") (some api0) (codes "host1") ≡ ok target0
unfolding map_instance match_resolved_target is_uuid_of config_value resolved_location
    canonical_uuid new_instance_uuid Maps.lookup same
mapped = refl

mapped_example : IsSnapshot parse_uuid0 (codes "p") (codes "web") (codes "host1") api0 target0
mapped_example =
    map_instance_ok parse_uuid0 (codes "p") (codes "web") (codes "host1") api0 target0 mapped

same_target : match_resolved_target parse_uuid0 target0 (some api0) ≡ ok tt
unfolding map_instance match_resolved_target is_uuid_of config_value resolved_location
    canonical_uuid new_instance_uuid Maps.lookup same
same_target = refl

target_example : IsTarget parse_uuid0 target0 api0
target_example = (match_resolved_target_iff parse_uuid0 target0 api0).0 same_target

unchanged_example : match_resolved_target parse_uuid0 target0 (some api0) ≡ ok tt
unchanged_example =
    match_resolved_target-map_instance parse_uuid0 (codes "p") (codes "web") (codes "host1") api0
      target0 mapped refl
