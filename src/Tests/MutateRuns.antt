-- ===== src/Tests/MutateRuns.antt =====
-- SetNonce, UnsetNonce and Lookup against the Incus server of the tests, where another client writes first.
use incus_spire_attestor.Prelude.{
  ◌≡◌, refl, ◌≢◌, true, none, some, [], ◌∷◌, arith, Bytes, codes, same,
}
use incus_spire_attestor.Errors.{ok, as_status, as_temporary, as_timeout, first, has_net_op, is}
use incus_spire_attestor.Host.Snapshot.{
  match_resolved_target, config_value, is_uuid_of, map_instance, resolved_location,
}
use incus_spire_attestor.Attest.Claims.{new_instance_uuid, canonical_uuid}
use incus_spire_attestor.Golang.Maps
use incus_spire_attestor.Golang.Context.{Context, rpc, with_timeout}
use incus_spire_attestor.Host.Retry.{
  is_conflict, is_context_error, is_retryable, next_retry_delay, status_check,
}
use incus_spire_attestor.Host.Ports.{
  InstancePut, Run, scoped, get_instance, ask, await_operation, update_instance, wait,
}
use incus_spire_attestor.Host.Mutate.{
  mutate, set_nonce, unset_nonce, mutate_from, conclude, mutate_once, revalidate, edit, change,
  finish, mutation_message, set_error, unset_error, submit,
}
use incus_spire_attestor.Host.Mutate.Applied.{
  Change, IsEdit, IsUnset, set_nonce_applied, unset_nonce_applied,
}
use incus_spire_attestor.Host.Mutate.Deadline.{Clock, mutate_fuel, mutate_terminates}
use incus_spire_attestor.Host.Client.{Client, lookup, IsLookup, lookup_iff, found_instance}
use incus_spire_attestor.Tests.Samples.{parse_uuid0}
use incus_spire_attestor.Tests.IncusStore.{
  target0, World, ports0, store0, deadline0, tag_map, tag_bytes,
}
use incus_spire_attestor.Exec.{wrapped, lift, attempt, ◌>>=◌, fail, pure}

abbrev key0 : Bytes
key0 = codes "user.spire.attestor.nonce.0a"

abbrev nonce0 : Bytes
nonce0 = codes "AAEC"

abbrev ctx0 : Context
ctx0 = with_timeout rpc 1000000000

abbrev put0 : InstancePut
put0 = record {
  config = (codes "user.role", codes "db") ∷ (key0, codes "old") ∷ [];
  others = codes "rest";
}

abbrev start : Run World
start = record { world = record { now = 0; put = put0; log = []; rival = true }; trace = [] }

was_set :
    (set_nonce ports0 parse_uuid0 (mutate_fuel 1000000000) ctx0 target0 key0 nonce0 start).0
    ≡ ok (some tt)
unfolding set_nonce unset_nonce wrapped mutate mutate_from mutate_fuel ◌>>=◌ attempt conclude
    mutate_once scoped lift revalidate get_instance ask edit match_resolved_target same
    new_instance_uuid as_status as_temporary as_timeout first has_net_op is fail pure Maps.delete
    Maps.insert Maps.lookup change finish mutation_message set_error unset_error submit
    await_operation update_instance wait is_conflict is_context_error is_retryable next_retry_delay
    status_check config_value is_uuid_of tag_map tag_bytes
was_set = refl

was_removed :
    (unset_nonce ports0 parse_uuid0 (mutate_fuel 1000000000) ctx0 target0 key0 start).0
    ≡ ok (some tt)
unfolding set_nonce unset_nonce wrapped mutate mutate_from mutate_fuel ◌>>=◌ attempt conclude
    mutate_once scoped lift revalidate get_instance ask edit match_resolved_target same
    new_instance_uuid as_status as_temporary as_timeout first has_net_op is fail pure Maps.delete
    Maps.insert Maps.lookup change finish mutation_message set_error unset_error submit
    await_operation update_instance wait is_conflict is_context_error is_retryable next_retry_delay
    status_check config_value is_uuid_of tag_map tag_bytes
was_removed = refl

set_example :
    (c : Change) × IsEdit store0 parse_uuid0 ctx0 target0 key0
      (some nonce0)
      start
      (set_nonce ports0 parse_uuid0 (mutate_fuel 1000000000) ctx0 target0 key0 nonce0 start).1
      c
set_example =
    set_nonce_applied ports0 store0 parse_uuid0 (mutate_fuel 1000000000) ctx0 target0 key0 nonce0
      start was_set

unset_example :
    IsUnset ports0 store0 parse_uuid0
      (mutate_fuel 1000000000)
      ctx0
      target0
      key0
      start
      (unset_nonce ports0 parse_uuid0 (mutate_fuel 1000000000) ctx0 target0 key0 start).1
unset_example =
    unset_nonce_applied ports0 store0 parse_uuid0 (mutate_fuel 1000000000) ctx0 target0 key0 start
      was_removed

clock0 : Clock ports0 ctx0 (λ w. w.now) deadline0
clock0 = record {
  read_onward = λ project name w. omega arith;
  update_onward = λ project name etag put w. ground arith;
  await_onward = λ op w. omega arith;
  wait_onward = λ delay w h. ground (arith, h);
}

mutate_example :
    (mutate ports0 parse_uuid0 ctx0 target0 key0 (some nonce0) (mutate_fuel 1000000000) start).0
    ≢ ok none
mutate_example =
    mutate_terminates ports0 parse_uuid0 ctx0 target0 key0 (some nonce0) (λ w. w.now) deadline0
      clock0 1000000000 start (omega arith)

abbrev client0 : Client
client0 = record { standalone_location = codes "host1" }

was_found :
    (lookup ports0 parse_uuid0 client0 rpc (codes "p") (codes "web") start).0 ≡ ok (some target0)
unfolding lookup found_instance scoped lift wrapped ◌>>=◌ attempt pure fail get_instance ask
    map_instance same config_value resolved_location canonical_uuid new_instance_uuid Maps.lookup
    tag_map tag_bytes
was_found = refl

lookup_example :
    IsLookup ports0 parse_uuid0 client0 rpc (codes "p") (codes "web") start.world (some target0)
lookup_example =
    (lookup_iff ports0 parse_uuid0 client0 rpc (codes "p") (codes "web") start (some target0)).0
      was_found
