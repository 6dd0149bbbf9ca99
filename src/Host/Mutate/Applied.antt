-- ===== src/Host/Mutate/Applied.antt =====
-- What a successful SetNonce or UnsetNonce has done to the instance, given what Incus promises of ETags.
use incus_spire_attestor.Prelude.{
  if◌then◌else◌, same, arith, ℕ, ◌≡◌, refl, ap, ◌∙◌, subst, true, Option, none, some, List, [], ◌∷◌,
  ◌++◌, arith, Bytes,
}
use incus_spire_attestor.Errors.{ok, err, Error, sentinel, replaced_target}
use incus_spire_attestor.Exec.{wrapped, wrapped_ok}
use incus_spire_attestor.Golang.Context.{Context}
use incus_spire_attestor.Golang.Maps.{Map}
use incus_spire_attestor.Golang.Maps
use incus_spire_attestor.Golang.Maps.{lookup-delete, lookup-insert}
use incus_spire_attestor.Attest.Types.{Instance}
use incus_spire_attestor.Host.Snapshot.{ApiInstance, match_resolved_target}
use incus_spire_attestor.Host.Identity.{IsTarget, match_resolved_target_iff}
use incus_spire_attestor.Host.Retry.{status_check}
use incus_spire_attestor.Host.Ports.{
  Event, fetched, updated, awaited, InstancePut, Fetched, Ports, Run,
}
use incus_spire_attestor.Host.Mutate.{
  set_error, unset_error, change, edit, mutate, set_nonce, unset_nonce,
}
use incus_spire_attestor.Host.Mutate.LastAttempt.{mutate_ok}
use incus_spire_attestor.Host.Mutate.Outcome.{
  IsFetch, IsUpdated, Success, absent, gone, unchanged, changed,
}

-- One applied update of an instance, by this client or by any other.
pub record Change : Type 0 where
  pub project : Bytes
  pub name : Bytes
  pub before : InstancePut
  pub after : InstancePut

-- The change is in the log.
pub record IsApplied (c : Change) (log : List Change) : Type 0 where
  pub earlier : List Change
  pub later : List Change
  pub in_log : log ≡ earlier ++ c ∷ later

-- What Incus promises, for the log of all applied updates: a fetch returns the ETag of what it returns; equal ETags
-- belong to equal configurations; and an update whose operation completes was applied to an instance that
-- had the ETag of the request.
pub record Store {W : Type 0} (ports : Ports W) : Type 0 where
  pub log : W → List Change
  pub etag_of : InstancePut → Bytes
  pub etag_config : (a b : InstancePut) → etag_of a ≡ etag_of b → a.config ≡ b.config
  pub etag_fetched :
      (ctx : Context) (project name etag : Bytes) (f : Fetched) (w : W)
      → (ports.get_instance ctx project name w).0 ≡ ok (some f, etag)
      → etag ≡ etag_of f.writable
  pub applied :
      (ctx : Context) (project name etag : Bytes) (put : InstancePut) (op : ℕ) (w : W)
      → (ports.update_instance ctx project name put etag w).0 ≡ ok (some op)
      → (ports.await_operation ctx op (ports.update_instance ctx project name put etag w).1).0
        ≡ ok tt
      → (before : InstancePut) × (etag_of before ≡ etag)
        × IsApplied
            (record { project = project; name = name; before = before; after = put })
            (log
              (ports.await_operation ctx op
                (ports.update_instance ctx project name put etag w).1).1)

-- How the run `after`, that began in `s`, changed its target by the change `c` in the log. Its last three calls were a
-- fetch of the instance `f` with its tag; the update of that instance under the tag; and the wait for the operation.
-- The fetched instance is the target. The change was applied to a configuration equal to the fetched one; it gives the key
-- its new value, or none, and all other keys the values that they had. The other writable fields are sent back as fetched.
pub record IsEdit {W : Type 0} {ports : Ports W} (store : Store ports)
    (parse_uuid : Bytes → Option Bytes) (ctx : Context) (target : Instance) (key : Bytes)
    (nonce : Option Bytes) (s after : Run W) (c : Change) : Type 0 where
  pub f : Fetched
  pub etag : Bytes
  pub op : ℕ
  pub earlier : List Event
  pub calls :
      after.trace
      ≡ s.trace
        ++ (earlier
            ++ fetched ctx target.project target.name (ok (some f, etag))
              ∷ updated ctx target.project target.name c.after etag (ok (some op))
              ∷ awaited ctx op (ok tt)
              ∷ [])
  pub is_target : IsTarget parse_uuid target f.instance
  pub same_project : c.project ≡ target.project
  pub same_name : c.name ≡ target.name
  pub same_config : c.before.config ≡ f.writable.config
  pub edited :
      (j : Bytes)
      → Maps.lookup j c.after.config ≡ (if same key j then nonce else Maps.lookup j c.before.config)
  pub kept : c.after.others ≡ f.writable.others
  pub in_log : IsApplied c (store.log after.world)

-- An edit gives the key its new value, or none, and every other key the value that it had.
lookup-change :
    (nonce : Option Bytes) (key : Bytes) (config edited : Map)
    → change nonce key config ≡ some edited
    → (j : Bytes) → Maps.lookup j edited ≡ (if same key j then nonce else Maps.lookup j config)
unfolding change
lookup-change none key config edited h j =
    let e : Maps.delete key config ≡ edited = ground (arith, h) in
    subst (λ m. Maps.lookup j m ≡ (if same key j then none else Maps.lookup j config)) e
      (lookup-delete key j config)
lookup-change (some nonce) key config edited h j =
    let e : Maps.insert key nonce config ≡ edited = ground (arith, h) in
    subst (λ m. Maps.lookup j m ≡ (if same key j then some nonce else Maps.lookup j config)) e
      (lookup-insert key j nonce config)

module _ {W : Type 0} (ports : Ports W) (store : Store ports) (parse_uuid : Bytes → Option Bytes)
    (fuel : ℕ) (ctx : Context) (target : Instance) (key : Bytes) where
  changed-IsEdit :
      (nonce : Option Bytes) (s after : Run W) (f : Fetched) (etag : Bytes) (config : Map) (op : ℕ)
      → IsUpdated ports parse_uuid ctx target key nonce s after f etag config op
      → (c : Change) × IsEdit store parse_uuid ctx target key nonce s after c
  changed-IsEdit nonce s after f etag config op u =
      let put = record f.writable { config = config } in
      let (before, tag, in_log) =
        store.applied ctx target.project target.name etag put op u.between u.accepted
          (ap (λ p. p.0) u.completed) in
      let same_config = store.etag_config before f.writable (
        tag
        ∙ store.etag_fetched ctx target.project target.name etag f u.before
            (ap (λ p. p.0) u.read)) in
      let c : Change = record {
        project = target.project;
        name = target.name;
        before = before;
        after = put;
      } in
      (
        c,
        record {
          f = f;
          etag = etag;
          op = op;
          earlier = u.earlier;
          calls = u.calls;
          is_target = (match_resolved_target_iff parse_uuid target f.instance).0 u.same_target;
          same_project = refl;
          same_name = refl;
          same_config = same_config;
          edited =
              lookup-change nonce key before.config config
                (ap (change nonce key) same_config ∙ u.edited);
          kept = refl;
          in_log = subst (λ v. IsApplied c (store.log v)) (ap (λ p. p.1) u.completed) in_log;
        },
      )

  set-IsEdit :
      (nonce : Bytes) (s after : Run W)
      → Success ports parse_uuid ctx target key (some nonce) s after
      → (c : Change) × IsEdit store parse_uuid ctx target key (some nonce) s after c
  unfolding change
  set-IsEdit nonce s after (absent e u _ _) = cc
  set-IsEdit nonce s after (gone current etag u _ _) = cc
  set-IsEdit nonce s after (unchanged f etag _ _ c) = cc
  set-IsEdit nonce s after (changed f etag config op u) =
      changed-IsEdit (some nonce) s after f etag config op u

  -- If Incus keeps its promises about ETags, then a successful SetNonce ended with the fetch of the target instance, its
  -- update under the fetched ETag, and the wait for the operation; and the log of applied updates has that update, which
  -- put the nonce under the key, left every other key of the configuration that it was applied to, and sent the other
  -- writable fields as they were fetched.
  pub set_nonce_applied :
      (nonce : Bytes) (s : Run W)
      → (set_nonce ports parse_uuid fuel ctx target key nonce s).0 ≡ ok (some tt)
      → (c : Change) × IsEdit store parse_uuid ctx target key
          (some nonce)
          s
          (set_nonce ports parse_uuid fuel ctx target key nonce s).1
          c
  unfolding set_nonce wrapped
  set_nonce_applied nonce s h =
      let (fine, same_state) =
        wrapped_ok set_error (mutate ports parse_uuid ctx target key (some nonce) fuel) s (some tt)
          h in
      set-IsEdit nonce s _ (mutate_ok ports parse_uuid ctx target key (some nonce) fuel s fine)

  -- What the last call of the run found, a fetch that leaves the final state: no instance; another instance than the
  -- target; the target without the key. Or else the removal of the key.
  pub data IsUnset (s after : Run W) : Type 0 where
    missing :
        (e : Error)
        → IsFetch ports parse_uuid ctx target key none s after (err e)
        → status_check (404 ∷ []) e ≡ true
        → IsUnset s after
    unanswered :
        (etag : Bytes)
        → IsFetch ports parse_uuid ctx target key none s after (ok (none, etag))
        → IsUnset s after
    replaced :
        (f : Fetched) (etag : Bytes)
        → IsFetch ports parse_uuid ctx target key none s after (ok (some f, etag))
        → ¬ (IsTarget parse_uuid target f.instance)
        → IsUnset s after
    without_key :
        (f : Fetched) (etag : Bytes)
        → IsFetch ports parse_uuid ctx target key none s after (ok (some f, etag))
        → IsTarget parse_uuid target f.instance
        → Maps.lookup key f.writable.config ≡ none
        → IsUnset s after
    cleared : (c : Change) → IsEdit store parse_uuid ctx target key none s after c → IsUnset s after

  change_none : (config : Map) → change none key config ≡ none → Maps.lookup key config ≡ none
  unfolding change
  change_none config h = ground (arith, h)

  not_target :
      (inst : ApiInstance)
      → match_resolved_target parse_uuid target (some inst) ≡ err (sentinel replaced_target)
      → ¬ (IsTarget parse_uuid target inst)
  not_target inst m t = let fine = (match_resolved_target_iff parse_uuid target inst).1 t in cc

  ended-IsUnset :
      (s after : Run W) → Success ports parse_uuid ctx target key none s after → IsUnset s after
  ended-IsUnset s after (absent e _ r status) = missing e r status
  ended-IsUnset s after (gone none etag _ r m) = unanswered etag r
  ended-IsUnset s after (gone (some f) etag _ r m) = replaced f etag r (not_target f.instance m)
  ended-IsUnset s after (unchanged f etag r m c) =
      without_key f etag r ((match_resolved_target_iff parse_uuid target f.instance).0 m)
        (change_none f.writable.config c)
  ended-IsUnset s after (changed f etag config op u) =
      let (c, edit) = changed-IsEdit none s after f etag config op u in cleared c edit

  -- If Incus keeps its promises about ETags, then a successful UnsetNonce ended in one of two ways. Its last call was a
  -- fetch that was answered with status 404, with no instance, with another instance than the target, or with the target
  -- without the key. Or it ended with the fetch of the target, its update under the fetched ETag and the wait for the
  -- operation; and the log of applied updates has that update, which removed the key, left every other key of the
  -- configuration that it was applied to, and sent the other writable fields as they were fetched.
  pub unset_nonce_applied :
      (s : Run W)
      → (unset_nonce ports parse_uuid fuel ctx target key s).0 ≡ ok (some tt)
      → IsUnset s (unset_nonce ports parse_uuid fuel ctx target key s).1
  unfolding unset_nonce wrapped
  unset_nonce_applied s h =
      let (fine, same_state) =
        wrapped_ok unset_error (mutate ports parse_uuid ctx target key none fuel) s (some tt) h in
      ended-IsUnset s _ (mutate_ok ports parse_uuid ctx target key none fuel s fine)
