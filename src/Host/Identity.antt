-- ===== src/Host/Identity.antt =====
-- A snapshot identifies the instance that it was made of.
use incus_spire_attestor.Prelude.{
  refl, ◌≡◌, ap, ◌∙◌, ◌≢◌, ◌↔◌, ◌⊎◌, inl, inr, true, Option, none, some, [], arith, Bytes,
  Option-cases, same_self, same_iff,
}
use incus_spire_attestor.Errors.{ok, err, sentinel, replaced_target}
use incus_spire_attestor.Attest.Types.{Instance, virtual_machine}
use incus_spire_attestor.Attest.Claims.{canonical_uuid, new_instance_uuid}
use incus_spire_attestor.Host.Snapshot.{
  ApiInstance, volatile_uuid_key, volatile_cloud_init_id_key, config_value, resolved_location,
  map_instance, is_uuid_of, match_resolved_target,
}

module _ (parse_uuid : Bytes → Option Bytes) where
  -- What a snapshot says of the API instance, and what the instance has to be.
  pub record IsSnapshot (project name standalone : Bytes) (inst : ApiInstance) (t : Instance)
      : Type 0 where
    pub has_name : name ≢ []
    pub same_name : inst.name ≡ name
    pub in_project : (inst.project ≡ []) ⊎ (inst.project ≡ project)
    pub uuid : parse_uuid (config_value inst.expanded_config volatile_uuid_key) ≡ some t.uuid
    pub located : t.location ≢ []
    pub content : t ≡ record {
      project = project;
      name = name;
      uuid = t.uuid;
      type = inst.type;
      location = resolved_location standalone inst.location;
      cloud_init_id = config_value inst.expanded_config volatile_cloud_init_id_key;
      profiles = inst.profiles;
      expanded_config = inst.expanded_config;
    }

  -- The target and the API instance agree in name, UUID and (where it is known) project, and it is a VM.
  pub record IsTarget (target : Instance) (current : ApiInstance) : Type 0 where
    pub in_project : (current.project ≡ []) ⊎ (current.project ≡ target.project)
    pub same_name : current.name ≡ target.name
    pub vm : current.type ≡ virtual_machine
    pub uuid :
        parse_uuid (config_value current.expanded_config volatile_uuid_key) ≡ some target.uuid

  is_uuid_of_sound :
      (raw want : Bytes)
      → is_uuid_of parse_uuid want (new_instance_uuid parse_uuid raw) ≡ true
      → parse_uuid raw ≡ some want
  unfolding is_uuid_of new_instance_uuid
  is_uuid_of_sound raw want h = elim (Option-cases (parse_uuid raw)) [
    | inl e ↦ absurd (ground (arith, e, h))
    | inr (id, e) ↦ e ∙ ap some ((same_iff id want).0 (ground (arith, e, h)))
  ]

  -- An API instance still is the resolved target exactly if it agrees with it in name, UUID and, where the
  -- instance names one, project, and is a virtual machine.
  pub match_resolved_target_iff :
      (target : Instance) (current : ApiInstance)
      → (match_resolved_target parse_uuid target (some current) ≡ ok tt) ↔ IsTarget target current
  unfolding match_resolved_target is_uuid_of new_instance_uuid
  match_resolved_target_iff target current = (
    λ h. record {
      in_project = ground (arith, h, same_iff current.project target.project);
      same_name = ground (arith, h, same_iff current.name target.name);
      vm = ground (arith, h, same_iff current.type virtual_machine);
      uuid = is_uuid_of_sound _ target.uuid (ground (arith, h));
    },
    λ h. ground (
      arith,
      h.in_project,
      h.same_name,
      h.vm,
      h.uuid,
      same_iff current.project target.project,
      same_iff current.name target.name,
      same_iff current.type virtual_machine,
      same_self target.uuid,
    ),
  )

  canonical_uuid_ok :
      (raw id : Bytes) → canonical_uuid parse_uuid raw ≡ ok id → parse_uuid raw ≡ some id
  unfolding canonical_uuid new_instance_uuid
  canonical_uuid_ok raw id h = ground (arith, h)

  map_instance_uuid :
      (project name standalone : Bytes) (inst : ApiInstance) (t : Instance)
      → map_instance parse_uuid project name (some inst) standalone ≡ ok t
      → canonical_uuid parse_uuid (config_value inst.expanded_config volatile_uuid_key) ≡ ok t.uuid
  unfolding map_instance
  map_instance_uuid project name standalone inst t h = ground (arith, h)

  -- A snapshot is made only of an instance with the name that was asked for, in the project where it names one, with
  -- a UUID and a location; it has that project and name, the canonical UUID, and the fields of the instance.
  pub map_instance_ok :
      (project name standalone : Bytes) (inst : ApiInstance) (t : Instance)
      → map_instance parse_uuid project name (some inst) standalone ≡ ok t
      → IsSnapshot project name standalone inst t
  unfolding map_instance
  map_instance_ok project name standalone inst t h = record {
    has_name = ground (arith, h, same_iff inst.name name);
    same_name = ground (arith, h, same_iff inst.name name);
    in_project = ground (arith, h, same_iff inst.project project);
    uuid = canonical_uuid_ok _ t.uuid (map_instance_uuid project name standalone inst t h);
    located = ground (arith, h);
    content = ground (arith, h);
  }

  canonical_uuid_of :
      (raw id : Bytes) → parse_uuid raw ≡ some id → canonical_uuid parse_uuid raw ≡ ok id
  unfolding canonical_uuid new_instance_uuid
  canonical_uuid_of raw id h = ground (arith, h)

  -- Nothing more is asked of an instance than what a snapshot says of it.
  pub map_instance-IsSnapshot :
      (project name standalone : Bytes) (inst : ApiInstance) (t : Instance)
      → IsSnapshot project name standalone inst t
      → map_instance parse_uuid project name (some inst) standalone ≡ ok t
  unfolding map_instance
  map_instance-IsSnapshot project name standalone inst t s = ground (
    arith,
    s.has_name,
    s.same_name,
    s.in_project,
    s.located,
    s.content,
    canonical_uuid_of _ t.uuid s.uuid,
    same_iff inst.name name,
    same_iff inst.project project,
  )

  -- The instance that a snapshot was made of, if it is a virtual machine, is still taken for that target as
  -- long as it does not change.
  pub match_resolved_target-map_instance :
      (project name standalone : Bytes) (inst : ApiInstance) (t : Instance)
      → map_instance parse_uuid project name (some inst) standalone ≡ ok t
      → inst.type ≡ virtual_machine
      → match_resolved_target parse_uuid t (some inst) ≡ ok tt
  match_resolved_target-map_instance project name standalone inst t h vm =
      let s = map_instance_ok project name standalone inst t h in
      (match_resolved_target_iff t inst).1 (record {
        in_project = ground (arith, s.in_project, s.content);
        same_name = ground (arith, s.same_name, s.content);
        vm = vm;
        uuid = s.uuid;
      })

  -- The identity test has two answers.
  pub match_cases :
      (target : Instance) (current : Option ApiInstance)
      → (match_resolved_target parse_uuid target current ≡ ok tt)
        ⊎ (match_resolved_target parse_uuid target current ≡ err (sentinel replaced_target))
  unfolding match_resolved_target
  match_cases target none = inr refl
  match_cases target (some current) = ground arith
