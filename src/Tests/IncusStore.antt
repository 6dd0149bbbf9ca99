-- ===== src/Tests/IncusStore.antt =====
-- An Incus server for the tests: one instance, its log of updates, and another client that writes once.
use incus_spire_attestor.Prelude.{
  ℕ, suc, ◌+◌, ◌≡◌, refl, sym, inl, inr, Bool, true, false, Option, none, some, List, [], ◌∷◌, ◌++◌,
  arith, Bytes, codes, ltb, if◌then◌else◌, Bool-cases, same, same_iff,
}
use incus_spire_attestor.Errors.{Result, ok, err, Error, remote, sentinel, deadline_exceeded}
use incus_spire_attestor.Golang.Maps.{Map}
use incus_spire_attestor.Host.Ports.{InstancePut, Ports}
use incus_spire_attestor.Host.Mutate.Applied.{Change, IsApplied, Store}
use incus_spire_attestor.Host.Snapshot.{ApiInstance}
use incus_spire_attestor.Attest.Types.{Instance}
use incus_spire_attestor.Tests.Samples.{uuid0}

abbrev pub api0 : ApiInstance
api0 = record {
  name = codes "web";
  project = codes "p";
  type = codes "virtual-machine";
  location = codes "none";
  profiles = codes "default" ∷ [];
  expanded_config =
      (codes "volatile.uuid", uuid0) ∷ (codes "volatile.cloud-init.instance-id", codes "i-1") ∷ [];
}

abbrev pub target0 : Instance
target0 = record {
  project = codes "p";
  name = codes "web";
  uuid = uuid0;
  type = codes "virtual-machine";
  location = codes "host1";
  cloud_init_id = codes "i-1";
  profiles = api0.profiles;
  expanded_config = api0.expanded_config;
}

-- A byte string and what follows it, and a configuration, as one text.
unfoldable pub tag_bytes : Bytes → Bytes → Bytes
tag_bytes [] rest = 0 ∷ rest
tag_bytes (c ∷ b) rest = suc c ∷ tag_bytes b rest

unfoldable pub tag_map : Map → Bytes
unfolding tag_bytes
tag_map [] = 0 ∷ []
tag_map ((k, v) ∷ m) = 1 ∷ tag_bytes k (tag_bytes v (tag_map m))

tag_bytes_injective : (a b r s : Bytes) → tag_bytes a r ≡ tag_bytes b s → (a ≡ b) × (r ≡ s)
unfolding tag_bytes
tag_bytes_injective [] [] r s h = (refl, cc)
tag_bytes_injective [] (y ∷ b) r s h = cc
tag_bytes_injective (x ∷ a) [] r s h = cc
tag_bytes_injective (x ∷ a) (y ∷ b) r s h =
    let (same_tail, same_rest) = tag_bytes_injective a b r s cc in
    (ground (arith, h, same_tail), same_rest)

tag_map_injective : (a b : Map) → tag_map a ≡ tag_map b → a ≡ b
unfolding tag_map
tag_map_injective [] [] h = refl
tag_map_injective [] ((k, v) ∷ b) h = cc
tag_map_injective ((k, v) ∷ a) [] h = cc
tag_map_injective ((k, v) ∷ a) ((j, u) ∷ b) h =
    let (same_key, h2) =
      tag_bytes_injective k j (tag_bytes v (tag_map a)) (tag_bytes u (tag_map b)) cc in
    let (same_value, h3) = tag_bytes_injective v u (tag_map a) (tag_map b) h2 in
    let same_rest : a ≡ b = tag_map_injective a b h3 in
    ground (arith, same_key, same_value, same_rest)

-- The clock, the instance, the log, and whether the other client has yet to write.
pub record World : Type 0 where
  pub now : ℕ
  pub put : InstancePut
  pub log : List Change
  pub rival : Bool

abbrev pub deadline0 : ℕ
deadline0 = 1000000000

abbrev pub conflict : Error
conflict = remote (record { timeout = none; temporary = none; status = some 412; net_op = false })

-- The configuration with the other client's key.
abbrev rival_put : InstancePut → InstancePut
rival_put put = record put { config = (codes "user.other", codes "1") ∷ put.config }

abbrev note : Bytes → Bytes → InstancePut → World → World
note project name put w = record w {
  put = put;
  log = w.log ++ record { project = project; name = name; before = w.put; after = put } ∷ [];
}

-- The other client is quicker than the first update; after that, an update with the ETag of the instance is applied.
abbrev store_update : Bytes → Bytes → InstancePut → Bytes → World → Result (Option ℕ) × World
store_update project name put etag w =
    if w.rival
    then (err conflict, record (note project name (rival_put w.put) w) { rival = false })
    else if same etag (tag_map w.put.config)
    then (ok (some 0), note project name put w)
    else (err conflict, w)

abbrev pub ports0 : Ports World
ports0 = record {
  contextual = true;
  get_server = λ w. (ok (some (record { clustered = false; server_name = codes "host1" })), w);
  get_instance = λ ctx project name w.
      (ok (some (record { instance = api0; writable = w.put }), tag_map w.put.config), w);
  update_instance = λ ctx project name put etag w. store_update project name put etag w;
  await_operation = λ ctx op w. (ok tt, w);
  wait = λ ctx delay w.
      if ltb w.now deadline0
      then (ok tt, record w { now = w.now + delay })
      else (err (sentinel deadline_exceeded), w);
}

accepted :
    (project name etag : Bytes) (put : InstancePut) (op : ℕ) (w : World)
    → (store_update project name put etag w).0 ≡ ok (some op)
    → (tag_map w.put.config ≡ etag)
      × IsApplied
          (record { project = project; name = name; before = w.put; after = put })
          (store_update project name put etag w).1.log
accepted project name etag put op w h = elim (Bool-cases w.rival) [
  | inl r ↦ absurd (ground (arith, r, h))
  | inr r ↦ elim (Bool-cases (same etag (tag_map w.put.config))) [
    | inl e ↦ (
      sym ((same_iff etag (tag_map w.put.config)).0 e),
      record { earlier = w.log; later = []; in_log = ground (arith, r, e) },
    )
    | inr e ↦ absurd (ground (arith, r, e, h))
  ]
]

pub store0 : Store ports0
store0 = record {
  log = λ w. w.log;
  etag_of = λ put. tag_map put.config;
  etag_config = λ a b h. tag_map_injective a.config b.config h;
  etag_fetched = λ ctx project name etag f w h. ground (arith, h);
  applied = λ ctx project name etag put op w h h2.
      let (tag, in_log) = accepted project name etag put op w h in (w.put, tag, in_log);
}
