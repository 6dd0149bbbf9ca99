-- ===== src/Attest/Types.antt =====
-- types.go. The named string types are byte strings; a map is an association list.
use incus_spire_attestor.Golang.Maps.{Map}
use incus_spire_attestor.Prelude.{◌<◌, ◌≡◌, Bytes, codes, List, length, All, Bool}

-- InstanceTypeVirtualMachine, the only instance type that is attested.
abbrev pub virtual_machine : Bytes
virtual_machine = codes "virtual-machine"

-- Guest-supplied instance locators; `project` may be empty.
pub record Claims : Type 0 where
  pub project : Bytes
  pub name : Bytes
  pub uuid : Bytes
  pub type : Bytes
  pub location : Bytes
  pub cloud_init_id : Bytes

-- The authoritative Incus API snapshot.
pub record Instance : Type 0 where
  pub project : Bytes
  pub name : Bytes
  pub uuid : Bytes
  pub type : Bytes
  pub location : Bytes
  pub cloud_init_id : Bytes
  pub profiles : List Bytes
  pub expanded_config : Map

pub record Attributes : Type 0 where
  pub agent_id : Bytes
  pub can_reattest : Bool
  pub selectors : List Bytes

-- A value of Go's type [16]byte: an attempt ID, or a nonce.
abbrev pub IsBytes16 : Bytes → Type 0
IsBytes16 b = (length b ≡ 16) × All (λ c. c < 256) b
