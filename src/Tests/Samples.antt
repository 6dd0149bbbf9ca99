-- ===== src/Tests/Samples.antt =====
-- The data of the tests: one instance and its guest's claims.
use incus_spire_attestor.Prelude.{
  ◌≡◌, refl, Bytes, codes, Option, none, some, same, same_iff, [], ◌∷◌, if◌then◌else◌, All, ◌<◌,
  List, arith, subst,
}
use incus_spire_attestor.Attest.Types.{Claims, Instance, IsBytes16}
use incus_spire_attestor.Attest.Claims.{UuidLaws}

abbrev pub uuid0 : Bytes
uuid0 = codes "0b7d6e1c-42f3-4f0e-9c55-7a1de2b3c4d5"

-- Knows one UUID, in its canonical spelling.
abbrev pub parse_uuid0 : Bytes → Option Bytes
parse_uuid0 raw = if same raw uuid0 then some uuid0 else none

pub parse_uuid0-UuidLaws : UuidLaws parse_uuid0
parse_uuid0-UuidLaws = record {
  canonical = λ raw id h. ground (arith, same_iff raw uuid0, same_iff uuid0 uuid0);
  size = λ raw id h. ground arith;
  ascii =
      λ raw id h. let e : uuid0 ≡ id = ground arith in subst (All (λ c. c < 0x80)) e (omega arith);
}

abbrev pub claims0 : Claims
claims0 = record {
  project = [];
  name = codes "web";
  uuid = uuid0;
  type = codes "virtual-machine";
  location = codes "n1";
  cloud_init_id = codes "i-1";
}

abbrev pub instance0 : Instance
instance0 = record {
  project = codes "p";
  name = codes "web";
  uuid = uuid0;
  type = codes "virtual-machine";
  location = codes "n1";
  cloud_init_id = codes "i-1";
  profiles = codes "default" ∷ codes "a" ∷ codes "default" ∷ [];
  expanded_config = (codes "user.role", codes "db") ∷ [];
}

abbrev pub keys0 : List Bytes
keys0 = codes "user.role" ∷ codes "user.none" ∷ []

abbrev pub id0 : Bytes
id0 = 0 ∷ 1 ∷ 2 ∷ 3 ∷ 4 ∷ 5 ∷ 6 ∷ 7 ∷ 8 ∷ 9 ∷ 10 ∷ 11 ∷ 12 ∷ 13 ∷ 14 ∷ 255 ∷ []

abbrev pub id1 : Bytes
id1 = 9 ∷ 1 ∷ 2 ∷ 3 ∷ 4 ∷ 5 ∷ 6 ∷ 7 ∷ 8 ∷ 9 ∷ 10 ∷ 11 ∷ 12 ∷ 13 ∷ 14 ∷ 255 ∷ []

pub id0-IsBytes16 : IsBytes16 id0
id0-IsBytes16 = (refl, omega arith)

pub id1-IsBytes16 : IsBytes16 id1
id1-IsBytes16 = (refl, omega arith)
