-- ===== src/Golang/Maps.antt =====
-- Go maps with string keys, as association lists with one entry for each key.
use incus_spire_attestor.Prelude.{
  ◌≡◌, Option, none, some, List, [], ◌∷◌, arith, Bytes, if◌then◌else◌, same, same_iff,
}

abbrev pub Map : Type 0
Map = List (Bytes × Bytes)

-- `m[k]`, with the flag as the option.
unfoldable pub lookup : Bytes → Map → Option Bytes
lookup k [] = none
lookup k ((j, v) ∷ m) = if same j k then some v else lookup k m

-- `delete(m, k)`.
unfoldable pub delete : Bytes → Map → Map
delete k [] = []
delete k ((j, v) ∷ m) = let rest = delete k m in if same j k then rest else (j, v) ∷ rest

-- `m[k] = v`.
unfoldable pub insert : Bytes → Bytes → Map → Map
insert k v m = (k, v) ∷ delete k m

pub lookup-delete :
    (k j : Bytes) (m : Map) → lookup j (delete k m) ≡ (if same k j then none else lookup j m)
unfolding lookup delete
lookup-delete k j [] = ground arith
lookup-delete k j ((i, v) ∷ m) =
    ground (arith, lookup-delete k j m, same_iff i k, same_iff i j, same_iff k j)

pub lookup-insert :
    (k j v : Bytes) (m : Map) → lookup j (insert k v m) ≡ (if same k j then some v else lookup j m)
unfolding lookup insert
lookup-insert k j v m = ground (arith, lookup-delete k j m)
