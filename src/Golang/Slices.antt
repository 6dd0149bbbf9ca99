-- ===== src/Golang/Slices.antt =====
-- slices and strings: `Sort`, `Compact`, `Contains`, and `HasPrefix` and `IndexByte` on byte strings.
pub mod Sorted
use incus_spire_attestor.Prelude.{
  Bytes, List, Bool, true, false, ◌&&◌, ◌||◌, ◌==◌, [], ◌∷◌, if◌then◌else◌, ltb, same,
}

-- Go's `<` on strings: byte by byte, a proper prefix first.
unfoldable pub less : Bytes → Bytes → Bool
less [] [] = false
less [] (y ∷ ys) = true
less (x ∷ xs) [] = false
less (x ∷ xs) (y ∷ ys) = ltb x y || (x == y && less xs ys)

-- `slices.Sort` on strings. Equal strings cannot be told apart, so every sort gives this list.
pub insert : Bytes → List Bytes → List Bytes
insert s [] = s ∷ []
insert s (t ∷ ts) = if less t s then t ∷ insert s ts else s ∷ t ∷ ts

unfoldable pub sort : List Bytes → List Bytes
unfolding insert less
sort [] = []
sort (s ∷ ss) = insert s (sort ss)

-- `slices.Compact`: of each run of equal strings the first is kept.
unfoldable pub compact : List Bytes → List Bytes
compact [] = []
compact (s ∷ []) = s ∷ []
compact (s ∷ t ∷ ts) = let rest = compact (t ∷ ts) in if same s t then rest else s ∷ rest

-- `slices.Contains`.
unfoldable pub contains : List Bytes → Bytes → Bool
contains [] s = false
contains (t ∷ ts) s = same t s || contains ts s

-- `strings.HasPrefix`.
unfoldable pub has_prefix : Bytes → Bytes → Bool
has_prefix s [] = true
has_prefix [] (p ∷ ps) = false
has_prefix (c ∷ s) (p ∷ ps) = c == p && has_prefix s ps
