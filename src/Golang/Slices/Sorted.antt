-- ===== src/Golang/Slices/Sorted.antt =====
-- Sorting and compacting gives the strictly ascending list of the same strings.
use incus_spire_attestor.Prelude.{
  ◌≡◌, refl, sym, ap, ◌∙◌, subst, inl, inr, true, false, ◌||◌, List, [], ◌∷◌, arith, Bytes,
  Bool-cases, same, same_self, same_iff, All,
}
use incus_spire_attestor.Golang.Slices.{less, insert, sort, compact, contains}

less_irrefl : (s : Bytes) → less s s ≡ false
unfolding less
less_irrefl [] = refl
less_irrefl (x ∷ xs) = ground (arith, less_irrefl xs)

less_trans : (s t u : Bytes) → less s t ≡ true → less t u ≡ true → less s u ≡ true
unfolding less
less_trans [] [] u h k = cc
less_trans [] (y ∷ ys) [] h k = cc
less_trans [] (y ∷ ys) (z ∷ zs) h k = refl
less_trans (x ∷ xs) [] u h k = cc
less_trans (x ∷ xs) (y ∷ ys) [] h k = cc
less_trans (x ∷ xs) (y ∷ ys) (z ∷ zs) h k = ground (arith, less_trans xs ys zs)

-- Two strings of which neither is less are equal.
less_connex : (s t : Bytes) → less s t ≡ false → less t s ≡ false → s ≡ t
unfolding less
less_connex [] [] h k = refl
less_connex [] (y ∷ ys) h k = cc
less_connex (x ∷ xs) [] h k = cc
less_connex (x ∷ xs) (y ∷ ys) h k = ground (arith, less_connex xs ys)

-- No string is less than one before it.
abbrev IsAscending : List Bytes → Type 0
IsAscending [] = Unit
IsAscending (s ∷ ss) = All (λ t. less t s ≡ false) ss × IsAscending ss

-- Strictly ascending: each string is less than all behind it.
abbrev pub IsStrict : List Bytes → Type 0
IsStrict [] = Unit
IsStrict (s ∷ ss) = All (λ t. less s t ≡ true) ss × IsStrict ss

le_trans : (s t u : Bytes) → less t s ≡ false → less u t ≡ false → less u s ≡ false
le_trans s t u h k = ground (arith, less_trans u s t, less_connex s t, less_connex t s)

le_lt_trans : (s t u : Bytes) → less s t ≡ true → less u t ≡ false → less s u ≡ true
le_lt_trans s t u h k = ground (arith, less_trans s t u, less_connex t u)

All-insert {ℓ} :
    (P : Bytes → Type ℓ) (s : Bytes) (ts : List Bytes) → P s → All P ts → All P (insert s ts)
unfolding insert
All-insert P s [] p h = (p, tt)
All-insert P s (t ∷ ts) p h = ground (arith, All-insert P s ts p h.1)

All-le_trans :
    (s t : Bytes) (us : List Bytes)
    → less t s ≡ false
    → All (λ u. less u t ≡ false) us
    → All (λ u. less u s ≡ false) us
All-le_trans s t [] h k = tt
All-le_trans s t (u ∷ us) h k = (le_trans s t u h k.0, All-le_trans s t us h k.1)

All-le_lt_trans :
    (s t : Bytes) (us : List Bytes)
    → less s t ≡ true
    → All (λ u. less u t ≡ false) us
    → All (λ u. less s u ≡ true) us
All-le_lt_trans s t [] h k = tt
All-le_lt_trans s t (u ∷ us) h k = (le_lt_trans s t u h k.0, All-le_lt_trans s t us h k.1)

less_asym : (s t : Bytes) → less s t ≡ true → less t s ≡ false
less_asym s t h = ground (arith, less_trans s t s, less_irrefl s)

insert-IsAscending : (s : Bytes) (ts : List Bytes) → IsAscending ts → IsAscending (insert s ts)
unfolding insert
insert-IsAscending s [] h = (tt, tt)
insert-IsAscending s (t ∷ ts) h = elim (Bool-cases (less t s)) [
  | inl lt ↦ rw lt (All-insert _ s ts (less_asym t s lt) h.0, insert-IsAscending s ts h.1)
  | inr le ↦ rw le ((le, All-le_trans s t ts le h.0), h)
]

sort-IsAscending : (ss : List Bytes) → IsAscending (sort ss)
unfolding sort
sort-IsAscending [] = tt
sort-IsAscending (s ∷ ss) = insert-IsAscending s (sort ss) (sort-IsAscending ss)

All-compact {ℓ} : (P : Bytes → Type ℓ) (ss : List Bytes) → All P ss → All P (compact ss)
unfolding compact
All-compact P [] h = tt
All-compact P (s ∷ []) h = h
All-compact P (s ∷ t ∷ ts) h = ground (arith, All-compact P (t ∷ ts) h.1)

compact-IsStrict : (ss : List Bytes) → IsAscending ss → IsStrict (compact ss)
unfolding compact
compact-IsStrict [] h = tt
compact-IsStrict (s ∷ []) h = (tt, tt)
compact-IsStrict (s ∷ t ∷ ts) h = elim (Bool-cases (same s t)) [
  | inl e ↦ rw e (compact-IsStrict (t ∷ ts) h.1)
  | inr ne ↦
      let lt : less s t ≡ true = ground (arith, h.0.0, less_connex s t, same_iff s t) in
      rw ne (
        All-compact _ (t ∷ ts) (lt, All-le_lt_trans s t ts lt h.1.0),
        compact-IsStrict (t ∷ ts) h.1,
      )
]

-- Sorting and compacting leaves each string once, in ascending order.
pub compact-sort-IsStrict : (ss : List Bytes) → IsStrict (compact (sort ss))
compact-sort-IsStrict ss = compact-IsStrict (sort ss) (sort-IsAscending ss)

contains-insert :
    (s : Bytes) (ts : List Bytes) (x : Bytes)
    → contains (insert s ts) x ≡ (same s x || contains ts x)
unfolding insert contains
contains-insert s [] x = refl
contains-insert s (t ∷ ts) x = ground (arith, contains-insert s ts x)

contains-sort : (ss : List Bytes) (x : Bytes) → contains (sort ss) x ≡ contains ss x
unfolding sort contains
contains-sort [] x = refl
contains-sort (s ∷ ss) x = ground (arith, contains-insert s (sort ss) x, contains-sort ss x)

contains-compact : (ss : List Bytes) (x : Bytes) → contains (compact ss) x ≡ contains ss x
unfolding compact contains
contains-compact [] x = refl
contains-compact (s ∷ []) x = refl
contains-compact (s ∷ t ∷ ts) x = ground (arith, same_iff s t, contains-compact (t ∷ ts) x)

-- It loses no string and adds none.
pub contains-compact-sort :
    (ss : List Bytes) (x : Bytes) → contains (compact (sort ss)) x ≡ contains ss x
contains-compact-sort ss x = contains-compact (sort ss) x ∙ contains-sort ss x

All-contains :
    (P : Bytes → Type 0) (ss : List Bytes) (x : Bytes) → All P ss → contains ss x ≡ true → P x
unfolding contains
All-contains P [] x h k = cc
All-contains P (s ∷ ss) x h k = elim (Bool-cases (same s x)) [
  | inl e ↦ subst P ((same_iff s x).0 e) h.0
  | inr ne ↦ All-contains P ss x h.1 (ground arith)
]

-- The heads of two strict lists of the same strings are equal.
strict_heads :
    (s t : Bytes) (ss ts : List Bytes)
    → IsStrict (s ∷ ss)
    → IsStrict (t ∷ ts)
    → contains (t ∷ ts) s ≡ true
    → contains (s ∷ ss) t ≡ true
    → s ≡ t
unfolding contains
strict_heads s t ss ts h k p q = elim (Bool-cases (same s t)) [
  | inl e ↦ (same_iff s t).0 e
  | inr ne ↦
      let below : less t s ≡ true =
        All-contains _ ts s k.0 (ground (arith, same_iff s t, same_iff t s)) in
      let above : less s t ≡ true = All-contains _ ss t h.0 (ground arith) in
      ground (arith, less_asym s t)
]

strict_head_once : (s : Bytes) (ss : List Bytes) → IsStrict (s ∷ ss) → contains ss s ≡ false
strict_head_once s ss h = elim (Bool-cases (contains ss s)) [
  | inl e ↦ let loop : less s s ≡ true = All-contains _ ss s h.0 e in cc (less_irrefl s)
  | inr e ↦ e
]

strict_tails :
    (s : Bytes) (ss ts : List Bytes)
    → IsStrict (s ∷ ss)
    → IsStrict (s ∷ ts)
    → ((x : Bytes) → contains (s ∷ ss) x ≡ contains (s ∷ ts) x)
    → (x : Bytes) → contains ss x ≡ contains ts x
unfolding contains
strict_tails s ss ts h k e x =
    ground (arith, e x, same_iff s x, strict_head_once s ss h, strict_head_once s ts k)

-- A strict list is determined by its set of strings.
pub strict_unique :
    (ss ts : List Bytes)
    → IsStrict ss
    → IsStrict ts
    → ((x : Bytes) → contains ss x ≡ contains ts x)
    → ss ≡ ts
unfolding contains
strict_unique [] [] h k e = refl
strict_unique [] (t ∷ ts) h k e = ground (arith, e t, same_self t)
strict_unique (s ∷ ss) [] h k e = ground (arith, e s, same_self s)
strict_unique (s ∷ ss) (t ∷ ts) h k e =
    let heads : s ≡ t =
      strict_heads s t ss ts h k (ground (arith, e s, same_self s))
        (ground (arith, e t, same_self t)) in
    let h' : IsStrict (t ∷ ss) = subst (λ u. IsStrict (u ∷ ss)) heads h in
    let e' : (x : Bytes) → contains (t ∷ ss) x ≡ contains (t ∷ ts) x =
      subst (λ u. (x : Bytes) → contains (u ∷ ss) x ≡ contains (t ∷ ts) x) heads e in
    rw heads (ap (◌∷◌ t) (strict_unique ss ts h.1 k.1 (strict_tails t ss ts h' k e')))

-- Sorting and compacting forgets order and repetition, and nothing else.
pub compact-sort_unique :
    (ss ts : List Bytes)
    → ((x : Bytes) → contains ss x ≡ contains ts x)
    → compact (sort ss) ≡ compact (sort ts)
compact-sort_unique ss ts e =
    strict_unique _ _ (compact-sort-IsStrict ss) (compact-sort-IsStrict ts)
      (λ x. contains-compact-sort ss x ∙ e x ∙ sym (contains-compact-sort ts x))
