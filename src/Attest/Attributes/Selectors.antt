-- ===== src/Attest/Attributes/Selectors.antt =====
-- Which selectors user keys and profiles give, as sets.
use incus_spire_attestor.Prelude.{
  ◌≡◌, refl, sym, ◌∙◌, ◌↔◌, ◌⊎◌, inl, inr, Bool, true, false, ◌||◌, some, List, [], ◌∷◌, ◌++◌,
  arith, Bytes, codes, Bool-cases, Option-cases, same, same_self, same_iff,
}
use incus_spire_attestor.Errors.{ok, deny, >>=-eq-ok}
use incus_spire_attestor.Golang.Slices.{contains, has_prefix}
use incus_spire_attestor.Golang.Maps.{Map, lookup}
use incus_spire_attestor.Attest.Nonce.{config_key_prefix}
use incus_spire_attestor.Attest.Attributes.{user_selectors, profile_selectors}

-- `s` is the selector of a listed key that the configuration holds.
pub record IsChosen (config : Map) (keys : List Bytes) (s : Bytes) : Type 0 where
  pub key : Bytes
  pub listed : contains keys key ≡ true
  pub value : Bytes
  pub held : lookup key config ≡ some value
  pub spelled : s ≡ key ++ b':' ∷ value

IsChosen-cons :
    {config : Map} {keys : List Bytes} {s : Bytes} (k : Bytes)
    → IsChosen config keys s
    → IsChosen config (k ∷ keys) s
unfolding contains
IsChosen-cons k c = record {
  key = c.key;
  listed = ground (arith, c.listed);
  value = c.value;
  held = c.held;
  spelled = c.spelled;
}

user_selectors_sound :
    (config : Map) (keys : List Bytes) {chosen : List Bytes} (s : Bytes)
    → user_selectors config keys ≡ ok chosen
    → contains chosen s ≡ true
    → IsChosen config keys s
unfolding user_selectors contains
user_selectors_sound config [] s h k = absurd (ground arith)
user_selectors_sound config (key ∷ keys) {chosen} s h k = elim (Option-cases (lookup key config)) [
  | inl missing ↦
      IsChosen-cons key (user_selectors_sound config keys {chosen = chosen} s (ground arith) k)
  | inr (v, held) ↦
      let (rest, later, e) =
        >>=-eq-ok (user_selectors config keys) (λ rest. ok ((key ++ b':' ∷ v) ∷ rest)) {b = chosen}
          (ground arith) in
      elim (Bool-cases (same (key ++ b':' ∷ v) s)) [
        | inl hit ↦ record {
          key = key;
          listed = ground (arith, same_self key);
          value = v;
          held = held;
          spelled = sym ((same_iff _ s).0 hit);
        }
        | inr miss ↦
            IsChosen-cons key
              (user_selectors_sound config keys {chosen = rest} s later (ground arith))
      ]
]

user_selectors_complete :
    (config : Map) (keys : List Bytes) {chosen : List Bytes} (s key value : Bytes)
    → user_selectors config keys ≡ ok chosen
    → contains keys key ≡ true
    → lookup key config ≡ some value
    → s ≡ key ++ b':' ∷ value
    → contains chosen s ≡ true
unfolding user_selectors contains
user_selectors_complete config [] s key value h l v e = cc
user_selectors_complete config (k ∷ keys) {chosen} s key value h l v e =
    elim (Option-cases (lookup k config)) [
      | inl missing ↦
          user_selectors_complete config keys {chosen = chosen} s key value (ground arith)
            (ground (arith, same_iff k key)) v e
      | inr (w, held) ↦
          let (rest, later, shape) =
            >>=-eq-ok (user_selectors config keys) (λ rest. ok ((k ++ b':' ∷ w) ∷ rest))
              {b = chosen} (ground arith) in
          let deeper = user_selectors_complete config keys {chosen = rest} s key value later in
          ground (arith, same_iff k key, same_iff (k ++ b':' ∷ w) s, deeper)
    ]

-- Where no user key is refused, the user selectors are those of the listed keys that the
-- configuration holds, and no others.
pub user_selectors_iff :
    (config : Map) (keys chosen : List Bytes) (s : Bytes)
    → user_selectors config keys ≡ ok chosen
    → (contains chosen s ≡ true) ↔ IsChosen config keys s
user_selectors_iff config keys chosen s h = (
  user_selectors_sound config keys s h,
  λ c. user_selectors_complete config keys s c.key c.value h c.listed c.held c.spelled,
)

-- Whether a key lies in the namespace of nonces.
abbrev pub reserved : List Bytes → Bool
reserved [] = false
reserved (key ∷ keys) = has_prefix key config_key_prefix || reserved keys

-- User keys are refused, as reserved, if one of them is in the nonce namespace, and else selectors are
-- returned; there is no other result.
pub user_selectors_total :
    (config : Map) (keys : List Bytes)
    → ((reserved keys ≡ true) × (user_selectors config keys ≡ deny "reserved selector key"))
      ⊎ ((reserved keys ≡ false)
          × ((chosen : List Bytes) × (user_selectors config keys ≡ ok chosen)))
unfolding user_selectors
user_selectors_total config [] = inr (refl, ([], refl))
user_selectors_total config (key ∷ keys) = elim (Bool-cases (has_prefix key config_key_prefix)) [
  | inl bad ↦ inl (ground arith, ground arith)
  | inr fine ↦ elim (user_selectors_total config keys) [
    | inl (later, e) ↦ inl (ground arith, ground arith)
    | inr (later, (rest, e)) ↦ elim (Option-cases (lookup key config)) [
      | inl missing ↦ inr (ground arith, (rest, ground arith))
      | inr (v, held) ↦ inr (ground arith, ((key ++ b':' ∷ v) ∷ rest, ground arith))
    ]
  ]
]

reserved-contains :
    (keys : List Bytes) (k : Bytes)
    → contains keys k ≡ true
    → has_prefix k config_key_prefix ≡ true
    → reserved keys ≡ true
unfolding contains
reserved-contains [] k h p = cc
reserved-contains (j ∷ keys) k h p = ground (arith, same_iff j k, reserved-contains keys k)

reserved_same :
    (keys keys' : List Bytes)
    → ((k : Bytes) → contains keys k ≡ true → contains keys' k ≡ true)
    → reserved keys ≡ true
    → reserved keys' ≡ true
unfolding contains
reserved_same [] keys' sub h = cc
reserved_same (k ∷ keys) keys' sub h = elim (Bool-cases (has_prefix k config_key_prefix)) [
  | inl bad ↦ reserved-contains keys' k (sub k (ground (arith, same_self k))) bad
  | inr fine ↦ reserved_same keys keys' (λ j l. sub j (ground arith)) (ground arith)
]

abbrev ProfileOf : List Bytes → Bytes → Type 0
ProfileOf profiles s = (p : Bytes) × (contains profiles p ≡ true) × (s ≡ codes "profile:" ++ p)

profile_selectors_sound :
    (profiles : List Bytes) (s : Bytes)
    → contains (profile_selectors profiles) s ≡ true
    → ProfileOf profiles s
unfolding profile_selectors contains
profile_selectors_sound [] s h = absurd (ground arith)
profile_selectors_sound (q ∷ profiles) s h = elim (Bool-cases (same (codes "profile:" ++ q) s)) [
  | inl hit ↦ (q, ground (arith, same_self q), sym ((same_iff _ s).0 hit))
  | inr miss ↦
      let (p, listed, e) = profile_selectors_sound profiles s (ground arith) in
      (p, ground (arith, listed), e)
]

profile_selectors_complete :
    (profiles : List Bytes) (s : Bytes)
    → ProfileOf profiles s
    → contains (profile_selectors profiles) s ≡ true
unfolding profile_selectors contains
profile_selectors_complete [] s (p, listed, e) = cc
profile_selectors_complete (q ∷ profiles) s (p, listed, e) = elim (Bool-cases (same q p)) [
  | inl hit ↦
      let spelled : s ≡ codes "profile:" ++ q = rw ((same_iff q p).0 hit) e in
      rw (spelled, same_self (codes "profile:" ++ q))
  | inr miss ↦
      let later = profile_selectors_complete profiles s (p, ground arith, e) in
      ground (arith, later)
]

-- There is one selector for each profile, and no other.
pub profile_selectors_iff :
    (profiles : List Bytes) (s : Bytes)
    → (contains (profile_selectors profiles) s ≡ true)
      ↔ ((p : Bytes) × (contains profiles p ≡ true) × (s ≡ codes "profile:" ++ p))
profile_selectors_iff profiles s =
    (profile_selectors_sound profiles s, profile_selectors_complete profiles s)

pub contains-append :
    (ss ts : List Bytes) (x : Bytes) → contains (ss ++ ts) x ≡ (contains ss x || contains ts x)
unfolding contains
contains-append [] ts x = refl
contains-append (s ∷ ss) ts x = ground (arith, contains-append ss ts x)

Bool-ext : (a b : Bool) → (a ≡ true → b ≡ true) → (b ≡ true → a ≡ true) → a ≡ b
Bool-ext true b f g = sym (f refl)
Bool-ext false true f g = g refl
Bool-ext false false f g = refl

-- Two lists hold the same strings, in any order and as often.
abbrev pub SameSet : List Bytes → List Bytes → Type 0
SameSet ss ts = (x : Bytes) → contains ss x ≡ contains ts x

pub profile_selectors-SameSet :
    (ps qs : List Bytes) → SameSet ps qs → SameSet (profile_selectors ps) (profile_selectors qs)
profile_selectors-SameSet ps qs e s =
    Bool-ext _ _
      (λ h.
        let (p, l, spelled) = profile_selectors_sound ps s h in
        profile_selectors_complete qs s (p, sym (e p) ∙ l, spelled))
      (λ h.
        let (p, l, spelled) = profile_selectors_sound qs s h in
        profile_selectors_complete ps s (p, e p ∙ l, spelled))

pub reserved-SameSet : (ks js : List Bytes) → SameSet ks js → reserved ks ≡ reserved js
reserved-SameSet ks js e =
    Bool-ext _ _ (reserved_same ks js (λ k l. sym (e k) ∙ l)) (reserved_same js ks (λ k l. e k ∙ l))

-- Two configurations answer every lookup alike.
abbrev pub SameMap : Map → Map → Type 0
SameMap m n = (k : Bytes) → lookup k m ≡ lookup k n

IsChosen-same :
    {m n : Map} {ks js : List Bytes} {s : Bytes}
    → SameMap m n
    → SameSet ks js
    → IsChosen m ks s
    → IsChosen n js s
IsChosen-same f e c = record {
  key = c.key;
  listed = sym (e c.key) ∙ c.listed;
  value = c.value;
  held = sym (f c.key) ∙ c.held;
  spelled = c.spelled;
}

pub user_selectors-SameSet :
    (m n : Map) (ks js chosen chosen' : List Bytes)
    → SameMap m n
    → SameSet ks js
    → user_selectors m ks ≡ ok chosen
    → user_selectors n js ≡ ok chosen'
    → SameSet chosen chosen'
user_selectors-SameSet m n ks js chosen chosen' f e h h' s =
    let (to, from) = user_selectors_iff m ks chosen s h in
    let (to', from') = user_selectors_iff n js chosen' s h' in
    Bool-ext _ _ (λ k. from' (IsChosen-same f e (to k)))
      (λ k. from (IsChosen-same (λ x. sym (f x)) (λ x. sym (e x)) (to' k)))
