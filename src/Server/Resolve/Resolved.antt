-- ===== src/Server/Resolve/Resolved.antt =====
-- What resolve.go resolves: an instance that a lookup in an allowed project returned, and that matches.
use incus_spire_attestor.Prelude.{
  ℕ, ◌≡◌, refl, sym, ap, ◌∙◌, subst, ◌⊎◌, inl, inr, true, false, Option, none, some, List, [], ◌∷◌,
  ◌++◌, arith, Bytes, Bool-cases, same_self, is_empty, length, All,
}
use incus_spire_attestor.Errors.{Result, Result-cases, ok, err, wrap}
use incus_spire_attestor.Exec.{Exec, pure, lift, wrapped, ◌>>=◌, wrapped_then, ◌>>◌}
use incus_spire_attestor.Golang.Slices.{contains}
use incus_spire_attestor.Attest.Types.{Claims, Instance}
use incus_spire_attestor.Attest.Claims.{match_claims}
use incus_spire_attestor.Attest.Claims.Matching.{IsMatch, match_claims_iff}
use incus_spire_attestor.Server.Ports.{
  Context, with_timeout, rpc, Event, looked_up, Ports, Run, call, lookup,
}
use incus_spire_attestor.Server.Resolve.{
  matching, resolve_unhinted, resolve_hinted, resolve_instance, found_or_denied,
}
use incus_spire_attestor.Server.Resolve.Search.{
  lookups, matches, verdict, add_match, Decided, resolve_unhinted_total, GivenUp,
}

-- x stands in the list.
abbrev pub Among : {A : Type 0} → A → List A → Type 0
Among x [] = ⊥
Among x (y ∷ ys) = (y ≡ x) ⊎ Among x ys

-- A lookup of this name.
abbrev pub IsLookup : Context → Bytes → Event → Type 0
IsLookup ctx name e =
    (project : Bytes) × (answer : Result (Option Instance)) × (e
      ≡ looked_up ctx project name answer)

only_lookups-lookups :
    (ctx : Context) (name : Bytes) (ps : List Bytes) (os : List (Option Instance))
    → All (IsLookup ctx name) (lookups ctx name ps os)
only_lookups-lookups ctx name [] os = tt
only_lookups-lookups ctx name (p ∷ ps) [] = tt
only_lookups-lookups ctx name (p ∷ ps) (o ∷ os) =
    ((p, ok o, refl), only_lookups-lookups ctx name ps os)

verdict_ok : (ts : List Instance) (t : Instance) → verdict ts ≡ ok t → Among t ts
unfolding verdict
verdict_ok [] t h = cc
verdict_ok (u ∷ []) t h = inl (ground arith)
verdict_ok (u ∷ v ∷ ts) t h = cc

added :
    (m : Option Instance) (ts : List Instance) (t : Instance)
    → Among t (add_match m ts)
    → (m ≡ some t) ⊎ Among t ts
unfolding add_match
added none ts t h = inr h
added (some u) ts t (inl e) = inl (ap some e)
added (some u) ts t (inr h) = inr h

module _ (parse_uuid : Bytes → Option Bytes) where
  matching_ok :
      (claims : Claims) (o : Option Instance) (t : Instance)
      → matching parse_uuid claims o ≡ some t
      → (o ≡ some t) × (match_claims parse_uuid claims t ≡ ok tt)
  unfolding matching
  matching_ok claims none t h = cc
  matching_ok claims (some u) t h = elim (Result-cases (match_claims parse_uuid claims u)) [
    | inl (_, e) ↦
        let same_instance : u ≡ t = ground (arith, e) in
        (
          ap some same_instance,
          subst (λ i. match_claims parse_uuid claims i ≡ ok tt) same_instance e,
        )
    | inr (_, e) ↦ absurd (ground (arith, e))
  ]

  -- The target came from a lookup in an allowed project, and it matches the claims.
  pub record IsResolved (ctx : Context) (projects : List Bytes) (claims : Claims)
      (asked : List Event) (target : Instance) : Type 0 where
    pub project : Bytes
    pub allowed : contains projects project ≡ true
    pub found : Among (looked_up ctx project claims.name (ok (some target))) asked
    pub matched : IsMatch parse_uuid claims target
    pub only_lookups : All (IsLookup ctx claims.name) asked

  module _ (ctx : Context) (claims : Claims) where
    IsResolved-matches :
        (ps : List Bytes) (os : List (Option Instance)) (t : Instance)
        → length os ≡ length ps
        → Among t (matches parse_uuid claims os)
        → IsResolved ctx ps claims (lookups ctx claims.name ps os) t
    unfolding matches contains
    IsResolved-matches ps [] t n h = absurd h
    IsResolved-matches [] (o ∷ os) t n h = absurd (omega (arith, n))
    IsResolved-matches (p ∷ ps) (o ∷ os) t n h =
        elim (added (matching parse_uuid claims o) (matches parse_uuid claims os) t h) [
          | inl e ↦
              let (answer, good) = matching_ok claims o t e in
              record {
                project = p;
                allowed = rw (same_self p);
                found = inl (ap (λ a. looked_up ctx p claims.name (ok a)) answer);
                matched = (match_claims_iff parse_uuid claims t).0 good;
                only_lookups = only_lookups-lookups ctx claims.name (p ∷ ps) (o ∷ os);
              }
          | inr later ↦
              let r = IsResolved-matches ps os t (omega (arith, n)) later in
              record {
                project = r.project;
                allowed = ground (arith, r.allowed);
                found = inr r.found;
                matched = r.matched;
                only_lookups = only_lookups-lookups ctx claims.name (p ∷ ps) (o ∷ os);
              }
        ]

found_or_denied_ok : (o : Option Instance) (t : Instance) → found_or_denied o ≡ ok t → o ≡ some t
found_or_denied_ok none t h = cc
found_or_denied_ok (some u) t h = ground (arith, h)

module _ {W : Type 0} (parse_uuid : Bytes → Option Bytes) (ports : Ports W) where
  -- The calls of a search that succeeded, and what they say of its result.
  unfoldable pub Resolves : Context → List Bytes → Claims → Instance → Run W → Run W → Type 0
  Resolves ctx projects claims t s s' =
      (asked : List Event) × (s'.trace ≡ s.trace ++ asked)
      × IsResolved parse_uuid ctx projects claims asked t

  resolve_unhinted_ok :
      (ctx : Context) (projects : List Bytes) (claims : Claims) (s : Run W) (t : Instance)
      → (resolve_unhinted parse_uuid ports ctx projects claims s).0 ≡ ok t
      → Resolves ctx projects claims t s (resolve_unhinted parse_uuid ports ctx projects claims s).1
  unfolding Resolves Decided GivenUp
  resolve_unhinted_ok ctx projects claims s t h =
      elim (resolve_unhinted_total parse_uuid ports ctx claims projects s) [
        | inl (os, d) ↦ (
          lookups ctx claims.name projects os,
          d.1,
          IsResolved-matches parse_uuid ctx claims projects os t d.0 (verdict_ok _ t (sym d.2 ∙ h)),
        )
        | inr (e, stopped) ↦ absurd (ground (arith, stopped.1, h))
      ]

  lookup_ok :
      (ctx : Context) (p n : Bytes) (s : Run W) (o : Option Instance)
      → (lookup ports ctx p n s).0 ≡ ok o
      → (lookup ports ctx p n s).1.trace ≡ s.trace ++ looked_up ctx p n (ok o) ∷ []
  unfolding lookup call
  lookup_ok ctx p n s o h = ap (λ r. s.trace ++ looked_up ctx p n r ∷ []) h

  -- The steps of a hinted search behind its lookup.
  check_found : Claims → Option Instance → Exec (Run W) Instance
  check_found claims found = do
    target ← lift (found_or_denied found)
    lift (match_claims parse_uuid claims target)
    pure target

  hinted_steps :
      (ctx : Context) (projects : List Bytes) (claims : Claims) (s : Run W)
      → contains projects claims.project ≡ true
      → resolve_hinted parse_uuid ports ctx projects claims s
        ≡ (wrapped (wrap "lookup instance") (lookup ports ctx claims.project claims.name)
              >>= check_found claims)
            s
  unfolding resolve_hinted check_found ◌>>=◌ wrapped lookup call
  hinted_steps ctx projects claims s allowed = rw allowed refl

  passed :
      (r : Result (Unit {0})) (u t : Instance) (s : Run W)
      → ((lift r >> pure u) s).0 ≡ ok t
      → (r ≡ ok tt) × (u ≡ t) × (((lift r >> pure u) s).1 ≡ s)
  unfolding lift pure ◌>>=◌
  passed (ok _) u t s h = (refl, ground (arith, h), refl)
  passed (err e) u t s h = cc

  check_found_ok :
      (claims : Claims) (found : Option Instance) (s : Run W) (t : Instance)
      → (check_found claims found s).0 ≡ ok t
      → (found ≡ some t)
        × (match_claims parse_uuid claims t ≡ ok tt)
        × ((check_found claims found s).1 ≡ s)
  unfolding check_found lift ◌>>=◌
  check_found_ok claims none s t h = absurd (ground (arith, h))
  check_found_ok claims (some u) s t h =
      let (good, e, state) = passed (match_claims parse_uuid claims u) u t s h in
      (ap some e, subst (λ i. match_claims parse_uuid claims i ≡ ok tt) e good, state)

  refused :
      (ctx : Context) (projects : List Bytes) (claims : Claims) (s : Run W) (t : Instance)
      → contains projects claims.project ≡ false
      → ¬ ((resolve_hinted parse_uuid ports ctx projects claims s).0 ≡ ok t)
  unfolding resolve_hinted lift
  refused ctx projects claims s t other h = ground (arith, other, h)

  resolve_hinted_ok :
      (ctx : Context) (projects : List Bytes) (claims : Claims) (s : Run W) (t : Instance)
      → (resolve_hinted parse_uuid ports ctx projects claims s).0 ≡ ok t
      → Resolves ctx projects claims t s (resolve_hinted parse_uuid ports ctx projects claims s).1
  unfolding Resolves
  resolve_hinted_ok ctx projects claims s t h =
      elim (Bool-cases (contains projects claims.project)) [
        | inl allowed ↦
            let steps = hinted_steps ctx projects claims s allowed in
            let (found, answer, e, h1) =
              wrapped_then (wrap "lookup instance") (lookup ports ctx claims.project claims.name)
                (check_found claims) s t
                (ap (λ (p : Result Instance × Run W). p.0) (sym steps) ∙ h) in
            let (held, good, state) = check_found_ok claims found _ t h1 in
            (
              looked_up ctx claims.project claims.name (ok (some t)) ∷ [],
              ap (λ (p : Result Instance × Run W). p.1.trace) (steps ∙ e)
                  ∙ ap (λ (r : Run W). r.trace) state
                  ∙ lookup_ok ctx claims.project claims.name s (some t) (answer ∙ ap ok held),
              record {
                project = claims.project;
                allowed = allowed;
                found = inl refl;
                matched = (match_claims_iff parse_uuid claims t).0 good;
                only_lookups = ((claims.project, ok (some t), refl), tt);
              },
            )
        | inr other ↦ absurd (refused ctx projects claims s t other h)
      ]

  -- Where resolveInstance succeeds, it made no calls but lookups of the claimed name with the
  -- deadline of Incus calls; its result was the answer of one of them, in an allowed project, and it
  -- matches the claims.
  pub resolve_instance_ok :
      (incus_timeout : ℕ) (projects : List Bytes) (claims : Claims) (s : Run W) (t : Instance)
      → (resolve_instance parse_uuid ports incus_timeout projects claims s).0 ≡ ok t
      → Resolves
          (with_timeout rpc incus_timeout)
          projects
          claims
          t
          s
          (resolve_instance parse_uuid ports incus_timeout projects claims s).1
  unfolding resolve_instance
  resolve_instance_ok timeout projects claims s t = elim (Bool-cases (is_empty claims.project)) [
    | inl unhinted ↦
        rw unhinted (resolve_unhinted_ok (with_timeout rpc timeout) projects claims s t)
    | inr hinted ↦ rw hinted (resolve_hinted_ok (with_timeout rpc timeout) projects claims s t)
  ]
