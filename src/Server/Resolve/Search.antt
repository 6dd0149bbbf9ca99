-- ===== src/Server/Resolve/Search.antt =====
-- What the search of resolve.go asks, and what it concludes from the answers.
use incus_spire_attestor.Prelude.{
  ℕ, ◌+◌, ◌≡◌, refl, sym, ap, ◌∙◌, ◌⊎◌, inl, inr, Option, none, some, List, [], ◌∷◌, ◌++◌,
  append-nil, append_assoc, arith, Bytes, Option-cases, length,
}
use incus_spire_attestor.Errors.{Result, Result-cases, ok, err, Error, wrap, deny}
use incus_spire_attestor.Exec.{pure, lift, wrapped, ◌>>=◌}
use incus_spire_attestor.Attest.Types.{Claims, Instance}
use incus_spire_attestor.Server.Ports.{Context, Event, looked_up, Ports, Run, call, lookup}
use incus_spire_attestor.Server.Resolve.{
  matching, tally, search_projects, only_match, resolve_unhinted, zero_instance,
}

-- A lookup of each project in turn, with its answer.
abbrev pub lookups : Context → Bytes → List Bytes → List (Option Instance) → List Event
lookups ctx name (p ∷ ps) (o ∷ os) = looked_up ctx p name (ok o) ∷ lookups ctx name ps os
lookups ctx name _ _ = []

unfoldable pub add_match : Option Instance → List Instance → List Instance
add_match none ts = ts
add_match (some t) ts = t ∷ ts

-- What the search means to answer, from the instances that match.
unfoldable pub verdict : List Instance → Result Instance
verdict [] = deny "instance not found"
verdict (t ∷ []) = ok t
verdict (t ∷ u ∷ ts) = deny "multiple matching instances"

-- The last of a list, or what stood before it.
last_or : Instance → List Instance → Instance
last_or t [] = t
last_or t (u ∷ us) = last_or u us

module _ (parse_uuid : Bytes → Option Bytes) (claims : Claims) where
  -- The instances among the answers that match the claims.
  unfoldable pub matches : List (Option Instance) → List Instance
  matches [] = []
  matches (o ∷ os) = add_match (matching parse_uuid claims o) (matches os)

  -- `matched` and `matches` behind the loop.
  tallies : List (Option Instance) → Instance × ℕ → Instance × ℕ
  tallies [] acc = acc
  tallies (o ∷ os) acc = tallies os (tally (matching parse_uuid claims o) acc)

  tallies-matches :
      (os : List (Option Instance)) (t : Instance) (n : ℕ)
      → tallies os (t, n) ≡ (last_or t (matches os), n + length (matches os))
  unfolding tallies matches add_match last_or
  tallies-matches [] t n = ground arith
  tallies-matches (o ∷ os) t n = elim (Option-cases (matching parse_uuid claims o)) [
    | inl e ↦ rw (e, tallies, matches, add_match) (tallies-matches os t n)
    | inr (u, e) ↦ rw (e, tallies, matches, add_match, tallies-matches os u (n + 1)) (ground arith)
  ]

verdict_lem :
    (ts : List Instance) → only_match (last_or zero_instance ts, 0 + length ts) ≡ verdict ts
unfolding only_match last_or verdict
verdict_lem [] = ground arith
verdict_lem (t ∷ []) = ground arith
verdict_lem (t ∷ u ∷ ts) = ground arith

module _ {W : Type 0} (parse_uuid : Bytes → Option Bytes) (ports : Ports W) (ctx : Context)
    (claims : Claims) where
  search_case :
      (p : Bytes) (ps : List Bytes) (acc : Instance × ℕ) (s : Run W) (o : Option Instance)
      → ((lookup ports ctx p claims.name s).0 ≡ ok o)
      → search_projects parse_uuid ports ctx claims (p ∷ ps) acc s
        ≡ search_projects parse_uuid ports ctx claims ps
            (tally (matching parse_uuid claims o) acc)
            (lookup ports ctx p claims.name s).1
  unfolding search_projects ◌>>=◌ wrapped
  search_case p ps acc s o e = rw (e) refl

  -- Behind the loop, the answers of all projects in their order, or the failure of a lookup.
  Answered : List Bytes → Instance × ℕ → Run W → List (Option Instance) → Type 0
  Answered ps acc s os =
      (length os ≡ length ps)
      × ((search_projects parse_uuid ports ctx claims ps acc s).1.trace
          ≡ s.trace ++ lookups ctx claims.name ps os)
      × ((search_projects parse_uuid ports ctx claims ps acc s).0
          ≡ ok (tallies parse_uuid claims os acc))

  -- The projects were asked in their order up to one whose lookup failed with this error.
  pub record IsStopped (ps : List Bytes) (s t : Run W) (e : Error) : Type 0 where
    pub asked : List Bytes
    pub failing : Bytes
    pub left : List Bytes
    pub answers : List (Option Instance)
    pub projects : ps ≡ asked ++ failing ∷ left
    pub one_each : length answers ≡ length asked
    pub calls :
        t.trace
        ≡ s.trace
          ++ (lookups ctx claims.name asked answers
              ++ looked_up ctx failing claims.name (err e) ∷ [])

  Failed : List Bytes → Instance × ℕ → Run W → Error → Type 0
  Failed ps acc s e =
      IsStopped ps s (search_projects parse_uuid ports ctx claims ps acc s).1 e
      × ((search_projects parse_uuid ports ctx claims ps acc s).0 ≡ err (wrap "lookup instance" e))

  Searched : List Bytes → Instance × ℕ → Run W → Type 0
  Searched ps acc s =
      ((os : List (Option Instance)) × Answered ps acc s os) ⊎ ((e : Error) × Failed ps acc s e)

  lookup-trace :
      (p : Bytes) (s : Run W) (o : Option Instance)
      → ((lookup ports ctx p claims.name s).0 ≡ ok o)
      → (lookup ports ctx p claims.name s).1.trace
        ≡ s.trace ++ looked_up ctx p claims.name (ok o) ∷ []
  unfolding lookup call
  lookup-trace p s o e = rw (e) refl

  search-Answered :
      (p : Bytes) (ps : List Bytes) (acc : Instance × ℕ) (s : Run W) (o : Option Instance)
      (os : List (Option Instance))
      → ((lookup ports ctx p claims.name s).0 ≡ ok o)
      → Answered ps
          (tally (matching parse_uuid claims o) acc)
          (lookup ports ctx p claims.name s).1
          os
      → Answered (p ∷ ps) acc s (o ∷ os)
  unfolding Answered tallies
  search-Answered p ps acc s o os e h = (
    ground arith,
    rw (search_case p ps acc s o e, h.1, lookup-trace p s o e) (append_assoc s.trace _ _),
    rw (search_case p ps acc s o e, h.2) refl,
  )

  later-IsStopped :
      (p : Bytes) (ps : List Bytes) (s t : Run W) (o : Option Instance) (f : Error)
      → ((lookup ports ctx p claims.name s).0 ≡ ok o)
      → IsStopped ps (lookup ports ctx p claims.name s).1 t f
      → IsStopped (p ∷ ps) s t f
  later-IsStopped p ps s t o f e h = record {
    asked = p ∷ h.asked;
    failing = h.failing;
    left = h.left;
    answers = o ∷ h.answers;
    projects = ap (λ qs. p ∷ qs) h.projects;
    one_each = ground (arith, h.one_each);
    calls = h.calls ∙ (rw (lookup-trace p s o e) (append_assoc s.trace _ _));
  }

  search_step :
      (p : Bytes) (ps : List Bytes) (acc : Instance × ℕ) (s : Run W) (o : Option Instance)
      → ((lookup ports ctx p claims.name s).0 ≡ ok o)
      → Searched ps (tally (matching parse_uuid claims o) acc) (lookup ports ctx p claims.name s).1
      → Searched (p ∷ ps) acc s
  unfolding Searched Failed
  search_step p ps acc s o e (inl (os, h)) = inl (o ∷ os, search-Answered p ps acc s o os e h)
  search_step p ps acc s o e (inr (f, r)) = inr (
    f,
    (
      rw (search_case p ps acc s o e) (later-IsStopped p ps s _ o f e (r.0)),
      rw (search_case p ps acc s o e) (r.1),
    ),
  )

  search_stopped :
      (p : Bytes) (ps : List Bytes) (acc : Instance × ℕ) (s : Run W) (e : Error)
      → ((lookup ports ctx p claims.name s).0 ≡ err e)
      → Failed (p ∷ ps) acc s e
  unfolding Failed search_projects ◌>>=◌ wrapped lookup call
  search_stopped p ps acc s e h = (
    record {
      asked = [];
      failing = p;
      left = ps;
      answers = [];
      projects = refl;
      one_each = refl;
      calls = rw (h) refl;
    },
    rw (h) refl,
  )

  search_projects_total : (ps : List Bytes) (acc : Instance × ℕ) (s : Run W) → Searched ps acc s
  unfolding Searched Answered search_projects pure tallies
  search_projects_total [] acc s = inl ([], (refl, sym (append-nil _), refl))
  search_projects_total (p ∷ ps) acc s = elim (Result-cases (lookup ports ctx p claims.name s).0) [
    | inl (o, e) ↦ search_step p ps acc s o e (search_projects_total ps _ _)
    | inr (f, e) ↦ inr (f, search_stopped p ps acc s f e)
  ]

  -- The run asked for the instance in each project, in their order, and the answers leave one match, which
  -- is the result, or the result is the denial of the verdict.
  unfoldable pub Decided : List Bytes → Run W → List (Option Instance) → Type 0
  Decided ps s os =
      (length os ≡ length ps)
      × ((resolve_unhinted parse_uuid ports ctx ps claims s).1.trace
          ≡ s.trace ++ lookups ctx claims.name ps os)
      × ((resolve_unhinted parse_uuid ports ctx ps claims s).0
          ≡ verdict (matches parse_uuid claims os))

  decide :
      (ps : List Bytes) (s : Run W) (os : List (Option Instance))
      → Answered ps (zero_instance, 0) s os
      → Decided ps s os
  unfolding Answered Decided resolve_unhinted ◌>>=◌ lift
  decide ps s os h = (
    h.0,
    rw (h.2) (h.1),
    rw (h.2, tallies-matches parse_uuid claims os zero_instance 0)
        (verdict_lem (matches parse_uuid claims os)),
  )

  -- The run asked in the order of the projects up to one whose lookup failed, and its result is that error.
  unfoldable pub GivenUp : List Bytes → Run W → Error → Type 0
  GivenUp ps s e =
      IsStopped ps s (resolve_unhinted parse_uuid ports ctx ps claims s).1 e
      × ((resolve_unhinted parse_uuid ports ctx ps claims s).0 ≡ err (wrap "lookup instance" e))

  give_up :
      (ps : List Bytes) (s : Run W) (e : Error) → Failed ps (zero_instance, 0) s e → GivenUp ps s e
  unfolding GivenUp Failed resolve_unhinted ◌>>=◌
  give_up ps s e (stop, h) = (rw (h) stop, rw (h) refl)

  -- A search without a project hint returns on every list of projects. Either the projects were asked in their order
  -- up to one whose lookup failed, and the result is the error of that lookup, wrapped; or every project was asked in
  -- order and the answers alone decide: one match is the result, none and several are denied.
  pub resolve_unhinted_total :
      (ps : List Bytes) (s : Run W)
      → ((os : List (Option Instance)) × Decided ps s os) ⊎ ((e : Error) × GivenUp ps s e)
  unfolding Searched
  resolve_unhinted_total ps s = elim (search_projects_total ps (zero_instance, 0) s) [
    | inl (os, h) ↦ inl (os, decide ps s os h)
    | inr (e, h) ↦ inr (e, give_up ps s e h)
  ]
