-- ===== src/Host/Client.antt =====
-- client.go: the construction of a client, and Lookup.
use incus_spire_attestor.Prelude.{
  Bool, ◌↔◌, ◌≡◌, refl, subst, inl, inr, true, Option, none, some, [], ◌∷◌, arith, Bytes,
  if◌then◌else◌, Bool-cases, is_empty,
}
use incus_spire_attestor.Errors.{
  require, sentinel, missing_context, Result, ok, err, Error, text, wrap,
}
use incus_spire_attestor.Exec.{Exec, pure, fail, lift, attempt, wrapped, ◌>>=◌, wrapped_then}
use incus_spire_attestor.Golang.Context.{Context}
use incus_spire_attestor.Attest.Types.{Instance}
use incus_spire_attestor.Host.Snapshot.{map_instance}
use incus_spire_attestor.Host.Identity.{IsSnapshot, map_instance_ok, map_instance-IsSnapshot}
use incus_spire_attestor.Host.Retry.{status_check}
use incus_spire_attestor.Host.Ports.{
  ServerInfo, Fetched, Ports, Run, server_read, ask, scoped, get_instance,
}
use incus_spire_attestor.Host.Mutate.{seen}

-- Client, without the library's client and `wait`, which are the ports.
pub record Client : Type 0 where
  pub standalone_location : Bytes

-- The cached location for what GetServer returned.
unfoldable pub standalone_of : Option ServerInfo → Result Bytes
standalone_of none = err (text "incus server metadata is unavailable")
standalone_of (some info) =
    if info.clustered
    then ok []
    else if is_empty info.server_name
    then err (text "incus server name is required")
    else ok info.server_name

module _ {W : Type 0} (ports : Ports W) where
  -- loadStandaloneLocation.
  unfoldable pub load_standalone_location : Exec (Run W) Bytes
  load_standalone_location = do
    info ← wrapped (wrap "read incus server") (ask ports.get_server server_read)
    lift (standalone_of info)

  -- newClient.
  unfoldable pub new_client : Exec (Run W) Client
  new_client = do
    location ← load_standalone_location
    pure (record { standalone_location = location })

  module _ (parse_uuid : Bytes → Option Bytes) (client : Client) (ctx : Context)
      (project name : Bytes) where
    -- Behind the fetch.
    unfoldable pub found_instance : Result (Option Fetched × Bytes) → Exec (Run W) (Option Instance)
    found_instance (err e) =
        if status_check (404 ∷ []) e then pure none else fail (wrap "lookup instance" e)
    found_instance (ok (inst, etag)) = do
      mapped ←
          wrapped (wrap "lookup instance")
            (lift (map_instance parse_uuid project name (seen inst) client.standalone_location))
      pure (some mapped)

    -- Lookup; the instance and `found` are one option.
    unfoldable pub lookup : Exec (Run W) (Option Instance)
    lookup = do
      _ ← wrapped (wrap "lookup instance") (scoped ports ctx)
      answer ← attempt (get_instance ports ctx project name)
      found_instance answer

    -- The answer of the fetch that Lookup makes in this state.
    abbrev pub fetch_answer : W → Result (Option Fetched × Bytes)
    fetch_answer w = (ports.get_instance ctx project name w).0

    -- What a result of Lookup says: not found is the status 404, and an instance is a snapshot of what was fetched.
    pub data IsLookup (w : W) : Option Instance → Type 0 where
      not_found :
          (e : Error)
          → ports.contextual ≡ true
          → fetch_answer w ≡ err e
          → status_check (404 ∷ []) e ≡ true
          → IsLookup w none
      found :
          (f : Fetched) (etag : Bytes) (t : Instance)
          → ports.contextual ≡ true
          → fetch_answer w ≡ ok (some f, etag)
          → IsSnapshot parse_uuid project name client.standalone_location f.instance t
          → IsLookup w (some t)

    mapped_ok :
        (inst : Option Fetched) (etag : Bytes) (w : W) (o : Option Instance) (t : Instance)
        → ports.contextual ≡ true
        → fetch_answer w ≡ ok (inst, etag)
        → map_instance parse_uuid project name (seen inst) client.standalone_location ≡ ok t
        → ◌≡◌ {A = Result (Option Instance)} (ok (some t)) (ok o)
        → IsLookup w o
    unfolding map_instance
    mapped_ok none etag w o t c r mapped h = cc
    mapped_ok (some f) etag w o t c r mapped h = subst (IsLookup w) (ground (arith, h)) (
        found f etag t c r
          (map_instance_ok parse_uuid project name client.standalone_location f.instance t mapped))

    found_instance_ok :
        (answer : Result (Option Fetched × Bytes)) (w : W) (s : Run W) (o : Option Instance)
        → ports.contextual ≡ true
        → fetch_answer w ≡ answer
        → (found_instance answer s).0 ≡ ok o
        → IsLookup w o
    unfolding found_instance pure fail lift
    found_instance_ok (err e) w s o c r h = elim (Bool-cases (status_check (404 ∷ []) e)) [
      | inl u ↦
          let same_answer : none ≡ o = ground (arith, u, h) in
          subst (IsLookup w) same_answer (not_found e c r u)
      | inr u ↦ absurd (ground (arith, u, h))
    ]
    found_instance_ok (ok (inst, etag)) w s o c r h =
        let mapping = map_instance parse_uuid project name (seen inst) client.standalone_location in
        let (t, mapped, _, h2) = wrapped_then (wrap "lookup instance") (lift mapping) _ s o h in
        mapped_ok inst etag w o t c r mapped h2

    fetched_ok :
        (s : Run W) (o : Option Instance)
        → ports.contextual ≡ true
        → ((attempt (get_instance ports ctx project name) >>= found_instance) s).0 ≡ ok o
        → IsLookup s.world o
    unfolding attempt ◌>>=◌ get_instance ask
    fetched_ok s o c h = found_instance_ok _ s.world _ o c refl h

    contextual_of :
        (b : Bool) (u : Unit {0}) → require b (sentinel missing_context) ≡ ok u → b ≡ true
    contextual_of b u h = ground (arith, h)

    lookup_ok : (s : Run W) (o : Option Instance) → (lookup s).0 ≡ ok o → IsLookup s.world o
    unfolding lookup scoped lift
    lookup_ok s o h =
        let (u, e, _, h2) = wrapped_then (wrap "lookup instance") (scoped ports ctx) _ s o h in
        fetched_ok s o (contextual_of ports.contextual u e) h2

    answered_lookup : (s : Run W) (o : Option Instance) → IsLookup s.world o → (lookup s).0 ≡ ok o
    unfolding lookup scoped lift wrapped found_instance get_instance ask attempt ◌>>=◌ pure
    answered_lookup s o (not_found e c r u) = rw (c, r, u) refl
    answered_lookup s o (found f etag t c r m) =
        rw
          (
            c,
            r,
            map_instance-IsSnapshot parse_uuid project name client.standalone_location f.instance t
                m,
          )
          refl

    -- Lookup reports no instance exactly if the client has contexts and Incus answered the one fetch with status 404. It
    -- returns an instance exactly if the client has contexts and the instance is a snapshot of what was fetched, which
    -- has the name and, where it names one, the project that was asked for.
    pub lookup_iff : (s : Run W) (o : Option Instance) → ((lookup s).0 ≡ ok o) ↔ IsLookup s.world o
    lookup_iff s o = (lookup_ok s o, answered_lookup s o)
