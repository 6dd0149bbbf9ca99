-- ===== src/Host/Mutate/Outcome.antt =====
-- The ways in which an attempt of mutate succeeds, with the calls that it ends with.
use incus_spire_attestor.Prelude.{
  List, ◌++◌, append_assoc, ℕ, ◌≡◌, refl, sym, ap, ◌∙◌, subst, inl, inr, true, ◌&&◌, Option, none,
  some, [], ◌∷◌, arith, Bytes, Bool-cases,
}
use incus_spire_attestor.Errors.{Result, ok, err, Error, sentinel, replaced_target, is}
use incus_spire_attestor.Exec.{pure, fail, attempt, continue, ◌>>=◌, lift_then}
use incus_spire_attestor.Golang.Context.{Context}
use incus_spire_attestor.Golang.Maps.{Map}
use incus_spire_attestor.Attest.Types.{Instance}
use incus_spire_attestor.Host.Snapshot.{match_resolved_target}
use incus_spire_attestor.Host.Retry.{status_check}
use incus_spire_attestor.Host.Ports.{
  Event, fetched, updated, awaited, Fetched, Ports, Run, ask, scoped, get_instance, update_instance,
  await_operation,
}
use incus_spire_attestor.Host.Mutate.{
  is_unset, change, seen, finish, submit, edit, revalidate, mutate_once,
}
use incus_spire_attestor.Host.Identity.{match_cases}

module _ {W : Type 0} (ports : Ports W) (parse_uuid : Bytes → Option Bytes) (ctx : Context)
    (target : Instance) (key : Bytes) (nonce : Option Bytes) where
  -- The last call since `s` was a fetch with this answer.
  pub record IsFetch (s after : Run W) (answer : Result (Option Fetched × Bytes)) : Type 0 where
    pub earlier : List Event
    pub before : W
    pub read : ports.get_instance ctx target.project target.name before ≡ (answer, after.world)
    pub calls :
        after.trace ≡ s.trace ++ (earlier ++ fetched ctx target.project target.name answer ∷ [])

  -- The last three calls since `s` were the fetch of the target, its update, and the wait for the operation.
  pub record IsUpdated (s after : Run W) (f : Fetched) (etag : Bytes) (config : Map) (op : ℕ)
      : Type 0 where
    pub earlier : List Event
    pub before : W
    pub between : W
    pub read :
        ports.get_instance ctx target.project target.name before ≡ (ok (some f, etag), between)
    pub same_target : match_resolved_target parse_uuid target (some f.instance) ≡ ok tt
    pub edited : change nonce key f.writable.config ≡ some config
    pub accepted :
        (ports.update_instance ctx target.project target.name
          (record f.writable { config = config })
          etag
          between).0
        ≡ ok (some op)
    pub completed :
        ports.await_operation ctx op
          (ports.update_instance ctx target.project target.name
            (record f.writable { config = config })
            etag
            between).1
        ≡ (ok tt, after.world)
    pub calls :
        after.trace
        ≡ s.trace
          ++ (earlier
              ++ fetched ctx target.project target.name (ok (some f, etag))
                ∷ updated ctx target.project target.name
                    (record f.writable { config = config })
                    etag
                    (ok (some op))
                ∷ awaited ctx op (ok tt)
                ∷ [])

  -- How a mutation from the state `s` can have succeeded in the state `after`.
  pub data Success (s after : Run W) : Type 0 where
    absent :
        (e : Error)
        → is_unset nonce ≡ true
        → IsFetch s after (err e)
        → status_check (404 ∷ []) e ≡ true
        → Success s after
    gone :
        (current : Option Fetched) (etag : Bytes)
        → is_unset nonce ≡ true
        → IsFetch s after (ok (current, etag))
        → match_resolved_target parse_uuid target (seen current) ≡ err (sentinel replaced_target)
        → Success s after
    unchanged :
        (f : Fetched) (etag : Bytes)
        → IsFetch s after (ok (some f, etag))
        → match_resolved_target parse_uuid target (some f.instance) ≡ ok tt
        → change nonce key f.writable.config ≡ none
        → Success s after
    changed :
        (f : Fetched) (etag : Bytes) (config : Map) (op : ℕ)
        → IsUpdated s after f etag config op
        → Success s after

  finish_ok :
      (answer : Result (Option ℕ)) (s : Run W)
      → (continue answer (finish ports parse_uuid ctx target key nonce) s).0 ≡ ok tt
      → (op : ℕ) × (answer ≡ ok (some op))
        × (ports.await_operation ctx op s.world
            ≡ (ok tt, (continue answer (finish ports parse_uuid ctx target key nonce) s).1.world))
        × ((continue answer (finish ports parse_uuid ctx target key nonce) s).1.trace
            ≡ s.trace ++ awaited ctx op (ok tt) ∷ [])
  unfolding finish fail await_operation ask
  finish_ok (err e) s h = cc
  finish_ok (ok none) s h = cc
  finish_ok (ok (some op)) s h =
      (op, refl, ground (arith, h), ap (λ r. s.trace ++ awaited ctx op r ∷ []) h)

  -- The run behind the fetch of an attempt.
  record Fetches (s t : Run W) (answer : Result (Option Fetched × Bytes)) : Type 0 where
    read : ports.get_instance ctx target.project target.name s.world ≡ (answer, t.world)
    calls : t.trace ≡ s.trace ++ fetched ctx target.project target.name answer ∷ []

  at_once :
      {s t : Run W} {answer : Result (Option Fetched × Bytes)}
      → Fetches s t answer
      → IsFetch s t answer
  at_once r = record { earlier = []; before = _; read = r.read; calls = r.calls }

  submit_ok :
      (f : Fetched) (etag : Bytes) (c : Option Map) (s t : Run W)
      → Fetches s t (ok (some f, etag))
      → match_resolved_target parse_uuid target (some f.instance) ≡ ok tt
      → change nonce key f.writable.config ≡ c
      → (submit ports parse_uuid ctx target key nonce f.writable etag c t).0 ≡ ok tt
      → Success s (submit ports parse_uuid ctx target key nonce f.writable etag c t).1
  unfolding submit ◌>>=◌ update_instance ask pure
  submit_ok f etag none s t r m c h = unchanged f etag (at_once r) m c
  submit_ok f etag (some config) s t r m c h =
      let (op, a, b, d) = finish_ok _ _ h in
      changed f etag config op (record {
        earlier = [];
        before = s.world;
        between = t.world;
        read = r.read;
        same_target = m;
        edited = c;
        accepted = a;
        completed = b;
        calls = d ∙ (rw (a, r.calls) (simp append_assoc));
      })

  refused_unset :
      (current : Option Fetched) (etag : Bytes) (s : Run W)
      → (edit ports parse_uuid ctx target key nonce current etag
          (err (sentinel replaced_target))
          s).0
        ≡ ok tt
      → is_unset nonce ≡ true
  unfolding edit fail
  refused_unset current etag s h = ground (arith, h)

  edit_ok :
      (current : Option Fetched) (etag : Bytes) (s t : Run W)
      → Fetches s t (ok (current, etag))
      → (edit ports parse_uuid ctx target key nonce current etag
          (match_resolved_target parse_uuid target (seen current))
          t).0
        ≡ ok tt
      → Success s
          (edit ports parse_uuid ctx target key nonce current etag
            (match_resolved_target parse_uuid target (seen current))
            t).1
  unfolding edit match_resolved_target pure fail is
  edit_ok none etag s t r h =
      let u = refused_unset none etag t h in rw u (gone none etag u (at_once r) refl)
  edit_ok (some f) etag s t r h = elim (match_cases parse_uuid target (some f.instance)) [
    | inl m ↦ rw m (submit_ok f etag _ s t r m refl (rw m at h))
    | inr m ↦
        let u = refused_unset (some f) etag t (rw m at h) in
        rw (m, u) (gone (some f) etag u (at_once r) m)
  ]

  revalidate_ok :
      (answer : Result (Option Fetched × Bytes)) (s t : Run W)
      → Fetches s t answer
      → (revalidate ports parse_uuid ctx target key nonce answer t).0 ≡ ok tt
      → Success s (revalidate ports parse_uuid ctx target key nonce answer t).1
  unfolding revalidate pure fail
  revalidate_ok (ok (current, etag)) s t r h = edit_ok current etag s t r h
  revalidate_ok (err e) s t r h = elim (Bool-cases (is_unset nonce && status_check (404 ∷ []) e)) [
    | inl u ↦ rw u (absent e (ground (arith, u)) (at_once r) (ground (arith, u)))
    | inr u ↦ absurd (ground (arith, u, h))
  ]

  fetched_ok :
      (s : Run W)
      → ((attempt (get_instance ports ctx target.project target.name)
            >>= revalidate ports parse_uuid ctx target key nonce)
          s).0
        ≡ ok tt
      → Success s
          ((attempt (get_instance ports ctx target.project target.name)
              >>= revalidate ports parse_uuid ctx target key nonce)
            s).1
  unfolding attempt ◌>>=◌ get_instance ask
  fetched_ok s h = revalidate_ok _ s _ (record { read = refl; calls = refl }) h

  -- An attempt that succeeds does so in one of these ways.
  pub mutate_once_ok :
      (s : Run W)
      → (mutate_once ports parse_uuid ctx target key nonce s).0 ≡ ok tt
      → Success s (mutate_once ports parse_uuid ctx target key nonce s).1
  unfolding mutate_once scoped
  mutate_once_ok s h =
      let (_, _, e, h2) = lift_then _ _ s tt h in
      subst (λ (p : Result (Unit {0}) × Run W). Success s p.1) (sym e) (fetched_ok s h2)
