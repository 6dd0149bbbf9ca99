-- ===== src/Host/Mutate/Attempts.antt =====
-- One attempt of mutate: its calls with their answers, and its result, as a relation, and that the code keeps to it.
use incus_spire_attestor.Prelude.{
  ℕ, ◌≡◌, refl, sym, ◌∙◌, inl, inr, Bool, true, false, ◌&&◌, Option, none, some, List, [], ◌∷◌,
  ◌++◌, append-nil, append_assoc, arith, Bytes, Bool-cases,
}
use incus_spire_attestor.Errors.{
  Result, ok, err, Error, text, sentinel, is, replaced_target, missing_context, require,
}
use incus_spire_attestor.Exec.{Exec, pure, fail, attempt, ◌>>=◌, continue, lift}
use incus_spire_attestor.Golang.Context.{Context}
use incus_spire_attestor.Golang.Maps.{Map}
use incus_spire_attestor.Attest.Types.{Instance}
use incus_spire_attestor.Host.Snapshot.{match_resolved_target}
use incus_spire_attestor.Host.Identity.{match_cases}
use incus_spire_attestor.Host.Retry.{status_check}
use incus_spire_attestor.Host.Ports.{
  Fetched, Event, fetched, updated, awaited, Ports, Run, ask, scoped, get_instance, update_instance,
  await_operation,
}
use incus_spire_attestor.Host.Mutate.{
  is_unset, change, seen, finish, submit, edit, revalidate, mutate_once,
}

module _ (parse_uuid : Bytes → Option Bytes) (ctx : Context) (target : Instance) (key : Bytes)
    (nonce : Option Bytes) where
  abbrev pub read_event : Result (Option Fetched × Bytes) → Event
  read_event answer = fetched ctx target.project target.name answer

  -- The update that sends back what was fetched, with this configuration and the ETag of the fetch.
  abbrev pub update_event : Fetched → Bytes → Map → Result (Option ℕ) → Event
  update_event f etag config answer =
      updated ctx target.project target.name (record f.writable { config = config }) etag answer

  -- The fetched instance is the target, and there is something to change.
  pub record IsChange (f : Fetched) (config : Map) : Type 0 where
    pub same_target : match_resolved_target parse_uuid target (some f.instance) ≡ ok tt
    pub edited : change nonce key f.writable.config ≡ some config

  -- The calls of one attempt and its result.
  pub data IsAttempt : List Event → Result (Unit {0}) → Type 0 where
    unscoped : IsAttempt [] (err (sentinel missing_context))
    absent :
        (e : Error)
        → is_unset nonce ≡ true
        → status_check (404 ∷ []) e ≡ true
        → IsAttempt (read_event (err e) ∷ []) (ok tt)
    unread :
        (e : Error)
        → (is_unset nonce && status_check (404 ∷ []) e) ≡ false
        → IsAttempt (read_event (err e) ∷ []) (err e)
    gone :
        (current : Option Fetched) (etag : Bytes)
        → is_unset nonce ≡ true
        → match_resolved_target parse_uuid target (seen current) ≡ err (sentinel replaced_target)
        → IsAttempt (read_event (ok (current, etag)) ∷ []) (ok tt)
    replaced :
        (current : Option Fetched) (etag : Bytes)
        → is_unset nonce ≡ false
        → match_resolved_target parse_uuid target (seen current) ≡ err (sentinel replaced_target)
        → IsAttempt (read_event (ok (current, etag)) ∷ []) (err (sentinel replaced_target))
    unchanged :
        (f : Fetched) (etag : Bytes)
        → match_resolved_target parse_uuid target (some f.instance) ≡ ok tt
        → change nonce key f.writable.config ≡ none
        → IsAttempt (read_event (ok (some f, etag)) ∷ []) (ok tt)
    rejected :
        (f : Fetched) (etag : Bytes) (config : Map) (e : Error)
        → IsChange f config
        → IsAttempt
            (read_event (ok (some f, etag)) ∷ update_event f etag config (err e) ∷ [])
            (err e)
    no_operation :
        (f : Fetched) (etag : Bytes) (config : Map)
        → IsChange f config
        → IsAttempt
            (read_event (ok (some f, etag)) ∷ update_event f etag config (ok none) ∷ [])
            (err (text "update instance returned no operation"))
    completed :
        (f : Fetched) (etag : Bytes) (config : Map) (op : ℕ) (r : Result (Unit {0}))
        → IsChange f config
        → IsAttempt
            (read_event (ok (some f, etag))
              ∷ update_event f etag config (ok (some op))
              ∷ awaited ctx op r
              ∷ [])
            r

  module _ {W : Type 0} where
    -- A step behind these calls completes an attempt.
    pub record Completes (before : List Event) (m : Exec (Run W) (Unit {0})) (s : Run W)
        : Type 0 where
      pub more : List Event
      pub calls : (m s).1.trace ≡ s.trace ++ more
      pub as_attempt : IsAttempt (before ++ more) (m s).0

    module _ (ports : Ports W) where
      respond-Completes :
          (f : Fetched) (etag : Bytes) (config : Map) (answer : Result (Option ℕ)) (s : Run W)
          → IsChange f config
          → Completes
              (read_event (ok (some f, etag)) ∷ update_event f etag config answer ∷ [])
              (continue answer (finish ports parse_uuid ctx target key nonce))
              s
      unfolding finish fail await_operation ask
      respond-Completes f etag config (err e) s c = record {
        more = [];
        calls = sym (append-nil _);
        as_attempt = rejected f etag config e c;
      }
      respond-Completes f etag config (ok none) s c = record {
        more = [];
        calls = sym (append-nil _);
        as_attempt = no_operation f etag config c;
      }
      respond-Completes f etag config (ok (some op)) s c = record {
        more = awaited ctx op (ports.await_operation ctx op s.world).0 ∷ [];
        calls = refl;
        as_attempt = completed f etag config op _ c;
      }

      submit-Completes :
          (f : Fetched) (etag : Bytes) (c : Option Map) (s : Run W)
          → match_resolved_target parse_uuid target (some f.instance) ≡ ok tt
          → change nonce key f.writable.config ≡ c
          → Completes
              (read_event (ok (some f, etag)) ∷ [])
              (submit ports parse_uuid ctx target key nonce f.writable etag c)
              s
      unfolding submit pure ◌>>=◌ update_instance ask
      submit-Completes f etag none s t c = record {
        more = [];
        calls = sym (append-nil _);
        as_attempt = unchanged f etag t c;
      }
      submit-Completes f etag (some config) s t c =
          let (answer, w) =
            ports.update_instance ctx target.project target.name
              (record f.writable { config = config }) etag s.world in
          let call = update_event f etag config answer in
          let done =
            respond-Completes f etag config answer
              (record { world = w; trace = s.trace ++ call ∷ [] })
              (record { same_target = t; edited = c }) in
          record {
            more = call ∷ done.more;
            calls = done.calls ∙ append_assoc s.trace (call ∷ []) done.more;
            as_attempt = done.as_attempt;
          }

      refusal-Completes :
          (current : Option Fetched) (etag : Bytes) (s : Run W)
          → match_resolved_target parse_uuid target (seen current) ≡ err (sentinel replaced_target)
          → Completes
              (read_event (ok (current, etag)) ∷ [])
              (edit ports parse_uuid ctx target key nonce current etag
                (err (sentinel replaced_target)))
              s
      unfolding edit pure fail is
      refusal-Completes current etag s m = elim (Bool-cases (is_unset nonce)) [
        | inl u ↦
            rw u
              (record { more = []; calls = sym (append-nil _); as_attempt = gone current etag u m })
        | inr u ↦ rw u (record {
          more = [];
          calls = sym (append-nil _);
          as_attempt = replaced current etag u m;
        })
      ]

      edit-Completes :
          (current : Option Fetched) (etag : Bytes) (s : Run W)
          → Completes
              (read_event (ok (current, etag)) ∷ [])
              (edit ports parse_uuid ctx target key nonce current etag
                (match_resolved_target parse_uuid target (seen current)))
              s
      unfolding edit match_resolved_target
      edit-Completes none etag s = refusal-Completes none etag s refl
      edit-Completes (some f) etag s = elim (match_cases parse_uuid target (some f.instance)) [
        | inl m ↦ rw m (submit-Completes f etag _ s m refl)
        | inr m ↦ rw m (refusal-Completes (some f) etag s m)
      ]

      revalidate-Completes :
          (answer : Result (Option Fetched × Bytes)) (s : Run W)
          → Completes
              (read_event answer ∷ [])
              (revalidate ports parse_uuid ctx target key nonce answer)
              s
      unfolding revalidate pure fail
      revalidate-Completes (ok (current, etag)) s = edit-Completes current etag s
      revalidate-Completes (err e) s =
          elim (Bool-cases (is_unset nonce && status_check (404 ∷ []) e)) [
            | inl u ↦ rw u (record {
              more = [];
              calls = sym (append-nil _);
              as_attempt = absent e (ground (arith, u)) (ground (arith, u));
            })
            | inr u ↦
                rw u (record { more = []; calls = sym (append-nil _); as_attempt = unread e u })
          ]

      scoped-Completes :
          (contextual : Bool) (m : Exec (Run W) (Unit {0})) (s : Run W)
          → Completes [] m s
          → Completes [] (lift (require contextual (sentinel missing_context)) >>= λ _. m) s
      unfolding lift ◌>>=◌
      scoped-Completes true m s c = record {
        more = c.more;
        calls = c.calls;
        as_attempt = c.as_attempt;
      }
      scoped-Completes false m s c = record {
        more = [];
        calls = sym (append-nil _);
        as_attempt = unscoped;
      }

      -- An attempt of the code, whatever it is answered, is one of the relation.
      pub mutate_once-Completes :
          (s : Run W) → Completes [] (mutate_once ports parse_uuid ctx target key nonce) s
      unfolding mutate_once scoped ◌>>=◌ attempt get_instance ask
      mutate_once-Completes s =
          let (answer, w) = ports.get_instance ctx target.project target.name s.world in
          let call = read_event answer in
          let done =
            revalidate-Completes answer (record { world = w; trace = s.trace ++ call ∷ [] }) in
          scoped-Completes ports.contextual _ s (record {
            more = call ∷ done.more;
            calls = done.calls ∙ append_assoc s.trace (call ∷ []) done.more;
            as_attempt = done.as_attempt;
          })
