-- ===== src/Host/Mutate.antt =====
-- mutation.go: the set and the unset of one configuration key.
pub mod Deadline
pub mod Applied
pub mod Rounds
pub mod Outcome
pub mod LastAttempt
pub mod Attempts
use incus_spire_attestor.Prelude.{
  ℕ, zero, suc, String, Bool, true, false, not, ◌&&◌, ◌||◌, Option, none, some, [], ◌∷◌, Bytes,
  if◌then◌else◌,
}
use incus_spire_attestor.Errors.{
  Result, ok, err, Error, text, wrap, is, replaced_target, canceled, deadline_exceeded, as_status,
}
use incus_spire_attestor.Exec.{Exec, pure, fail, attempt, wrapped, ◌>>=◌}
use incus_spire_attestor.Golang.Context.{Context}
use incus_spire_attestor.Golang.Maps.{Map}
use incus_spire_attestor.Golang.Maps
use incus_spire_attestor.Attest.Types.{Instance}
use incus_spire_attestor.Host.Snapshot.{ApiInstance, match_resolved_target}
use incus_spire_attestor.Host.Retry.{
  initial_retry_delay, next_retry_delay, is_retryable, status_check,
}
use incus_spire_attestor.Host.Ports.{
  InstancePut, Fetched, Ports, Run, scoped, get_instance, update_instance, await_operation, wait,
}

-- Whether the nonce pointer is nil.
abbrev pub is_unset : Option Bytes → Bool
is_unset none = true
is_unset (some nonce) = false

-- The edit of the copied configuration; nothing where the key to remove is absent.
unfoldable pub change : Option Bytes → Bytes → Map → Option Map
change none key config = elim (Maps.lookup key config) [
  | none ↦ none
  | some value ↦ some (Maps.delete key config)
]
change (some nonce) key config = some (Maps.insert key nonce config)

-- What matchResolvedTarget is given of a fetched instance.
abbrev pub seen : Option Fetched → Option ApiInstance
seen none = none
seen (some f) = some f.instance

module _ {W : Type 0} (ports : Ports W) (parse_uuid : Bytes → Option Bytes) (ctx : Context)
    (target : Instance) (key : Bytes) (nonce : Option Bytes) where
  -- The wait for the operation of an update.
  unfoldable pub finish : Option ℕ → Exec (Run W) (Unit {0})
  finish none = fail (text "update instance returned no operation")
  finish (some op) = await_operation ports ctx op

  -- The update, where there is something to change.
  unfoldable pub submit : InstancePut → Bytes → Option Map → Exec (Run W) (Unit {0})
  submit writable etag none = pure tt
  submit writable etag (some config) = do
    op ←
        update_instance ports ctx target.project target.name (record writable { config = config })
          etag
    finish op

  -- The rest behind the identity test.
  unfoldable pub edit : Option Fetched → Bytes → Result (Unit {0}) → Exec (Run W) (Unit {0})
  edit (some f) etag (ok _) = submit f.writable etag (change nonce key f.writable.config)
  edit none etag (ok _) = pure tt
  edit current etag (err e) = if is_unset nonce && is replaced_target e then pure tt else fail e

  -- The rest behind the fetch.
  unfoldable pub revalidate : Result (Option Fetched × Bytes) → Exec (Run W) (Unit {0})
  revalidate (err e) = if is_unset nonce && status_check (404 ∷ []) e then pure tt else fail e
  revalidate (ok (current, etag)) =
      edit current etag (match_resolved_target parse_uuid target (seen current))

  -- mutateOnce.
  unfoldable pub mutate_once : Exec (Run W) (Unit {0})
  mutate_once = do
    _ ← scoped ports ctx
    answer ← attempt (get_instance ports ctx target.project target.name)
    revalidate answer

  -- The rest of a round of mutate, and of the loop behind it.
  unfoldable pub conclude :
      ℕ → Exec (Run W) (Option (Unit {0})) → Result (Unit {0}) → Exec (Run W) (Option (Unit {0}))
  conclude delay rest (ok _) = pure (some tt)
  conclude delay rest (err e) =
      if is replaced_target e || not (is_retryable e)
      then fail e
      else wait ports ctx delay >>= λ _. rest

  -- The loop of mutate; `none` is the end of the fuel.
  unfoldable pub mutate_from : ℕ → ℕ → Exec (Run W) (Option (Unit {0}))
  mutate_from zero delay = pure none
  mutate_from (suc fuel) delay = do
    answer ← attempt mutate_once
    conclude delay (mutate_from fuel (next_retry_delay delay)) answer

  -- mutate.
  unfoldable pub mutate : ℕ → Exec (Run W) (Option (Unit {0}))
  mutate fuel = mutate_from fuel initial_retry_delay

-- mutationMessage: fixed texts only; the status that `%d` prints is left out.
unfoldable pub mutation_message : String → String → String → String → Error → String
mutation_message action replaced stopped late e = elim (as_status e) [
  | some status ↦ action
  | none ↦
      if is replaced_target e
      then replaced
      else if is canceled e
      then stopped
      else if is deadline_exceeded e
      then late
      else action
]

-- wrapMutation around SetNonce: the cause stays inspectable.
unfoldable pub set_error : Error → Error
set_error e =
    wrap
      (mutation_message "set nonce" "set nonce: instance was replaced" "set nonce: context canceled"
        "set nonce: context deadline exceeded" e)
      e

-- wrapMutation around UnsetNonce.
unfoldable pub unset_error : Error → Error
unset_error e =
    wrap
      (mutation_message "unset nonce" "unset nonce: instance was replaced"
        "unset nonce: context canceled" "unset nonce: context deadline exceeded" e)
      e

module _ {W : Type 0} (ports : Ports W) (parse_uuid : Bytes → Option Bytes) (fuel : ℕ)
    (ctx : Context) (target : Instance) (key : Bytes) where
  -- SetNonce.
  unfoldable pub set_nonce : Bytes → Exec (Run W) (Option (Unit {0}))
  set_nonce nonce = wrapped set_error (mutate ports parse_uuid ctx target key (some nonce) fuel)

  -- UnsetNonce.
  unfoldable pub unset_nonce : Exec (Run W) (Option (Unit {0}))
  unset_nonce = wrapped unset_error (mutate ports parse_uuid ctx target key none fuel)
