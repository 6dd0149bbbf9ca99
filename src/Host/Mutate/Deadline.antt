-- ===== src/Host/Mutate/Deadline.antt =====
-- mutate ends by the deadline of its context.
use incus_spire_attestor.Prelude.{
  ℕ, zero, suc, ◌+◌, ◌*◌, ◌/◌, ◌≤◌, ◌<◌, ◌≡◌, ◌≢◌, inl, inr, Bool, true, false, Option, none, some,
  arith, Bytes, if◌then◌else◌, Bool-cases,
}
use incus_spire_attestor.Errors.{Result, ok, err, Error, Result-cases}
use incus_spire_attestor.Exec.{Exec, pure, fail, attempt, ◌>>=◌}
use incus_spire_attestor.Exec.Frames.{
  Preorder, Within, Within-pure, Within-fail, Within-lift, Within-attempt, Within-bind,
}
use incus_spire_attestor.Golang.Context.{Context}
use incus_spire_attestor.Golang.Maps.{Map}
use incus_spire_attestor.Attest.Types.{Instance}
use incus_spire_attestor.Host.Retry.{initial_retry_delay, next_retry_delay}
use incus_spire_attestor.Host.Ports.{
  Ports, Run, ask, wait, InstancePut, Fetched, scoped, get_instance, update_instance,
  await_operation,
}
use incus_spire_attestor.Host.Mutate.{
  finish, submit, edit, revalidate, mutate_once, conclude, mutate_from, mutate,
}
use incus_spire_attestor.Host.Mutate.Rounds.{is_final}

-- What a clock and a context with this deadline promise: calls take no negative time; a wait that is not cut off began
-- before the deadline and takes at least its delay.
pub record Clock {W : Type 0} (ports : Ports W) (ctx : Context) (now : W → ℕ) (deadline : ℕ)
    : Type 0 where
  pub read_onward :
      (project name : Bytes) (w : W) → now w ≤ now (ports.get_instance ctx project name w).1
  pub update_onward :
      (project name etag : Bytes) (put : InstancePut) (w : W)
      → now w ≤ now (ports.update_instance ctx project name put etag w).1
  pub await_onward : (op : ℕ) (w : W) → now w ≤ now (ports.await_operation ctx op w).1
  pub wait_onward :
      (delay : ℕ) (w : W)
      → (ports.wait ctx delay w).0 ≡ ok tt
      → (now w < deadline) × (now w + delay ≤ now (ports.wait ctx delay w).1)

next_retry_delay-least :
    (d : ℕ) → initial_retry_delay ≤ d → initial_retry_delay ≤ next_retry_delay d
unfolding next_retry_delay
next_retry_delay-least d h = ground arith

-- The fuel that covers this time: one round for each 25 ms, and two more.
unfoldable pub mutate_fuel : ℕ → ℕ
mutate_fuel time = suc (suc (time / initial_retry_delay))

module _ {W : Type 0} (ports : Ports W) (parse_uuid : Bytes → Option Bytes) (ctx : Context)
    (target : Instance) (key : Bytes) (nonce : Option Bytes) (now : W → ℕ) (deadline : ℕ)
    (clock : Clock ports ctx now deadline) where
  Onward : Run W → Run W → Type 0
  Onward s t = now s.world ≤ now t.world

  onward : Preorder Onward
  unfolding Onward
  onward = record { none = λ s. omega arith; both = λ s t u h k. omega (arith, h, k) }

  finish-Onward : (op : Option ℕ) → Within Onward (finish ports parse_uuid ctx target key nonce op)
  unfolding finish Onward await_operation ask
  finish-Onward none = Within-fail onward _
  finish-Onward (some op) = record { change = λ s. clock.await_onward op s.world }

  submit-Onward :
      (writable : InstancePut) (etag : Bytes) (c : Option Map)
      → Within Onward (submit ports parse_uuid ctx target key nonce writable etag c)
  unfolding submit Onward update_instance ask
  submit-Onward writable etag none = Within-pure onward _
  submit-Onward writable etag (some config) =
      Within-bind onward (record { change = λ s. clock.update_onward _ _ etag _ s.world })
        finish-Onward

  give_in-Onward :
      (b : Bool) (e : Error)
      → Within Onward (if b then pure tt else fail {S = Run W} {A = Unit {0}} e)
  give_in-Onward true e = Within-pure onward tt
  give_in-Onward false e = Within-fail onward e

  edit-Onward :
      (current : Option Fetched) (etag : Bytes) (r : Result (Unit {0}))
      → Within Onward (edit ports parse_uuid ctx target key nonce current etag r)
  unfolding edit
  edit-Onward (some f) etag (ok _) = submit-Onward f.writable etag _
  edit-Onward none etag (ok _) = Within-pure onward tt
  edit-Onward (some f) etag (err e) = give_in-Onward _ e
  edit-Onward none etag (err e) = give_in-Onward _ e

  revalidate-Onward :
      (answer : Result (Option Fetched × Bytes))
      → Within Onward (revalidate ports parse_uuid ctx target key nonce answer)
  unfolding revalidate
  revalidate-Onward (err e) = give_in-Onward _ e
  revalidate-Onward (ok (current, etag)) = edit-Onward current etag _

  mutate_once-Onward : Within Onward (mutate_once ports parse_uuid ctx target key nonce)
  unfolding mutate_once scoped get_instance ask Onward
  mutate_once-Onward = Within-bind onward (Within-lift onward _) (λ _.
      Within-bind onward
        (Within-attempt onward (record { change = λ s. clock.read_onward _ _ s.world }))
        revalidate-Onward)

  attempt_onward :
      (s : Run W) → now s.world ≤ now (mutate_once ports parse_uuid ctx target key nonce s).1.world
  unfolding Onward
  attempt_onward s = mutate_once-Onward.change s

  pause-ends :
      (delay : ℕ) (rest : Exec (Run W) (Option (Unit {0}))) (s : Run W)
      → ((t : Run W)
          → now s.world < deadline
          → now s.world + delay ≤ now t.world
          → (rest t).0 ≢ ok none)
      → ((wait ports ctx delay >>= λ _. rest) s).0 ≢ ok none
  unfolding wait ask ◌>>=◌
  pause-ends delay rest s later = elim (Result-cases (ports.wait ctx delay s.world).0) [
    | inl (_, e) ↦
        let (before, onward) = clock.wait_onward delay s.world e in rw e (later _ before onward)
    | inr (x, e) ↦ rw e (λ h. cc)
  ]

  conclude-ends :
      (delay : ℕ) (rest : Exec (Run W) (Option (Unit {0}))) (r : Result (Unit {0})) (s : Run W)
      → ((t : Run W)
          → now s.world < deadline
          → now s.world + delay ≤ now t.world
          → (rest t).0 ≢ ok none)
      → (conclude ports parse_uuid ctx target key nonce delay rest r s).0 ≢ ok none
  unfolding conclude pure fail
  conclude-ends delay rest (ok _) s later = λ h. cc
  conclude-ends delay rest (err e) s later = elim (Bool-cases (is_final e)) [
    | inl f ↦ rw f (λ h. cc)
    | inr f ↦ rw f (pause-ends delay rest s later)
  ]

  mutate_from-ends :
      (fuel delay : ℕ) (s : Run W)
      → initial_retry_delay ≤ delay
      → deadline ≤ now s.world + fuel * initial_retry_delay
      → (mutate_from ports parse_uuid ctx target key nonce (suc fuel) delay s).0 ≢ ok none
  unfolding mutate_from attempt ◌>>=◌
  mutate_from-ends zero delay s long late =
      conclude-ends delay _ _ _
        (λ t before _. absurd (omega (arith, late, before, attempt_onward s)))
  mutate_from-ends (suc fuel) delay s long late = conclude-ends delay _ _ _ (λ t before onward.
      mutate_from-ends fuel (next_retry_delay delay) t (next_retry_delay-least delay long)
        (omega (arith, late, onward, long, attempt_onward s)))

  -- On a clock, and under a context whose deadline is at most this time away, mutate returns: the loop ends
  -- with a success or an error before its fuel does.
  pub mutate_terminates :
      (time : ℕ) (s : Run W)
      → deadline ≤ now s.world + time
      → (mutate ports parse_uuid ctx target key nonce (mutate_fuel time) s).0 ≢ ok none
  unfolding mutate mutate_fuel
  mutate_terminates time s near =
      mutate_from-ends (suc (time / initial_retry_delay)) initial_retry_delay s (omega arith)
        (omega (arith, near))
