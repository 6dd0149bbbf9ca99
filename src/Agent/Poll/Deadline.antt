-- ===== src/Agent/Poll/Deadline.antt =====
-- The polling ends by the deadline.
use incus_spire_attestor.Prelude.{
  ℕ, zero, suc, ◌+◌, ◌*◌, ◌/◌, ◌≤◌, ◌<◌, ◌≡◌, refl, ◌≢◌, ◌⊎◌, inl, inr, Option, none, some, arith,
  Bytes,
}
use incus_spire_attestor.Errors.{Result, ok, err, Error}
use incus_spire_attestor.Exec.{Exec, pure, fail, attempt, ◌>>=◌}
use incus_spire_attestor.Golang.Context.{Context, rpc, with_timeout}
use incus_spire_attestor.Agent.Ports.{Ports, Run, ask}
use incus_spire_attestor.Agent.Poll.{
  initial_poll_delay, next_poll_delay, Verdict, found, failed, again, judge, read_config, report,
  wait, poll, conclude, poll_fuel, poll_config,
}

next_poll_delay-least : (d : ℕ) → initial_poll_delay ≤ d → initial_poll_delay ≤ next_poll_delay d
unfolding next_poll_delay
next_poll_delay-least d h = ground arith

-- What a clock and a context with this deadline promise: reads take no negative time; a wait that is not
-- cut off began before the deadline and takes at least its delay.
pub record Clock {W : Type 0} (ports : Ports W) (ctx : Context) (now : W → ℕ) (deadline : ℕ)
    : Type 0 where
  pub read_onward : (key : Bytes) (w : W) → now w ≤ now (ports.read_config ctx key w).1
  pub wait_onward :
      (delay : ℕ) (w : W)
      → (ports.wait ctx delay w).0 ≡ ok tt
      → (now w < deadline) × (now w + delay ≤ now (ports.wait ctx delay w).1)

module _ {W : Type 0} (ports : Ports W) (ctx : Context) (now : W → ℕ) (deadline : ℕ)
    (clock : Clock ports ctx now deadline) where
  Waited : ℕ → Run W → Type 0
  Waited delay s =
      ((wait ports ctx delay s).0 ≡ ok tt)
      × (now s.world < deadline)
      × (now s.world + delay ≤ now (wait ports ctx delay s).1.world)

  reported :
      (cause : Option Error) (r : Result (Unit {0}))
      → ((report cause r ≡ ok tt) × (r ≡ ok tt)) ⊎ ((e : Error) × (report cause r ≡ err e))
  unfolding report
  reported cause (ok _) = inl (refl, refl)
  reported (some cause) (err e) = inr (_, refl)
  reported none (err e) = inr (_, refl)

  wait_cases :
      (delay : ℕ) (s : Run W)
      → Waited delay s ⊎ ((e : Error) × ((wait ports ctx delay s).0 ≡ err e))
  unfolding Waited wait ask
  wait_cases delay s =
      elim (reported (ports.context_err ctx (ports.wait ctx delay s.world).1)
        (ports.wait ctx delay s.world).0) [
          | inl (fine, e) ↦
              let (before, onward) = clock.wait_onward delay s.world e in inl (fine, before, onward)
          | inr cut ↦ inr cut
        ]

  -- A round with enough fuel behind it does not run out, if the rounds behind it do not.
  conclude-ends :
      (delay : ℕ) (rest : Exec (Run W) (Option Bytes)) (v : Verdict) (s : Run W)
      → (Waited delay s → (rest (wait ports ctx delay s).1).0 ≢ ok none)
      → (conclude ports ctx delay rest v s).0 ≢ ok none
  unfolding conclude pure fail ◌>>=◌ Waited
  conclude-ends delay rest (found value) s later = λ h. cc
  conclude-ends delay rest (failed e) s later = λ h. cc
  conclude-ends delay rest again s later = elim (wait_cases delay s) [
    | inl fine ↦ rw (fine.0) (later fine)
    | inr (e, cut) ↦ rw cut (λ h. cc)
  ]

  poll-ends :
      (fuel : ℕ) (key : Bytes) (delay : ℕ) (s : Run W)
      → initial_poll_delay ≤ delay
      → deadline ≤ now s.world + initial_poll_delay * fuel
      → (poll ports ctx (suc fuel) key delay s).0 ≢ ok none
  unfolding poll attempt ◌>>=◌ ask read_config Waited
  poll-ends zero key delay s long late =
      conclude-ends delay _ (judge _) _
        (λ (_, before, _). absurd (omega (arith, late, before, clock.read_onward key s.world)))
  poll-ends (suc fuel) key delay s long late =
      conclude-ends delay _ (judge _) _ (λ (_, before, onward).
        poll-ends fuel key (next_poll_delay delay) _ (next_poll_delay-least delay long)
          (omega (arith, late, onward, long, clock.read_onward key s.world)))

-- On a clock, and with a deadline at most `poll_timeout` away, pollConfig returns: the loop ends with a value or an
-- error before its fuel does.
pub poll_config_terminates :
    {W : Type 0} (ports : Ports W) (now : W → ℕ) (poll_timeout deadline : ℕ) (key : Bytes)
    (s : Run W)
    → Clock ports (with_timeout rpc poll_timeout) now deadline
    → deadline ≤ now s.world + poll_timeout
    → (poll_config ports poll_timeout key s).0 ≢ ok none
unfolding poll_config poll_fuel
poll_config_terminates ports now poll_timeout deadline key s clock near =
    poll-ends ports (with_timeout rpc poll_timeout) now deadline clock
      (poll_timeout / initial_poll_delay + 1) key initial_poll_delay s (omega arith)
      (omega (arith, near))
