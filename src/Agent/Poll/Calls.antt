-- ===== src/Agent/Poll/Calls.antt =====
-- The calls of a polling that found a value.
use incus_spire_attestor.Prelude.{
  ℕ, zero, suc, ◌≡◌, refl, sym, ap, ◌∙◌, subst, ◌⊎◌, inl, inr, Option, none, some, List, [], ◌∷◌,
  ◌++◌, append_assoc, arith, Bytes, All,
}
use incus_spire_attestor.Errors.{Result, ok, err}
use incus_spire_attestor.Exec.{Exec, pure, fail, attempt, ◌>>=◌, then_of}
use incus_spire_attestor.Golang.Context.{Context, rpc, with_timeout}
use incus_spire_attestor.Agent.Ports.{Event, config_read, waited, Ports, Run, ask}
use incus_spire_attestor.Agent.Poll.{
  next_poll_delay, Verdict, found, failed, again, judge, read_config, wait, poll, conclude,
  poll_fuel, poll_config,
}

-- A read of this key, or a wait.
abbrev pub IsPolling : Context → Bytes → Event → Type 0
IsPolling ctx key e =
    ((r : Result (Option Bytes)) × (e ≡ config_read ctx key r))
    ⊎ ((delay : ℕ) × (r : Result (Unit {0})) × (e ≡ waited ctx delay r))

-- The value was the answer of the last read; before it, the same key was read, and there were waits.
pub record IsPolled (ctx : Context) (key value : Bytes) (before after : List Event) : Type 0 where
  pub earlier : List Event
  pub only_polling : All (IsPolling ctx key) earlier
  pub calls : after ≡ before ++ (earlier ++ config_read ctx key (ok (some value)) ∷ [])

judge_found :
    (r : Result (Option Bytes)) (value : Bytes) → judge r ≡ found value → r ≡ ok (some value)
unfolding judge
judge_found (ok (some v)) value h = ground (arith, h)
judge_found (ok none) value h = cc
judge_found (err e) value h = absurd (ground (arith, h))

module _ {W : Type 0} (ports : Ports W) (ctx : Context) where
  -- How a round can end with a value: it was found, or the rounds behind the wait found it.
  conclude_ok :
      (delay : ℕ) (rest : Exec (Run W) (Option Bytes)) (v : Verdict) (s : Run W) (value : Bytes)
      → (conclude ports ctx delay rest v s).0 ≡ ok (some value)
      → ((v ≡ found value) × ((conclude ports ctx delay rest v s).1 ≡ s))
        ⊎ ((conclude ports ctx delay rest v s ≡ rest (wait ports ctx delay s).1)
            × ((rest (wait ports ctx delay s).1).0 ≡ ok (some value)))
  unfolding conclude pure fail
  conclude_ok delay rest (found x) s value h = inl (ground (arith, h), refl)
  conclude_ok delay rest (failed e) s value h = cc
  conclude_ok delay rest again s value h =
      let (_, _, e, h') = then_of (wait ports ctx delay) (λ _. rest) s (some value) h in inr (e, h')

  wait-trace :
      (delay : ℕ) (s : Run W)
      → (wait ports ctx delay s).1.trace
        ≡ s.trace ++ waited ctx delay (ports.wait ctx delay s.world).0 ∷ []
  unfolding wait ask
  wait-trace delay s = refl

  -- A read and a wait before a polling make a polling.
  earlier_round :
      (key value : Bytes) (before after : List Event) (r : Result (Option Bytes)) (delay : ℕ)
      (w : Result (Unit {0}))
      → IsPolled ctx key value
          ((before ++ config_read ctx key r ∷ []) ++ waited ctx delay w ∷ [])
          after
      → IsPolled ctx key value before after
  earlier_round key value before after r delay w p = record {
    earlier = config_read ctx key r ∷ waited ctx delay w ∷ p.earlier;
    only_polling = (inl (r, refl), (inr (delay, w, refl), p.only_polling));
    calls = p.calls ∙ simp append_assoc;
  }

  poll_ok :
      (fuel : ℕ) (key : Bytes) (delay : ℕ) (s : Run W) (value : Bytes)
      → (poll ports ctx fuel key delay s).0 ≡ ok (some value)
      → IsPolled ctx key value s.trace (poll ports ctx fuel key delay s).1.trace
  unfolding poll attempt ◌>>=◌ ask read_config pure
  poll_ok zero key delay s value h = cc
  poll_ok (suc fuel) key delay s value h =
      let r = (ports.read_config ctx key s.world).0 in
      let s1 = (read_config ports ctx key s).1 in
      let rest = poll ports ctx fuel key (next_poll_delay delay) in
      elim (conclude_ok delay rest (judge r) s1 value h) [
        | inl (v, same_state) ↦ record {
          earlier = [];
          only_polling = tt;
          calls =
              ap (λ (t : Run W). t.trace) same_state
              ∙ ap (λ a. s.trace ++ config_read ctx key a ∷ []) (judge_found r value v);
        }
        | inr (e, h') ↦
            let later =
              poll_ok fuel key (next_poll_delay delay) (wait ports ctx delay s1).1 value h' in
            earlier_round key value s.trace _ r delay (ports.wait ctx delay s1.world).0 (
              subst (IsPolled ctx key value _)
                (ap (λ (p : Result (Option Bytes) × Run W). p.1.trace) (sym e))
                (subst (λ t. IsPolled ctx key value t (rest (wait ports ctx delay s1).1).1.trace)
                  (wait-trace delay s1) later))
      ]

-- A value that pollConfig returns is the answer to its last read of the key, under the poll deadline;
-- before that, nothing was called but reads of that key and waits.
pub poll_config_ok :
    {W : Type 0} (ports : Ports W) (poll_timeout : ℕ) (key : Bytes) (s : Run W) (value : Bytes)
    → (poll_config ports poll_timeout key s).0 ≡ ok (some value)
    → IsPolled
        (with_timeout rpc poll_timeout)
        key
        value
        s.trace
        (poll_config ports poll_timeout key s).1.trace
unfolding poll_config
poll_config_ok ports poll_timeout key s value h =
    poll_ok ports (with_timeout rpc poll_timeout) (poll_fuel poll_timeout) key _ s value h
