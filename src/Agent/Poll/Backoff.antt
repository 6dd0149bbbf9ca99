-- ===== src/Agent/Poll/Backoff.antt =====
-- The rounds of pollConfig: what each reads, how long it waits, and how the loop ends.
use incus_spire_attestor.Prelude.{
  ℕ, zero, suc, ◌+◌, ◌*◌, ◌^◌, ◌≡◌, refl, sym, ap, ◌∙◌, subst, Option, none, some, List, [], ◌∷◌,
  ◌++◌, append-nil, append_assoc, arith, Bytes, leb, if◌then◌else◌,
}
use incus_spire_attestor.Errors.{Result, ok, err, Error, wrap}
use incus_spire_attestor.Exec.{Exec, pure, fail, attempt, continue, ◌>>=◌}
use incus_spire_attestor.Golang.Context.{Context, rpc, with_timeout}
use incus_spire_attestor.Agent.Ports.{Event, config_read, waited, Ports, Run, ask}
use incus_spire_attestor.Agent.Poll.{
  initial_poll_delay, max_poll_delay, next_poll_delay, Verdict, found, failed, again, judge,
  read_config, report, wait, poll, conclude, poll_fuel, poll_config,
}

abbrev pub min : ℕ → ℕ → ℕ
min a b = if leb a b then a else b

-- The delay of the round with this number, from 0: 25 ms doubled so often, and at most 250 ms.
abbrev pub delay_of : ℕ → ℕ
delay_of n = min (25000000 * 2 ^ n) 250000000

next_poll_delay_lem : (a : ℕ) → next_poll_delay (min a max_poll_delay) ≡ min (a * 2) max_poll_delay
unfolding next_poll_delay
next_poll_delay_lem a = ground arith

next_poll_delay-delay_of : (n : ℕ) → next_poll_delay (delay_of n) ≡ delay_of (suc n)
next_poll_delay-delay_of n =
    next_poll_delay_lem (initial_poll_delay * 2 ^ n)
    ∙ ap (λ a. min a max_poll_delay) {x = initial_poll_delay * 2 ^ n * 2}
        {y = initial_poll_delay * 2 ^ suc n} (omega arith)

-- The calls from the round with this number on, with their answers, and the result of the loop, where the fuel ends
-- before the round with the number `limit`.
pub data IsBackoff (ctx : Context) (key : Bytes) (limit : ℕ)
    : ℕ → List Event → Result (Option Bytes) → Type 0 where
  answered :
      {n : ℕ} (r : Result (Option Bytes)) (value : Bytes)
      → judge r ≡ found value
      → IsBackoff ctx key limit n (config_read ctx key r ∷ []) (ok (some value))
  refused :
      {n : ℕ} (r : Result (Option Bytes)) (e : Error)
      → judge r ≡ failed e
      → IsBackoff ctx key limit n (config_read ctx key r ∷ []) (err e)
  cut_off :
      {n : ℕ} (r : Result (Option Bytes)) (e cause : Error)
      → judge r ≡ again
      → IsBackoff ctx key limit n
          (config_read ctx key r ∷ waited ctx (delay_of n) (err e) ∷ [])
          (err (wrap "poll config" cause))
  next_round :
      {n : ℕ} {later : List Event} {result : Result (Option Bytes)} (r : Result (Option Bytes))
      → judge r ≡ again
      → IsBackoff ctx key limit (suc n) later result
      → IsBackoff ctx key limit n
          (config_read ctx key r ∷ waited ctx (delay_of n) (ok tt) ∷ later)
          result
  spent : {n : ℕ} → n ≡ limit → IsBackoff ctx key limit n [] (ok none)

-- What a run of the loop from the round with this number on adds to the trace.
pub record BacksOff {W : Type 0} (ctx : Context) (key : Bytes) (limit : ℕ) (n : ℕ) (s : Run W)
    (out : Result (Option Bytes) × Run W) : Type 0 where
  pub calls : List Event
  pub in_trace : out.1.trace ≡ s.trace ++ calls
  pub as_rounds : IsBackoff ctx key limit n calls out.0

module _ {W : Type 0} (ports : Ports W) (ctx : Context) (key : Bytes) (limit : ℕ) where
  -- Behind the wait of a round.
  waited-BacksOff :
      (n : ℕ) (rest : Exec (Run W) (Option Bytes)) (r : Result (Option Bytes)) (s t : Run W)
      (cause : Option Error) (answer : Result (Unit {0}))
      → judge r ≡ again
      → t.trace ≡ s.trace ++ config_read ctx key r ∷ waited ctx (delay_of n) answer ∷ []
      → ((u : Run W) → BacksOff ctx key limit (suc n) u (rest u))
      → BacksOff ctx key limit n s (continue (report cause answer) (λ _. rest) t)
  unfolding report
  waited-BacksOff n rest r s t cause (ok tt) v e later =
      let done = later t in
      record {
        calls = config_read ctx key r ∷ waited ctx (delay_of n) (ok tt) ∷ done.calls;
        in_trace = done.in_trace ∙ (rw e (append_assoc s.trace _ _));
        as_rounds = next_round r v done.as_rounds;
      }
  waited-BacksOff n rest r s t (some cause) (err e') v e later = record {
    calls = _;
    in_trace = e;
    as_rounds = cut_off r e' cause v;
  }
  waited-BacksOff n rest r s t none (err e') v e later = record {
    calls = _;
    in_trace = e;
    as_rounds = cut_off r e' e' v;
  }

  conclude-BacksOff :
      (n : ℕ) (rest : Exec (Run W) (Option Bytes)) (r : Result (Option Bytes)) (s t : Run W)
      (v : Verdict)
      → judge r ≡ v
      → t.trace ≡ s.trace ++ config_read ctx key r ∷ []
      → ((u : Run W) → BacksOff ctx key limit (suc n) u (rest u))
      → BacksOff ctx key limit n s (conclude ports ctx (delay_of n) rest v t)
  unfolding conclude pure fail wait ask ◌>>=◌
  conclude-BacksOff n rest r s t (found value) v e later = record {
    calls = _;
    in_trace = e;
    as_rounds = answered r value v;
  }
  conclude-BacksOff n rest r s t (failed e') v e later = record {
    calls = _;
    in_trace = e;
    as_rounds = refused r e' v;
  }
  conclude-BacksOff n rest r s t again v e later =
      waited-BacksOff n rest r s _ _ _ v (rw e (append_assoc s.trace _ _)) later

  poll-BacksOff :
      (fuel n : ℕ) (s : Run W)
      → n + fuel ≡ limit
      → BacksOff ctx key limit n s (poll ports ctx fuel key (delay_of n) s)
  unfolding poll attempt ◌>>=◌ ask read_config pure
  poll-BacksOff zero n s h = record {
    calls = [];
    in_trace = sym (append-nil _);
    as_rounds = spent (omega (arith, h));
  }
  poll-BacksOff (suc fuel) n s h = conclude-BacksOff n _ _ s _ _ refl refl (λ u.
      subst (λ d. BacksOff ctx key limit (suc n) u (poll ports ctx fuel key d u))
        (sym (next_poll_delay-delay_of n)) (poll-BacksOff fuel (suc n) u (omega (arith, h))))

-- Every run of pollConfig reads the key once in each round, under the poll deadline, and goes on to the next round only
-- if the answer asks for it and after a wait that was not cut off: of 25 ms in the first round, of twice as long in each
-- further one, and never of more than 250 ms. Its result is the value or the error of the last answer, or an error behind
-- a wait that was cut off; it is none only behind as many rounds as there is fuel.
pub poll_config-BacksOff :
    {W : Type 0} (ports : Ports W) (poll_timeout : ℕ) (key : Bytes) (s : Run W)
    → BacksOff
        (with_timeout rpc poll_timeout)
        key
        (poll_fuel poll_timeout)
        0
        s
        (poll_config ports poll_timeout key s)
unfolding poll_config
poll_config-BacksOff ports poll_timeout key s =
    poll-BacksOff ports (with_timeout rpc poll_timeout) key (poll_fuel poll_timeout)
      (poll_fuel poll_timeout) 0 s (omega arith)
