-- ===== src/Agent/Poll.antt =====
-- poll.go: the reads of the challenged configuration key.
pub mod Deadline
pub mod Calls
pub mod Backoff
use incus_spire_attestor.Prelude.{
  ℕ, zero, suc, ◌+◌, ◌-◌, ◌*◌, ◌/◌, ◌%◌, ◌^◌, ◌≤◌, ◌<◌, String, ◌≡◌, refl, sym, ap, ◌∙◌, subst, ◌≢◌,
  ◌↔◌, ◌⊎◌, inl, inr, Bool, true, false, not, ◌&&◌, ◌||◌, Option, none, some, List, [], ◌∷◌, ◌++◌,
  map, append-nil, append_assoc, arith, Bytes, codes, ltb, leb, ◌==◌, if◌then◌else◌, Bool-cases,
  Option-cases, same, same_self, same_iff, is_empty, length, take, drop, all, length-append,
  take-append-drop, length-drop, All, All-append,
}
use incus_spire_attestor.Errors.{
  Result, ok, err, Error, wrap, is, canceled, deadline_exceeded, as_timeout, as_temporary,
}
use incus_spire_attestor.Exec.{Exec, pure, fail, attempt, ◌>>=◌}
use incus_spire_attestor.Golang.Context.{Context, rpc, with_timeout}
use incus_spire_attestor.Agent.Ports.{config_read, waited, Ports, Run, ask}

-- initialPollDelay, maxPollDelay and pollBackoffFactor.
abbrev pub initial_poll_delay : ℕ
initial_poll_delay = 25000000

abbrev pub max_poll_delay : ℕ
max_poll_delay = 250000000

abbrev pub poll_backoff_factor : ℕ
poll_backoff_factor = 2

-- nextPollDelay.
unfoldable pub next_poll_delay : ℕ → ℕ
next_poll_delay delay =
    let next = delay * poll_backoff_factor in
    if ltb max_poll_delay next then max_poll_delay else next

-- isContextError.
unfoldable pub is_context_error : Error → Bool
is_context_error e = is canceled e || is deadline_exceeded e

abbrev pub is_yes : Option Bool → Bool
is_yes (some answer) = answer
is_yes none = false

-- isRetryable, on an error that is not nil.
unfoldable pub is_retryable : Error → Bool
is_retryable e = is_yes (as_timeout e) || is_yes (as_temporary e)

-- What a round concludes from the answer of ReadConfig.
pub data Verdict : Type 0 where
  found : Bytes → Verdict
  failed : Error → Verdict
  again : Verdict

unfoldable pub judge : Result (Option Bytes) → Verdict
judge (ok (some value)) = found value
judge (ok none) = again
judge (err e) =
    if is_context_error e
    then failed (wrap "read challenge config" e)
    else if not (is_retryable e)
    then failed (wrap "read challenge config" e)
    else again

-- How a failed wait is reported: with the cause of the context, or else with its own error.
unfoldable pub report : Option Error → Result (Unit {0}) → Result (Unit {0})
report cause (ok _) = ok tt
report (some cause) (err e) = err (wrap "poll config" cause)
report none (err e) = err (wrap "poll config" e)

module _ {W : Type 0} (ports : Ports W) (ctx : Context) where
  unfoldable pub read_config : Bytes → Exec (Run W) (Option Bytes)
  read_config key = ask (ports.read_config ctx key) (config_read ctx key)

  -- The wait between two reads.
  unfoldable pub wait : ℕ → Exec (Run W) (Unit {0})
  wait delay s =
      let (answer, s') = ask (ports.wait ctx delay) (waited ctx delay) s in
      (report (ports.context_err ctx s'.world) answer, s')

  -- The rest of a round, and of the loop behind it.
  unfoldable pub conclude : ℕ → Exec (Run W) (Option Bytes) → Verdict → Exec (Run W) (Option Bytes)
  conclude delay rest (found value) = pure (some value)
  conclude delay rest (failed e) = fail e
  conclude delay rest again = wait delay >>= λ _. rest

  -- The loop of pollConfig; `none` is the end of the fuel.
  unfoldable pub poll : ℕ → Bytes → ℕ → Exec (Run W) (Option Bytes)
  poll zero key delay = pure none
  poll (suc fuel) key delay = do
    answer ← attempt (read_config key)
    conclude delay (poll fuel key (next_poll_delay delay)) (judge answer)

-- pollConfig. No wait is shorter than the first, so the fuel covers the time to the deadline.
unfoldable pub poll_fuel : ℕ → ℕ
poll_fuel poll_timeout = suc (poll_timeout / initial_poll_delay + 1)

unfoldable pub poll_config : {W : Type 0} → Ports W → ℕ → Bytes → Exec (Run W) (Option Bytes)
poll_config ports poll_timeout key =
    poll ports (with_timeout rpc poll_timeout) (poll_fuel poll_timeout) key initial_poll_delay
