-- ===== src/Agent/Ports.antt =====
-- ports.go, and the waits and the context of poll.go. The state of a run is the state of the environment
-- and the calls made so far with their answers.
use incus_spire_attestor.Prelude.{ℕ, Option, List, [], ◌∷◌, ◌++◌, Bytes}
use incus_spire_attestor.Errors.{Result, Error}
use incus_spire_attestor.Exec.{Exec}
use incus_spire_attestor.Golang.Context.{Context}
use incus_spire_attestor.Attest.Types.{Claims}

-- A call, with its arguments and its answer; delays are nanoseconds.
pub data Event : Type 0 where
  claims_read : Result Claims → Event
  payload_sent : Bytes → Result (Unit {0}) → Event
  challenge_received : Result Bytes → Event
  config_read : Context → Bytes → Result (Option Bytes) → Event
  waited : Context → ℕ → Result (Unit {0}) → Event
  response_sent : Bytes → Result (Unit {0}) → Event

-- The interfaces GuestEvidence and Exchange, `wait`, and the Err method of a context, over the states of an
-- environment. The value of ReadConfig and `found` are one option.
pub record Ports (W : Type 0) : Type 0 where
  pub claims : W → Result Claims × W
  pub read_config : Context → Bytes → W → Result (Option Bytes) × W
  pub send_payload : Bytes → W → Result (Unit {0}) × W
  pub receive_challenge : W → Result Bytes × W
  pub send_response : Bytes → W → Result (Unit {0}) × W
  pub wait : Context → ℕ → W → Result (Unit {0}) × W
  pub context_err : Context → W → Option Error

pub record Run (W : Type 0) : Type 0 where
  pub world : W
  pub trace : List Event

-- One call: the environment answers, and the answer is recorded.
unfoldable pub ask : {W A : Type 0} → (W → Result A × W) → (Result A → Event) → Exec (Run W) A
ask port event s =
    let (answer, world') = port s.world in
    (answer, record { world = world'; trace = s.trace ++ event answer ∷ [] })
