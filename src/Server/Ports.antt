-- ===== src/Server/Ports.antt =====
-- ports.go, and the contexts that its operations are called with. The state of a run is the state of
-- the environment, the calls made so far with their answers, and the cleanup's sync.Once.
pub use incus_spire_attestor.Golang.Context.{Context, rpc, with_timeout, without_cancel}
use incus_spire_attestor.Prelude.{ℕ, Option, List, [], ◌∷◌, ◌++◌, Bytes}
use incus_spire_attestor.Errors.{Result, Error}
use incus_spire_attestor.Exec.{Exec}
use incus_spire_attestor.Attest.Types.{Instance, Attributes}

-- A call of a port or of the random reader, with its arguments and its answer.
pub data Event : Type 0 where
  payload_received : Result Bytes → Event
  looked_up : Context → Bytes → Bytes → Result (Option Instance) → Event
  random_read : ℕ → Result Bytes → Event
  nonce_set : Context → Instance → Bytes → Bytes → Result (Unit {0}) → Event
  challenge_sent : Bytes → Result (Unit {0}) → Event
  response_received : Context → Result Bytes → Event
  nonce_unset : Context → Instance → Bytes → Result (Unit {0}) → Event
  attributes_sent : Attributes → Result (Unit {0}) → Event

-- The interfaces Incus and Exchange and the io.Reader, over the states of an environment. Lookup's
-- instance and `found` are one option.
pub record Ports (W : Type 0) : Type 0 where
  pub lookup : Context → Bytes → Bytes → W → Result (Option Instance) × W
  pub set_nonce : Context → Instance → Bytes → Bytes → W → Result (Unit {0}) × W
  pub unset_nonce : Context → Instance → Bytes → W → Result (Unit {0}) × W
  pub receive_payload : Context → W → Result Bytes × W
  pub send_challenge : Context → Bytes → W → Result (Unit {0}) × W
  pub receive_response : Context → W → Result Bytes × W
  pub send_attributes : Context → Attributes → W → Result (Unit {0}) × W
  pub read_full : ℕ → W → Result Bytes × W

-- `once` is the error of the cleanup that has run, which may be nil.
pub record Run (W : Type 0) : Type 0 where
  pub world : W
  pub trace : List Event
  pub once : Option (Option Error)

-- One call: its answer is the environment's, and it is written down.
unfoldable pub call : {W A : Type 0} → (W → Result A × W) → (Result A → Event) → Exec (Run W) A
call ask event s =
    let (answer, world') = ask s.world in
    (answer, record s { world = world'; trace = s.trace ++ event answer ∷ [] })

module _ {W : Type 0} (ports : Ports W) where
  unfoldable pub lookup : Context → Bytes → Bytes → Exec (Run W) (Option Instance)
  lookup ctx project name = call (ports.lookup ctx project name) (looked_up ctx project name)

  unfoldable pub set_nonce : Context → Instance → Bytes → Bytes → Exec (Run W) (Unit {0})
  set_nonce ctx target key nonce =
      call (ports.set_nonce ctx target key nonce) (nonce_set ctx target key nonce)

  unfoldable pub unset_nonce : Context → Instance → Bytes → Exec (Run W) (Unit {0})
  unset_nonce ctx target key = call (ports.unset_nonce ctx target key) (nonce_unset ctx target key)

  unfoldable pub receive_payload : Context → Exec (Run W) Bytes
  receive_payload ctx = call (ports.receive_payload ctx) payload_received

  unfoldable pub send_challenge : Context → Bytes → Exec (Run W) (Unit {0})
  send_challenge ctx challenge =
      call (ports.send_challenge ctx challenge) (challenge_sent challenge)

  unfoldable pub receive_response : Context → Exec (Run W) Bytes
  receive_response ctx = call (ports.receive_response ctx) (response_received ctx)

  unfoldable pub send_attributes : Context → Attributes → Exec (Run W) (Unit {0})
  send_attributes ctx attrs = call (ports.send_attributes ctx attrs) (attributes_sent attrs)

  unfoldable pub read_full : ℕ → Exec (Run W) Bytes
  read_full n = call (ports.read_full n) (random_read n)
