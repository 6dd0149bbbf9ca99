-- ===== src/Guest/Ports.antt =====
-- What client.go and claims.go call of net/http, io and os. The state of a run is the state of the environment and the
-- calls made so far with their answers.
use incus_spire_attestor.Prelude.{ℕ, Option, List, [], ◌∷◌, ◌++◌, Bytes}
use incus_spire_attestor.Errors.{Result, Error}
use incus_spire_attestor.Exec.{Exec}
use incus_spire_attestor.Golang.Context.{Context}

-- *http.Response: the status code, and a handle of the body.
pub record Response : Type 0 where
  pub status : ℕ
  pub body : ℕ

-- A call, with its arguments and its answer.
pub data Event : Type 0 where
  sent : Context → Bytes → Result Response → Event
  body_read : ℕ → ℕ → Result Bytes → Event
  file_read : Bytes → Result Bytes → Event

-- The error of NewRequestWithContext for a URL, http.Client.Do of a GET, io.ReadAll of a body behind a LimitReader, and
-- os.ReadFile.
pub record Ports (W : Type 0) : Type 0 where
  pub request_error : Bytes → Option Error
  pub send : Context → Bytes → W → Result Response × W
  pub read_body : ℕ → ℕ → W → Result Bytes × W
  pub read_file : Bytes → W → Result Bytes × W

pub record Run (W : Type 0) : Type 0 where
  pub world : W
  pub trace : List Event

-- One call: the environment answers, and the answer is recorded.
unfoldable pub ask : {W A : Type 0} → (W → Result A × W) → (Result A → Event) → Exec (Run W) A
ask port event s =
    let (answer, world') = port s.world in
    (answer, record { world = world'; trace = s.trace ++ event answer ∷ [] })

module _ {W : Type 0} (ports : Ports W) where
  unfoldable pub send : Context → Bytes → Exec (Run W) Response
  send ctx url = ask (ports.send ctx url) (sent ctx url)

  unfoldable pub read_body : ℕ → ℕ → Exec (Run W) Bytes
  read_body body limit = ask (ports.read_body body limit) (body_read body limit)

  unfoldable pub read_file : Bytes → Exec (Run W) Bytes
  read_file path = ask (ports.read_file path) (file_read path)
