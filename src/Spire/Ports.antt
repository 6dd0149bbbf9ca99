-- ===== src/Spire/Ports.antt =====
-- What the construction of a runtime calls: files, and the connections of the Incus library. The state of a run is the state of
-- the environment, the calls made so far, and the runtime that the plugin has published.
use incus_spire_attestor.Prelude.{ℕ, Option, List, [], ◌∷◌, ◌++◌, Bytes}
use incus_spire_attestor.Errors.{Result, ok}
use incus_spire_attestor.Exec.{Exec}
use incus_spire_attestor.Config.Types.{Server}
use incus_spire_attestor.Server.Service.{Service}
use incus_spire_attestor.Host.Ports.{ServerInfo}
use incus_spire_attestor.Host.Client.{Client}

-- A call, with its arguments and its answer; files and connections are numbers.
pub data Event : Type 0 where
  file_opened : Bytes → Result ℕ → Event
  file_read : ℕ → ℕ → Result Bytes → Event
  connected : Bytes → Bytes → Bytes → Bytes → Result ℕ → Event
  server_read : ℕ → Result (Option ServerInfo) → Event
  idle_closed : ℕ → Event

-- os.Open, io.ReadAll of a file behind a LimitReader, ConnectIncusWithContext, GetServer of a connection, and the
-- closing of its idle connections.
pub record Ports (W : Type 0) : Type 0 where
  pub open_file : Bytes → W → Result ℕ × W
  pub read_all : ℕ → ℕ → W → Result Bytes × W
  pub connect : Bytes → Bytes → Bytes → Bytes → W → Result ℕ × W
  pub get_server : ℕ → W → Result (Option ServerInfo) × W
  pub close_idle : ℕ → W → W

-- serverRuntime; closeIdle is the connection whose idle connections it closes.
pub record ServerRuntime : Type 0 where
  pub config : Server
  pub trust_domain : Bytes
  pub service : Service
  pub client : Client
  pub connection : ℕ

-- The plugin in its environment; `runtime` is the published pointer.
pub record Run (W : Type 0) : Type 0 where
  pub world : W
  pub trace : List Event
  pub runtime : Option ServerRuntime

-- One call: the environment answers, and the answer is recorded.
unfoldable pub ask : {W A : Type 0} → (W → Result A × W) → (Result A → Event) → Exec (Run W) A
ask port event s =
    let (answer, world') = port s.world in
    (answer, record s { world = world'; trace = s.trace ++ event answer ∷ [] })

module _ {W : Type 0} (ports : Ports W) where
  unfoldable pub open_file : Bytes → Exec (Run W) ℕ
  open_file path = ask (ports.open_file path) (file_opened path)

  unfoldable pub read_all : ℕ → ℕ → Exec (Run W) Bytes
  read_all file limit = ask (ports.read_all file limit) (file_read file limit)

  unfoldable pub connect : Bytes → Bytes → Bytes → Bytes → Exec (Run W) ℕ
  connect endpoint ca cert key =
      ask (ports.connect endpoint ca cert key) (connected endpoint ca cert key)

  unfoldable pub get_server : ℕ → Exec (Run W) (Option ServerInfo)
  get_server connection = ask (ports.get_server connection) (server_read connection)

  -- CloseIdleConnections of the host client.
  unfoldable pub close_idle : ℕ → Exec (Run W) (Unit {0})
  close_idle connection s = (
    ok tt,
    record s {
      world = ports.close_idle connection s.world;
      trace = s.trace ++ idle_closed connection ∷ [];
    },
  )
