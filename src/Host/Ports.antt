-- ===== src/Host/Ports.antt =====
-- The calls that client.go and mutation.go make of the Incus client library, and the wait between retries. The
-- state of a run is the state of the environment and the calls made so far with their answers.
use incus_spire_attestor.Prelude.{ℕ, Bool, Option, List, [], ◌∷◌, ◌++◌, Bytes}
use incus_spire_attestor.Errors.{Result, sentinel, missing_context, require}
use incus_spire_attestor.Exec.{Exec, lift}
use incus_spire_attestor.Golang.Context.{Context}
use incus_spire_attestor.Golang.Maps.{Map}
use incus_spire_attestor.Host.Snapshot.{ApiInstance}

-- api.InstancePut: the configuration of the instance itself, and all its other fields as one value.
pub record InstancePut : Type 0 where
  pub config : Map
  pub others : Bytes

-- *api.Instance: the fields that are read, and its Writable().
pub record Fetched : Type 0 where
  pub instance : ApiInstance
  pub writable : InstancePut

-- The fields of api.Server that are read.
pub record ServerInfo : Type 0 where
  pub clustered : Bool
  pub server_name : Bytes

-- A call, with its arguments and its answer. An operation is a number; a nil pointer is `none`.
pub data Event : Type 0 where
  server_read : Result (Option ServerInfo) → Event
  fetched : Context → Bytes → Bytes → Result (Option Fetched × Bytes) → Event
  updated : Context → Bytes → Bytes → InstancePut → Bytes → Result (Option ℕ) → Event
  awaited : Context → ℕ → Result (Unit {0}) → Event
  waited : Context → ℕ → Result (Unit {0}) → Event

-- GetServer, GetInstance, UpdateInstance and WaitContext of the library, and `wait`, over the states of an
-- environment; `contextual` is whether the client has the method WithContext.
pub record Ports (W : Type 0) : Type 0 where
  pub contextual : Bool
  pub get_server : W → Result (Option ServerInfo) × W
  pub get_instance : Context → Bytes → Bytes → W → Result (Option Fetched × Bytes) × W
  pub update_instance : Context → Bytes → Bytes → InstancePut → Bytes → W → Result (Option ℕ) × W
  pub await_operation : Context → ℕ → W → Result (Unit {0}) × W
  pub wait : Context → ℕ → W → Result (Unit {0}) × W

pub record Run (W : Type 0) : Type 0 where
  pub world : W
  pub trace : List Event

-- One call: the environment answers, and the answer is recorded.
unfoldable pub ask : {W A : Type 0} → (W → Result A × W) → (Result A → Event) → Exec (Run W) A
ask port event s =
    let (answer, world') = port s.world in
    (answer, record { world = world'; trace = s.trace ++ event answer ∷ [] })

module _ {W : Type 0} (ports : Ports W) (ctx : Context) where
  -- scoped and withContext; the project and the context are arguments of the later calls.
  unfoldable pub scoped : Exec (Run W) (Unit {0})
  scoped = lift (require ports.contextual (sentinel missing_context))

  unfoldable pub get_instance : Bytes → Bytes → Exec (Run W) (Option Fetched × Bytes)
  get_instance project name = ask (ports.get_instance ctx project name) (fetched ctx project name)

  unfoldable pub update_instance : Bytes → Bytes → InstancePut → Bytes → Exec (Run W) (Option ℕ)
  update_instance project name put etag =
      ask (ports.update_instance ctx project name put etag) (updated ctx project name put etag)

  unfoldable pub await_operation : ℕ → Exec (Run W) (Unit {0})
  await_operation op = ask (ports.await_operation ctx op) (awaited ctx op)

  unfoldable pub wait : ℕ → Exec (Run W) (Unit {0})
  wait delay = ask (ports.wait ctx delay) (waited ctx delay)
