-- ===== src/Spire/AgentPlugin.antt =====
-- agent.go, and buildAgentRuntime of runtime.go: the agent plugin.
pub mod Published
use incus_spire_attestor.Prelude.{
  ℕ, zero, suc, ◌+◌, ◌-◌, ◌*◌, ◌/◌, ◌%◌, ◌^◌, ◌≤◌, ◌<◌, String, ◌≡◌, refl, sym, ap, ◌∙◌, subst, ◌≢◌,
  ◌↔◌, ◌⊎◌, inl, inr, Bool, true, false, not, ◌&&◌, ◌||◌, Option, none, some, List, [], ◌∷◌, ◌++◌,
  map, append-nil, append_assoc, arith, Bytes, codes, ltb, leb, ◌==◌, if◌then◌else◌, Bool-cases,
  Option-cases, same, same_self, same_iff, is_empty, length, take, drop, all, length-append,
  take-append-drop, length-drop, All, All-append,
}
use incus_spire_attestor.Errors.{Result, ok, err, Error, wrap, ◌>>=◌, ◌>>◌}
use incus_spire_attestor.Config.Types.{Agent}
use incus_spire_attestor.Config.Validate.{validate_agent}
use incus_spire_attestor.Config.Decode.{Parsers}
use incus_spire_attestor.Agent.Service.Construct
use incus_spire_attestor.Agent.Service.Construct.{Service}
use incus_spire_attestor.Server.Service.Construct.{failing}
use incus_spire_attestor.Guest.Client
use incus_spire_attestor.Spire.Codes.{Status, map_rpc_error}
use incus_spire_attestor.Spire.Requests.{Request, decode_valid_agent}
use incus_spire_attestor.Spire.ServerPlugin.{given}

-- agentRuntime, with the guest client of its service.
pub record AgentRuntime : Type 0 where
  pub config : Agent
  pub service : Service
  pub guest : Client.Client

-- The error of a constructor, with what was constructed.
abbrev explained : String → Result Service → Result Service
explained what (ok service) = ok service
explained what (err e) = err (wrap what e)

-- buildAgentRuntime; the guest client is not nil.
unfoldable pub build_agent_runtime : Agent → Bytes → Result AgentRuntime
build_agent_runtime cfg trust_domain = do
  failing (validate_agent cfg trust_domain)
  service ← explained "construct agent service" (Construct.new true cfg.poll_timeout)
  ok (record { config = cfg; service = service; guest = Client.new cfg.project })

-- The plugin: the published pointer.
pub record AgentPlugin : Type 0 where
  pub runtime : Option AgentRuntime

module _ (parsers : Parsers) where
  -- The runtime that Configure builds for a request.
  unfoldable pub runtime_for : Option Request → Result AgentRuntime
  runtime_for request = do
    req ← given request
    cfg ← decode_valid_agent parsers req
    build_agent_runtime (cfg.0) (cfg.1)

  -- Configure behind the build.
  unfoldable pub store : Result AgentRuntime → AgentPlugin → Option Status × AgentPlugin
  store (ok rt) plugin = (none, record { runtime = some rt })
  store (err e) plugin = (some (map_rpc_error e), plugin)

  -- Configure; the response is nil, or the status of the error.
  unfoldable pub configure : Option Request → AgentPlugin → Option Status × AgentPlugin
  configure request plugin = store (runtime_for request) plugin
