-- ===== src/Spire/AgentPlugin/Published.antt =====
-- What holds of the published runtime of the agent plugin.
use incus_spire_attestor.Prelude.{
  ◌≤◌, ◌≡◌, refl, false, Option, none, some, List, [], ◌∷◌, arith, Bytes,
}
use incus_spire_attestor.Errors.{Result, ok, err, >>=-eq-ok}
use incus_spire_attestor.Config.Types.{Agent}
use incus_spire_attestor.Config.Decode.{Parsers}
use incus_spire_attestor.Agent.Service.Construct
use incus_spire_attestor.Agent.Service.Construct.{Service}
use incus_spire_attestor.Spire.Requests.{Request, decode_valid_agent}
use incus_spire_attestor.Guest.Client
use incus_spire_attestor.Spire.ServerPlugin.{given}
use incus_spire_attestor.Spire.AgentPlugin.{
  AgentRuntime, AgentPlugin, build_agent_runtime, runtime_for, store, configure,
}

-- The service polls for the positive timeout of the configuration, and the guest client has its project.
pub record IsAgentRuntime (rt : AgentRuntime) : Type 0 where
  pub positive : (rt.config.poll_timeout.negative ≡ false) × (1 ≤ rt.config.poll_timeout.magnitude)
  pub service : rt.service.poll_timeout ≡ rt.config.poll_timeout.magnitude
  pub project : rt.guest.project ≡ rt.config.project

abbrev pub IsPublished : Option AgentRuntime → Type 0
IsPublished none = Unit {0}
IsPublished (some rt) = IsAgentRuntime rt

build_agent_runtime_ok :
    (cfg : Agent) (trust_domain : Bytes) (rt : AgentRuntime)
    → build_agent_runtime cfg trust_domain ≡ ok rt
    → IsAgentRuntime rt
unfolding build_agent_runtime Construct.new Construct.new_service Client.new
build_agent_runtime_ok cfg trust_domain rt h = record {
  positive = (ground (arith, h), ground (arith, h));
  service = ground (arith, h);
  project = ground (arith, h);
}

module _ (parsers : Parsers) where
  runtime_for_ok :
      (request : Option Request) (rt : AgentRuntime)
      → runtime_for parsers request ≡ ok rt
      → IsAgentRuntime rt
  unfolding runtime_for
  runtime_for_ok request rt h =
      let (req, _, h2) = >>=-eq-ok (given request) _ h in
      let (cfg, _, h3) = >>=-eq-ok (decode_valid_agent parsers req) _ h2 in
      build_agent_runtime_ok (cfg.0) (cfg.1) rt h3

  store-IsPublished :
      (r : Result AgentRuntime) (plugin : AgentPlugin)
      → ((rt : AgentRuntime) → r ≡ ok rt → IsAgentRuntime rt)
      → IsPublished plugin.runtime
      → IsPublished (store parsers r plugin).1.runtime
  unfolding store
  store-IsPublished (ok rt) plugin fresh h = fresh rt refl
  store-IsPublished (err e) plugin fresh h = h

  configure-IsPublished :
      (request : Option Request) (plugin : AgentPlugin)
      → IsPublished plugin.runtime
      → IsPublished (configure parsers request plugin).1.runtime
  unfolding configure
  configure-IsPublished request plugin h =
      store-IsPublished (runtime_for parsers request) plugin (runtime_for_ok request) h

  -- Any requests of Configure, one after the other.
  abbrev pub configure_all : List (Option Request) → AgentPlugin → AgentPlugin
  configure_all [] plugin = plugin
  configure_all (request ∷ requests) plugin =
      configure_all requests (configure parsers request plugin).1

  -- Requests of Configure keep it that a published runtime of the agent polls for the positive timeout of its configuration, and that
  -- its guest client has the configured project.
  pub configure_all-IsPublished :
      (requests : List (Option Request)) (plugin : AgentPlugin)
      → IsPublished plugin.runtime
      → IsPublished (configure_all requests plugin).runtime
  configure_all-IsPublished [] plugin h = h
  configure_all-IsPublished (request ∷ requests) plugin h =
      configure_all-IsPublished requests (configure parsers request plugin).1
        (configure-IsPublished request plugin h)
