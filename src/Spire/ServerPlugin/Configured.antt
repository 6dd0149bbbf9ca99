-- ===== src/Spire/ServerPlugin/Configured.antt =====
-- The outcomes of Configure.
use incus_spire_attestor.Prelude.{◌≡◌, refl, sym, ap, ◌∙◌, subst, Option, none, some, Bytes}
use incus_spire_attestor.Errors.{Result, ok, err, Error}
use incus_spire_attestor.Exec.{lift, continue, ◌>>=◌}
use incus_spire_attestor.Config.Types.{Server}
use incus_spire_attestor.Config.Decode.{Parsers}
use incus_spire_attestor.Spire.Requests.{Request, decode_valid_server}
use incus_spire_attestor.Spire.Ports.{Ports, Run, ServerRuntime}
use incus_spire_attestor.Spire.Build.{build_server_runtime}
use incus_spire_attestor.Spire.ServerPlugin.{publish, configure}
use incus_spire_attestor.Spire.ServerPlugin.Connections.{Spends-build_server_runtime}
use incus_spire_attestor.Spire.ServerPlugin.Published.{IsRuntime, publish_lem, build_ok}

module _ {W : Type 0} (parsers : Parsers) (ports : Ports W) where
  -- Configure in all its outcomes: the published runtime and its trust domain are those of the decoded request, or all is left.
  pub data IsConfigured (request : Option Request) (s after : Run W)
      : Result (Unit {0}) → Type 0 where
    published :
        (req : Request) (rt : ServerRuntime)
        → request ≡ some req
        → decode_valid_server parsers req ≡ ok (rt.config, rt.trust_domain)
        → IsRuntime rt
        → after.runtime ≡ some rt
        → IsConfigured request s after (ok tt)
    refused : (e : Error) → after.runtime ≡ s.runtime → IsConfigured request s after (err e)

  configured :
      (req : Request) (cfg : Server) (trust_domain : Bytes) (r : Result ServerRuntime) (s t : Run W)
      → decode_valid_server parsers req ≡ ok (cfg, trust_domain)
      → t.runtime ≡ s.runtime
      → ((rt : ServerRuntime)
          → r ≡ ok rt
          → (rt.config ≡ cfg) × (rt.trust_domain ≡ trust_domain) × IsRuntime rt)
      → IsConfigured
          (some req)
          s
          (continue r (publish parsers ports) t).1
          (continue r (publish parsers ports) t).0
  configured req cfg trust_domain (err e) s t decoded kept valid = refused e kept
  configured req cfg trust_domain (ok rt) s t decoded kept valid =
      let (fine, replaced, _) = publish_lem parsers ports rt t in
      let (same_config, same_domain, v) = valid rt refl in
      subst (IsConfigured (some req) s (publish parsers ports rt t).1) (sym fine) (
        published req rt refl
          (decoded
            ∙ ap (λ k. ok (k, trust_domain)) (sym same_config)
            ∙ ap (λ d. ok (rt.config, d)) (sym same_domain))
          v replaced)

  decoded-IsConfigured :
      (req : Request) (d : Result (Server × Bytes)) (s : Run W)
      → decode_valid_server parsers req ≡ d
      → IsConfigured
          (some req)
          s
          ((lift d >>= λ cfg. build_server_runtime ports (cfg.0) (cfg.1) >>= publish parsers ports)
            s).1
          ((lift d >>= λ cfg. build_server_runtime ports (cfg.0) (cfg.1) >>= publish parsers ports)
            s).0
  unfolding lift ◌>>=◌
  decoded-IsConfigured req (err e) s decoded = refused e refl
  decoded-IsConfigured req (ok (cfg, trust_domain)) s decoded =
      configured req cfg trust_domain (build_server_runtime ports cfg trust_domain s).0 s
        (build_server_runtime ports cfg trust_domain s).1 decoded
        ((Spends-build_server_runtime 0 ports cfg trust_domain).kept s)
        (build_ok parsers ports cfg trust_domain s)

  -- Configure either fails and leaves the published runtime as it was; or it succeeds, for a request that is not nil and that decodes
  -- to a valid configuration, and what is published is a runtime of that configuration and trust domain.
  pub configure_total :
      (request : Option Request) (s : Run W)
      → IsConfigured request s
          (configure parsers ports request s).1
          (configure parsers ports request s).0
  unfolding configure lift ◌>>=◌
  configure_total none s = refused _ refl
  configure_total (some req) s = decoded-IsConfigured req (decode_valid_server parsers req) s refl
