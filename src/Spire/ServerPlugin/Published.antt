-- ===== src/Spire/ServerPlugin/Published.antt =====
-- What holds of the published runtime of the server plugin, whatever requests it gets.
use incus_spire_attestor.Prelude.{
  ℕ, ◌+◌, ◌≡◌, refl, sym, ap, ◌∙◌, subst, true, Option, none, some, List, [], ◌∷◌, arith, Bytes,
}
use incus_spire_attestor.Errors.{Result, ok, err, Error, wrap}
use incus_spire_attestor.Exec.{Exec, pure, fail, lift, continue, ◌>>=◌, lift_then, then_of}
use incus_spire_attestor.Config.Types.{Server}
use incus_spire_attestor.Config.Validate.{validate_server}
use incus_spire_attestor.Config.Validate.Accepted.{IsValidServer, validate_server_iff}
use incus_spire_attestor.Config.Decode.{Parsers}
use incus_spire_attestor.Server.Service.{Service}
use incus_spire_attestor.Host.Client.{Client}
use incus_spire_attestor.Server.Service.Construct
use incus_spire_attestor.Server.Service.Construct.{failing, service_of}
use incus_spire_attestor.Spire.Requests.{Request, decode_valid_server}
use incus_spire_attestor.Spire.Ports.{Ports, Run, ServerRuntime, close_idle}
use incus_spire_attestor.Spire.Build.{or_close, build_server_runtime}
use incus_spire_attestor.Spire.ServerPlugin.{given, retire, publish, configure}
use incus_spire_attestor.Spire.ServerPlugin.Connections.{
  one, opened, closed, in_hand, Spends-close_idle, Spends-build_server_runtime,
}

-- The published connection, as a count.
abbrev pub held : ℕ → Option ServerRuntime → ℕ
held c none = 0
held c (some rt) = one c rt.connection

-- A runtime is of a valid configuration, and its service is the one of that configuration.
pub record IsRuntime (rt : ServerRuntime) : Type 0 where
  pub valid : IsValidServer rt.config rt.trust_domain
  pub service : rt.service ≡ service_of rt.config rt.trust_domain

abbrev pub IsPublished : Option ServerRuntime → Type 0
IsPublished none = Unit {0}
IsPublished (some rt) = IsRuntime rt

-- What is published is a runtime of a valid configuration, and every connection that was opened is closed but that one.
pub record IsSound {W : Type 0} (s : Run W) : Type 0 where
  pub published : IsPublished s.runtime
  pub balanced : (c : ℕ) → opened c s.trace ≡ closed c s.trace + held c s.runtime

new_ok :
    (cfg : Server) (trust_domain : Bytes) (service : Service)
    → Construct.new true cfg trust_domain true ≡ ok service
    → (validate_server cfg trust_domain ≡ none) × (service ≡ service_of cfg trust_domain)
unfolding Construct.new
new_ok cfg trust_domain service h = (ground (arith, h), ground (arith, h))

module _ {W : Type 0} (parsers : Parsers) (ports : Ports W) where
  failed : {A : Type 0} (e : Error) (s : Run W) (a : A) → ¬ ((fail {A = A} e s).0 ≡ ok a)
  unfolding fail
  failed e s a h = cc

  or_close_ok :
      {A : Type 0} (n : ℕ) (f : Error → Error) (r : Result A) (s : Run W) (a : A)
      → (or_close ports n f r s).0 ≡ ok a
      → r ≡ ok a
  unfolding or_close pure
  or_close_ok n f (ok x) s a h = ground (arith, h)
  or_close_ok n f (err e) s a h =
      let (_, _, _, h2) = then_of (close_idle ports n) (λ _. fail (f e)) s a h in
      absurd (failed (f e) _ a h2)

  closes_ok : (n : ℕ) (s : Run W) → (close_idle ports n s).0 ≡ ok tt
  unfolding close_idle
  closes_ok n s = refl

  made-IsRuntime :
      (cfg : Server) (trust_domain : Bytes) (client : Client) (connection : ℕ) (service : Service)
      (rt : ServerRuntime)
      → Construct.new true cfg trust_domain true ≡ ok service
      → ◌≡◌ {A = Result ServerRuntime}
          (ok (record {
            config = cfg;
            trust_domain = trust_domain;
            service = service;
            client = client;
            connection = connection;
          }))
          (ok rt)
      → (rt.config ≡ cfg) × (rt.trust_domain ≡ trust_domain) × IsRuntime rt
  made-IsRuntime cfg trust_domain client connection service rt made h =
      let (accepted, content) = new_ok cfg trust_domain service made in
      let same_config : rt.config ≡ cfg = ground (arith, h) in
      let same_domain : rt.trust_domain ≡ trust_domain = ground (arith, h) in
      let same_service : rt.service ≡ service = ground (arith, h) in
      (
        same_config,
        same_domain,
        record {
          valid = (validate_server_iff rt.config rt.trust_domain).0 (
              ap (λ k. validate_server k rt.trust_domain) same_config
              ∙ ap (validate_server cfg) same_domain
              ∙ accepted);
          service =
              same_service
              ∙ content
              ∙ ap (service_of cfg) (sym same_domain)
              ∙ ap (λ k. service_of k rt.trust_domain) (sym same_config);
        },
      )

  closes_balance :
      (c n : ℕ) (s : Run W)
      → opened c (close_idle ports n s).1.trace + closed c s.trace + one c n
        ≡ opened c s.trace + closed c (close_idle ports n s).1.trace
  unfolding close_idle
  closes_balance c n s = omega (arith, (Spends-close_idle c ports n).balance s)

  retire_lem :
      (old : Option ServerRuntime) (s : Run W)
      → ((retire parsers ports old s).0 ≡ ok tt)
        × ((retire parsers ports old s).1.runtime ≡ s.runtime)
        × ((c : ℕ)
            → opened c (retire parsers ports old s).1.trace + closed c s.trace + held c old
              ≡ opened c s.trace + closed c (retire parsers ports old s).1.trace)
  unfolding retire pure
  retire_lem none s = (refl, refl, λ c. omega arith)
  retire_lem (some old) s = (
    closes_ok old.connection s,
    (Spends-close_idle 0 ports old.connection).kept s,
    λ c. closes_balance c old.connection s,
  )

  pub build_ok :
      (cfg : Server) (trust_domain : Bytes) (s : Run W) (rt : ServerRuntime)
      → (build_server_runtime ports cfg trust_domain s).0 ≡ ok rt
      → (rt.config ≡ cfg) × (rt.trust_domain ≡ trust_domain) × IsRuntime rt
  unfolding build_server_runtime pure
  build_ok cfg trust_domain s rt h =
      let (_, _, _, h1) = lift_then _ _ s rt h in
      let (ca, _, _, h2) = then_of _ _ _ rt h1 in
      let (cert, _, _, h3) = then_of _ _ _ rt h2 in
      let (key, _, _, h4) = then_of _ _ _ rt h3 in
      let (host, _, _, h5) = then_of _ _ _ rt h4 in
      let (service, r, _, h6) = then_of _ _ _ rt h5 in
      made-IsRuntime cfg trust_domain (host.0) (host.1) service rt
        (or_close_ok (host.1) (wrap "construct server service") _ _ service r) h6

  -- A published runtime with a fresh connection in hand.
  pub publish_lem :
      (rt : ServerRuntime) (s : Run W)
      → ((publish parsers ports rt s).0 ≡ ok tt)
        × ((publish parsers ports rt s).1.runtime ≡ some rt)
        × ((c : ℕ)
            → opened c (publish parsers ports rt s).1.trace + closed c s.trace + held c s.runtime
              ≡ opened c s.trace + closed c (publish parsers ports rt s).1.trace)
  unfolding publish
  publish_lem rt s = retire_lem s.runtime (record s { runtime = some rt })

  settle :
      (r : Result ServerRuntime) (s t : Run W)
      → IsSound s
      → t.runtime ≡ s.runtime
      → ((c : ℕ)
          → opened c t.trace + closed c s.trace + 0
            ≡ opened c s.trace + closed c t.trace + in_hand (λ rt. one c rt.connection) r)
      → ((rt : ServerRuntime) → r ≡ ok rt → IsRuntime rt)
      → IsSound (continue r (publish parsers ports) t).1
  settle (err e) s t sound kept balance valid = record {
    published = subst IsPublished (sym kept) sound.published;
    balanced = λ c. omega (arith, balance c, sound.balanced c, ap (held c) kept);
  }
  settle (ok rt) s t sound kept balance valid =
      let (_, replaced, retired) = publish_lem rt t in
      record {
        published = subst IsPublished (sym replaced) (valid rt refl);
        balanced = λ c.
            omega (
              arith,
              balance c,
              sound.balanced c,
              ap (held c) kept,
              retired c,
              ap (held c) replaced,
            );
      }

  build-IsSound :
      (cfg : Server) (trust_domain : Bytes) (s : Run W)
      → IsSound s
      → IsSound ((build_server_runtime ports cfg trust_domain >>= publish parsers ports) s).1
  unfolding ◌>>=◌
  build-IsSound cfg trust_domain s sound =
      settle (build_server_runtime ports cfg trust_domain s).0 s
        (build_server_runtime ports cfg trust_domain s).1 sound
        ((Spends-build_server_runtime 0 ports cfg trust_domain).kept s)
        (λ c. (Spends-build_server_runtime c ports cfg trust_domain).balance s)
        (λ rt e. let (_, _, v) = build_ok cfg trust_domain s rt e in v)

  lifted-IsSound :
      {A : Type 0} (r : Result A) (f : A → Exec (Run W) (Unit {0})) (s : Run W)
      → IsSound s
      → ((a : A) → IsSound (f a s).1)
      → IsSound ((lift r >>= f) s).1
  unfolding lift ◌>>=◌
  lifted-IsSound (ok a) f s sound h = h a
  lifted-IsSound (err e) f s sound h = sound

  configure-IsSound :
      (request : Option Request) (s : Run W)
      → IsSound s
      → IsSound (configure parsers ports request s).1
  unfolding configure
  configure-IsSound request s sound = lifted-IsSound (given request) _ s sound (λ req.
      lifted-IsSound (decode_valid_server parsers req) _ s sound
        (λ cfg. build-IsSound cfg.0 cfg.1 s sound))

  -- Any requests of Configure, one after the other.
  abbrev pub configure_all : List (Option Request) → Run W → Run W
  configure_all [] s = s
  configure_all (request ∷ requests) s =
      configure_all requests (configure parsers ports request s).1

  configure_all-IsSound :
      (requests : List (Option Request)) (s : Run W)
      → IsSound s
      → IsSound (configure_all requests s)
  configure_all-IsSound [] s sound = sound
  configure_all-IsSound (request ∷ requests) s sound =
      configure_all-IsSound requests (configure parsers ports request s).1
        (configure-IsSound request s sound)

  -- The new plugin, which nothing was asked of.
  abbrev pub new_plugin : W → Run W
  new_plugin w = record { world = w; trace = []; runtime = none }

  -- Whatever requests of Configure a new plugin has served, and however they ended: a published runtime is that of a valid
  -- configuration, with the service of that configuration; and each connection that was opened has had its idle connections closed
  -- as often as it was opened, but for the one of the published runtime, which is open once more.
  pub published-IsSound :
      (requests : List (Option Request)) (w : W) → IsSound (configure_all requests (new_plugin w))
  published-IsSound requests w =
      configure_all-IsSound requests (new_plugin w)
        (record { published = tt; balanced = λ c. omega arith })
