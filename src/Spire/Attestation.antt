-- ===== src/Spire/Attestation.antt =====
-- Attest of server.go and AidAttestation of agent.go: the services on the clients of Incus and the streams of SPIRE.
use incus_spire_attestor.Prelude.{ℕ, true, Option, none, some, Bytes}
use incus_spire_attestor.Errors.{Result, ok, err, Error, text}
use incus_spire_attestor.Golang.Context.{Context, rpc}
use incus_spire_attestor.Golang.Json.{Codec}
use incus_spire_attestor.Server.Ports as ServerPorts
use incus_spire_attestor.Server.Service as ServerService
use incus_spire_attestor.Agent.Ports as AgentPorts
use incus_spire_attestor.Agent.Service as AgentService
use incus_spire_attestor.Host.Ports as HostPorts
use incus_spire_attestor.Host.Client as HostClient
use incus_spire_attestor.Host.Mutate as HostMutate
use incus_spire_attestor.Guest.Ports as GuestPorts
use incus_spire_attestor.Guest.Client as GuestClient
use incus_spire_attestor.Guest.Metadata.{Decoder}
use incus_spire_attestor.Spire.Codes.{Status, failed_precondition}
use incus_spire_attestor.Spire.Ports.{ServerRuntime}
use incus_spire_attestor.Spire.AgentPlugin.{AgentRuntime}
use incus_spire_attestor.Spire.ServerPlugin.{status_of}
use incus_spire_attestor.Spire.Exchange.{ServerStream, AgentStream}
use incus_spire_attestor.Spire.Exchange

-- errNotConfigured.
abbrev pub not_configured : Status
not_configured = record { code = failed_precondition; message = text "plugin is not configured" }

-- A mutation without the end of its fuel, which it does not reach on a clock.
abbrev pub ended : {S : Type 0} → Result (Option (Unit {0})) × S → Result (Unit {0}) × S
ended (ok (some _), s) = (ok tt, s)
ended (ok none, s) = (err (text "fuel"), s)
ended (err e, s) = (err e, s)

-- A call of the environment, from the state of a run of the host or guest client.
abbrev pub in_host :
    {W A : Type 0} → (W → Result A × W) → HostPorts.Run W → Result A × HostPorts.Run W
in_host call s = let (r, w) = call s.world in (r, record s { world = w })

abbrev pub in_guest :
    {W A : Type 0} → (W → Result A × W) → GuestPorts.Run W → Result A × GuestPorts.Run W
in_guest call s = let (r, w) = call s.world in (r, record s { world = w })

-- What the server's attestation is given: the library of Incus, the stream, and the random reader.
pub record ServerEnvironment (W : Type 0) : Type 0 where
  pub incus : HostPorts.Ports W
  pub stream : ServerStream W
  pub read_full : ℕ → W → Result Bytes × W

module _ {W : Type 0} (parse_uuid : Bytes → Option Bytes) (codec : Codec) (fuel : ℕ)
    (environment : ServerEnvironment W) where
  -- The host client and the server exchange as the ports of the service.
  unfoldable pub server_ports : HostClient.Client → ServerPorts.Ports (HostPorts.Run W)
  server_ports client = record {
    lookup =
        λ ctx project name. HostClient.lookup environment.incus parse_uuid client ctx project name;
    set_nonce = λ ctx target key nonce s.
        ended (HostMutate.set_nonce environment.incus parse_uuid fuel ctx target key nonce s);
    unset_nonce = λ ctx target key s.
        ended (HostMutate.unset_nonce environment.incus parse_uuid fuel ctx target key s);
    receive_payload = λ ctx. in_host (Exchange.receive_payload environment.stream ctx);
    send_challenge = λ ctx raw. in_host (Exchange.send_challenge environment.stream ctx raw);
    receive_response = λ ctx. in_host (Exchange.receive_response environment.stream ctx);
    send_attributes = λ ctx attrs. in_host (Exchange.send_attributes environment.stream ctx attrs);
    read_full = λ n. in_host (environment.read_full n);
  }

  -- Attest of the server plugin, on the runtime that it loaded.
  unfoldable pub attest :
      Option ServerRuntime
      → ServerPorts.Run (HostPorts.Run W)
      → Option Status × ServerPorts.Run (HostPorts.Run W)
  attest none s = (some not_configured, s)
  attest (some rt) s =
      let (r, s') =
        ServerService.attest parse_uuid codec (server_ports rt.client) rt.service true s in
      (status_of r, s')

-- What the agent's attestation is given: the guest API, the stream, the waits, and the contexts.
pub record AgentEnvironment (W : Type 0) : Type 0 where
  pub guest : GuestPorts.Ports W
  pub decoder : Decoder
  pub stream : AgentStream W
  pub wait : Context → ℕ → W → Result (Unit {0}) × W
  pub context_err : Context → W → Option Error

module _ {W : Type 0} (parse_uuid : Bytes → Option Bytes) (codec : Codec)
    (environment : AgentEnvironment W) where
  -- The guest client and the agent exchange as the ports of the service.
  unfoldable pub agent_ports : GuestClient.Client → AgentPorts.Ports (GuestPorts.Run W)
  agent_ports client = record {
    claims = GuestClient.claims environment.guest parse_uuid client environment.decoder rpc;
    read_config = λ ctx key. GuestClient.read_config environment.guest ctx key;
    send_payload = λ raw. in_guest (Exchange.send_payload environment.stream raw);
    receive_challenge = in_guest (Exchange.receive_challenge environment.stream);
    send_response = λ raw. in_guest (Exchange.send_response environment.stream raw);
    wait = λ ctx delay. in_guest (environment.wait ctx delay);
    context_err = λ ctx s. environment.context_err ctx s.world;
  }

  -- The status of AidAttestation; `none` inside is the end of the fuel of the polling.
  unfoldable pub aid_attestation :
      Option AgentRuntime
      → AgentPorts.Run (GuestPorts.Run W)
      → Option Status × AgentPorts.Run (GuestPorts.Run W)
  aid_attestation none s = (some not_configured, s)
  aid_attestation (some rt) s =
      let (r, s') =
        AgentService.attest parse_uuid codec (agent_ports rt.guest) rt.service.poll_timeout true
          s in
      (status_of r, s')
