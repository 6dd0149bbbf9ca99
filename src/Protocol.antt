-- ===== src/Protocol.antt =====
-- How the two sides of the protocol fit together: the server, and the agent of the modelled code in the guest.
pub mod Guest
use incus_spire_attestor.Prelude.{
  ℕ, ◌≡◌, refl, ◌∙◌, Option, none, some, [], ◌∷◌, arith, Bytes, same_self, length, true,
}
use incus_spire_attestor.Errors.{Result, ok, err}
use incus_spire_attestor.Exec
use incus_spire_attestor.Exec.{lift, wrapped, Exec, pure, attempt}
use incus_spire_attestor.Golang.Base64
use incus_spire_attestor.Golang.Json.{Codec, CodecLaws}
use incus_spire_attestor.Attest.Types.{IsBytes16, Instance, Attributes}
use incus_spire_attestor.Attest.Nonce.{verify_nonce}
use incus_spire_attestor.Wire.Challenge.{encode_challenge}
use incus_spire_attestor.Wire.Response.{encode_response}
use incus_spire_attestor.Wire.Response.RoundTrip.{decode_response-encode_response}
use incus_spire_attestor.Protocol.Guest.{
  Agent, IsGuest, IsResponding, answer_challenge-IsResponding,
}
use incus_spire_attestor.Server.Ports.{
  set_nonce, unset_nonce, send_attributes, Context, rpc, Ports, Run, send_challenge,
  receive_response, call,
}
use incus_spire_attestor.Server.Cleanup.{
  arm, run, annotate_cleanup, return_unless_nil, or_cleanup, guarded,
}
use incus_spire_attestor.Attest.Attributes.{build_attributes}
use incus_spire_attestor.Server.Service.{
  attest, attest_exchange, prepare, attest_armed, store_nonce, finish, Service, Attempt,
  challenge_guest,
}

verify_nonce_self : (nonce : Bytes) → length nonce ≡ 16 → verify_nonce nonce nonce ≡ ok tt
unfolding verify_nonce
verify_nonce_self nonce h = ground (arith, h, same_self nonce)

-- An Incus that carries out every change of a key, and a stream that takes the attributes.
pub record IsWilling {W : Type 0} (ports : Ports W) : Type 0 where
  pub sets :
      (ctx : Context) (target : Instance) (key nonce : Bytes) (w : W)
      → (ports.set_nonce ctx target key nonce w).0 ≡ ok tt
  pub unsets :
      (ctx : Context) (target : Instance) (key : Bytes) (w : W)
      → (ports.unset_nonce ctx target key w).0 ≡ ok tt
  pub takes : (attrs : Attributes) (w : W) → (ports.send_attributes rpc attrs w).0 ≡ ok tt

module _ {W V : Type 0} (codec : Codec) (parse_uuid : Bytes → Option Bytes) (ports : Ports W)
    (agent : Agent V) (poll_timeout : ℕ) (view : W → V) (stored : V → Bytes → Option Bytes)
    (service : Service) (a : Attempt) where
  -- The server and the agent in the target are connected, where `view` is what the guest sees: a value that the server
  -- stores under a key of the target shows up in the guest API and is still there behind the challenge; the challenge
  -- arrives; and so does the response of the agent that has the challenge.
  pub record IsConnected : Type 0 where
    pub stores :
        (ctx : Context) (key value : Bytes) (w : W)
        → stored (view (ports.set_nonce ctx a.target key value w).1) key ≡ some value
    pub challenge_keeps :
        (key challenge : Bytes) (w : W)
        → stored (view (ports.send_challenge rpc challenge w).1) key ≡ stored (view w) key
    pub sends : (challenge : Bytes) (w : W) → (ports.send_challenge rpc challenge w).0 ≡ ok tt
    pub challenge_arrives :
        (challenge : Bytes) (w : W)
        → (agent.receive_challenge (view (ports.send_challenge rpc challenge w).1)).0 ≡ ok challenge
    pub response_arrives :
        (ctx : Context) (w : W) (response : Bytes)
        → IsResponding codec parse_uuid agent poll_timeout (view w) response
        → (ports.receive_response ctx w).0 ≡ ok response

  -- What the server receives behind the store and the challenge.
  received :
      (set_ctx ctx : Context) (challenge response : Bytes) (w : W)
      → CodecLaws codec
      → IsGuest agent stored
      → IsConnected
      → IsBytes16 a.nonce
      → encode_challenge codec a.key ≡ ok challenge
      → encode_response codec a.nonce ≡ ok response
      → (ports.receive_response ctx
          (ports.send_challenge rpc challenge
            (ports.set_nonce set_ctx a.target a.key (Base64.encode a.nonce) w).1).1).0
        ≡ ok response
  received set_ctx ctx challenge response w laws guest connected small sent replied =
      let stored_world = (ports.set_nonce set_ctx a.target a.key (Base64.encode a.nonce) w).1 in
      connected.response_arrives ctx _ response (
        answer_challenge-IsResponding codec parse_uuid agent poll_timeout stored _ a.key a.nonce
          challenge response laws small guest (connected.challenge_arrives challenge stored_world)
          (connected.challenge_keeps a.key challenge stored_world
            ∙ connected.stores set_ctx a.key (Base64.encode a.nonce) w)
          sent replied)

  armed_accepted :
      (challenge response : Bytes) (attrs : Attributes) (s : Run W)
      → CodecLaws codec
      → IsGuest agent stored
      → IsConnected
      → IsWilling ports
      → IsBytes16 a.nonce
      → encode_challenge codec a.key ≡ ok challenge
      → encode_response codec a.nonce ≡ ok response
      → build_attributes parse_uuid service.trust_domain a.target service.user_selectors ≡ ok attrs
      → (attest_armed parse_uuid codec ports service a s).0 ≡ ok tt
  unfolding attest_armed arm store_nonce challenge_guest finish run or_cleanup guarded attempt pure
      lift wrapped Exec.◌>>=◌ set_nonce unset_nonce send_challenge receive_response send_attributes
      call annotate_cleanup return_unless_nil
  armed_accepted challenge response attrs s laws guest connected willing small sent replied built =
      rw
        (
          sent,
          willing.sets,
          connected.sends,
          received _ _ challenge response s.world laws guest connected small sent replied,
          decode_response-encode_response codec laws a.nonce response small replied,
          verify_nonce_self a.nonce (small.0),
          willing.unsets,
          built,
          willing.takes,
        )
        refl

  -- Attest of the server succeeds if the payload led to an attempt with a nonce of 16 bytes, the agent in the target runs the
  -- modelled code behind its claims and is connected to the server, Incus carries out the changes of the key,
  -- challenge and response are within the limit of the wire format, the instance has attributes, and the stream takes
  -- them.
  pub honest_guest_attested :
      (challenge response : Bytes) (attrs : Attributes) (s : Run W)
      → CodecLaws codec
      → IsGuest agent stored
      → IsConnected
      → IsWilling ports
      → (prepare parse_uuid codec ports service s).0 ≡ ok a
      → IsBytes16 a.nonce
      → encode_challenge codec a.key ≡ ok challenge
      → encode_response codec a.nonce ≡ ok response
      → build_attributes parse_uuid service.trust_domain a.target service.user_selectors ≡ ok attrs
      → (attest parse_uuid codec ports service true s).0 ≡ ok tt
  unfolding attest attest_exchange Exec.◌>>=◌
  honest_guest_attested challenge response attrs s laws guest connected willing prepared small sent
        replied built =
      rw prepared (
        armed_accepted challenge response attrs _ laws guest connected willing small sent replied
          built)
