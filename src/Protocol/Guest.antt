-- ===== src/Protocol/Guest.antt =====
-- The agent of the modelled code, in a guest that has the nonce: behind its claims it answers the challenge.
use incus_spire_attestor.Prelude.{ℕ, ◌≡◌, refl, ◌∙◌, Option, some, List, [], ◌∷◌, ◌++◌, Bytes}
use incus_spire_attestor.Errors.{ok}
use incus_spire_attestor.Exec.{lift, wrapped, pure, attempt, ◌>>=◌}
use incus_spire_attestor.Golang.Base64
use incus_spire_attestor.Golang.Context.{Context, rpc, with_timeout}
use incus_spire_attestor.Golang.Json.{Codec, CodecLaws}
use incus_spire_attestor.Attest.Types.{IsBytes16}
use incus_spire_attestor.Wire.Challenge.{encode_challenge}
use incus_spire_attestor.Wire.Challenge.RoundTrip.{decode_challenge-encode_challenge}
use incus_spire_attestor.Wire.Response.{encode_response}
use incus_spire_attestor.Wire.Response.RoundTrip.{parse_nonce-encode}
use incus_spire_attestor.Agent.Ports.{
  Event, Ports, Run, ask, challenge_received, config_read, response_sent,
}
use incus_spire_attestor.Agent.Poll.{poll, poll_config, poll_fuel, conclude, judge, read_config}
use incus_spire_attestor.Agent.Service.{answer_challenge, receive_key, respond, polled}

-- The environment of an agent.
abbrev pub Agent : Type 0 → Type 0
Agent V = Ports V

-- The guest API shows the values `stored`, and what the agent sends is taken.
pub record IsGuest {V : Type 0} (agent : Agent V) (stored : V → Bytes → Option Bytes) : Type 0 where
  pub reads :
      (ctx : Context) (key : Bytes) (v : V) → (agent.read_config ctx key v).0 ≡ ok (stored v key)
  pub receive_keeps :
      (key : Bytes) (v : V) → stored (agent.receive_challenge v).1 key ≡ stored v key
  pub responds : (response : Bytes) (v : V) → (agent.send_response response v).0 ≡ ok tt

abbrev waiting : {V : Type 0} → V → Run V
waiting v = record { world = v; trace = [] }

module _ {V : Type 0} (codec : Codec) (parse_uuid : Bytes → Option Bytes) (agent : Agent V)
    (poll_timeout : ℕ) where
  -- The calls of an agent that has sent its claims and waits for the challenge in this state.
  abbrev pub calls_from : V → List Event
  calls_from v = (answer_challenge parse_uuid codec agent poll_timeout (waiting v)).1.trace

  -- The last call of the agent is a response, which was taken.
  pub record IsResponding (v : V) (response : Bytes) : Type 0 where
    pub earlier : List Event
    pub calls : calls_from v ≡ earlier ++ response_sent response (ok tt) ∷ []

  answer_challenge-trace :
      (stored : V → Bytes → Option Bytes) (v : V) (key nonce challenge response : Bytes)
      → CodecLaws codec
      → IsBytes16 nonce
      → IsGuest agent stored
      → (agent.receive_challenge v).0 ≡ ok challenge
      → stored v key ≡ some (Base64.encode nonce)
      → encode_challenge codec key ≡ ok challenge
      → encode_response codec nonce ≡ ok response
      → (answer_challenge parse_uuid codec agent poll_timeout (waiting v)).1.trace
        ≡ challenge_received (ok challenge)
          ∷ config_read (with_timeout rpc poll_timeout) key (ok (some (Base64.encode nonce)))
          ∷ response_sent response (ok tt)
          ∷ []
  unfolding answer_challenge receive_key respond polled poll poll_config poll_fuel conclude judge
      read_config ask pure lift wrapped attempt ◌>>=◌
  answer_challenge-trace stored v key nonce challenge response laws small guest arrived there sent
        replied =
      rw
        (
          arrived,
          decode_challenge-encode_challenge codec laws key challenge sent,
          guest.reads,
          guest.receive_keeps,
          there,
          parse_nonce-encode nonce small,
          replied,
          guest.responds,
        )
        refl

  -- The agent that finds the text of a nonce under the key of the challenge responds with the nonce.
  pub answer_challenge-IsResponding :
      (stored : V → Bytes → Option Bytes) (v : V) (key nonce challenge response : Bytes)
      → CodecLaws codec
      → IsBytes16 nonce
      → IsGuest agent stored
      → (agent.receive_challenge v).0 ≡ ok challenge
      → stored v key ≡ some (Base64.encode nonce)
      → encode_challenge codec key ≡ ok challenge
      → encode_response codec nonce ≡ ok response
      → IsResponding v response
  answer_challenge-IsResponding stored v key nonce challenge response laws small guest arrived there
        sent replied =
      record {
        earlier =
            challenge_received (ok challenge)
            ∷ config_read (with_timeout rpc poll_timeout) key (ok (some (Base64.encode nonce)))
            ∷ [];
        calls =
            answer_challenge-trace stored v key nonce challenge response laws small guest arrived
              there sent replied
            ∙ refl;
      }
