-- ===== src/Agent/Service/Answered.antt =====
-- What a successful run of the agent did.
use incus_spire_attestor.Prelude.{
  ℕ, ◌≡◌, refl, ap, ◌∙◌, subst, true, Option, none, some, List, [], ◌∷◌, ◌++◌, append_assoc, arith,
  Bytes,
}
use incus_spire_attestor.Errors.{Result, ok, Error, wrap}
use incus_spire_attestor.Exec.{Exec, pure, lift, wrapped, ◌>>=◌, then_of, wrapped_then, wrapped_ok}
use incus_spire_attestor.Golang.Context.{rpc, with_timeout}
use incus_spire_attestor.Golang.Base64
use incus_spire_attestor.Golang.Json.{Codec}
use incus_spire_attestor.Attest.Types.{Claims, IsBytes16}
use incus_spire_attestor.Attest.Claims.{validate_claims}
use incus_spire_attestor.Wire.Challenge.{decode_challenge}
use incus_spire_attestor.Wire.Response.{parse_nonce, encode_response}
use incus_spire_attestor.Wire.Response.RoundTrip.{parse_nonce_sound}
use incus_spire_attestor.Wire.Payload.{encode_payload}
use incus_spire_attestor.Agent.Ports.{
  Event, claims_read, payload_sent, challenge_received, response_sent, Ports, Run, ask,
}
use incus_spire_attestor.Agent.Poll.{poll_config}
use incus_spire_attestor.Agent.Poll.Calls.{IsPolled, poll_config_ok}
use incus_spire_attestor.Agent.Service.{
  send_claims, receive_key, respond, polled, attest_exchange, answer_challenge, attest,
}

module _ {W : Type 0} (parse_uuid : Bytes → Option Bytes) (codec : Codec) (ports : Ports W)
    (poll_timeout : ℕ) where
  -- A run of the agent that ended well: valid claims were sent, a challenge was received with a key in the
  -- grammar, that key was polled, and the response carries the nonce that its value spells.
  pub record IsAnswered (before after : List Event) : Type 0 where
    pub claims : Claims
    pub payload : Bytes
    pub challenge : Bytes
    pub key : Bytes
    pub nonce : Bytes
    pub response : Bytes
    pub through : List Event
    pub valid : validate_claims parse_uuid claims ≡ ok tt
    pub encoded : encode_payload parse_uuid codec claims ≡ ok payload
    pub challenged : decode_challenge codec challenge ≡ ok key
    pub nonce_bytes : IsBytes16 nonce
    pub answered : encode_response codec nonce ≡ ok response
    pub polling :
        IsPolled
          (with_timeout rpc poll_timeout)
          key
          (Base64.encode nonce)
          (before
            ++ claims_read (ok claims)
              ∷ payload_sent payload (ok tt)
              ∷ challenge_received (ok challenge)
              ∷ [])
          through
    pub calls : after ≡ through ++ response_sent response (ok tt) ∷ []

  asked :
      {A : Type 0} (port : W → Result A × W) (event : Result A → Event) (s : Run W) (x : A)
      → (ask port event s).0 ≡ ok x
      → (ask port event s).1.trace ≡ s.trace ++ event (ok x) ∷ []
  unfolding ask
  asked port event s x h = ap (λ r. s.trace ++ event r ∷ []) h

  -- A wrapped result that is followed by a success.
  checked_then :
      {A B : Type 0} (f : Error → Error) (r : Result A) (k : A → Exec (Run W) B) (s : Run W) (b : B)
      → ((wrapped f (lift r) >>= k) s).0 ≡ ok b
      → (x : A) × (r ≡ ok x) × ((wrapped f (lift r) >>= k) s ≡ k x s) × ((k x s).0 ≡ ok b)
  unfolding lift
  checked_then f r k s b h = wrapped_then f (lift r) k s b h

  Sent : Run W → Run W → Type 0
  Sent s t =
      (claims : Claims) × (payload : Bytes) × (validate_claims parse_uuid claims ≡ ok tt)
      × (encode_payload parse_uuid codec claims ≡ ok payload)
      × (t.trace ≡ s.trace ++ claims_read (ok claims) ∷ payload_sent payload (ok tt) ∷ [])

  send_claims_ok :
      (s : Run W)
      → (send_claims parse_uuid codec ports poll_timeout s).0 ≡ ok tt
      → Sent s (send_claims parse_uuid codec ports poll_timeout s).1
  unfolding send_claims Sent
  send_claims_ok s h =
      let (claims, a1, e1, h1) = wrapped_then (wrap "read guest claims") _ _ s tt h in
      let (_, a2, e2, h2) =
        checked_then (wrap "validate guest claims") (validate_claims parse_uuid claims) _ _ tt h1 in
      let (payload, a3, e3, h3) =
        checked_then (wrap "encode payload") (encode_payload parse_uuid codec claims) _ _ tt h2 in
      let (a4, state) =
        wrapped_ok (wrap "send payload") (ask (ports.send_payload payload) (payload_sent payload)) _
          tt h3 in
      (
        claims,
        payload,
        a2,
        a3,
        ap (λ (p : Result (Unit {0}) × Run W). p.1.trace) (e1 ∙ e2 ∙ e3)
            ∙ ap (λ (t : Run W). t.trace) state
            ∙ asked _ _ _ tt a4
            ∙ ap (λ t. t ++ payload_sent payload (ok tt) ∷ []) (asked _ _ s claims a1)
            ∙ append_assoc s.trace _ _,
      )

  receive_key_ok :
      (s : Run W) (key : Bytes)
      → (receive_key parse_uuid codec ports poll_timeout s).0 ≡ ok key
      → (challenge : Bytes) × (decode_challenge codec challenge ≡ ok key)
        × ((receive_key parse_uuid codec ports poll_timeout s).1.trace
            ≡ s.trace ++ challenge_received (ok challenge) ∷ [])
  unfolding receive_key lift
  receive_key_ok s key h =
      let (challenge, a1, e1, h1) = wrapped_then (wrap "receive challenge") _ _ s key h in
      let (a2, state) =
        wrapped_ok (wrap "decode challenge") (lift (decode_challenge codec challenge)) _ key h1 in
      (
        challenge,
        a2,
        ap (λ (p : Result Bytes × Run W). p.1.trace) e1
            ∙ ap (λ (t : Run W). t.trace) state
            ∙ asked _ _ s challenge a1,
      )

  respond_ok :
      (value : Bytes) (s : Run W)
      → (respond parse_uuid codec ports poll_timeout value s).0 ≡ ok tt
      → (nonce : Bytes) × (response : Bytes) × (parse_nonce value ≡ ok nonce)
        × (encode_response codec nonce ≡ ok response)
        × ((respond parse_uuid codec ports poll_timeout value s).1.trace
            ≡ s.trace ++ response_sent response (ok tt) ∷ [])
  unfolding respond
  respond_ok value s h =
      let (nonce, a1, e1, h1) = checked_then (wrap "parse nonce") (parse_nonce value) _ s tt h in
      let (response, a2, e2, h2) =
        checked_then (wrap "encode response") (encode_response codec nonce) _ s tt h1 in
      let (a3, state) =
        wrapped_ok (wrap "send response")
          (ask (ports.send_response response) (response_sent response)) s tt h2 in
      (
        nonce,
        response,
        a1,
        a2,
        ap (λ (p : Result (Unit {0}) × Run W). p.1.trace) (e1 ∙ e2)
            ∙ ap (λ (t : Run W). t.trace) state
            ∙ asked _ _ s tt a3,
      )

  polled_ok :
      (value : Option Bytes) (s : Run W)
      → (polled (respond parse_uuid codec ports poll_timeout) value s).0 ≡ ok (some tt)
      → (text : Bytes) × (value ≡ some text)
        × ((respond parse_uuid codec ports poll_timeout text s).0 ≡ ok tt)
        × ((polled (respond parse_uuid codec ports poll_timeout) value s).1
            ≡ (respond parse_uuid codec ports poll_timeout text s).1)
  unfolding polled pure
  polled_ok none s h = absurd (ground (arith, h))
  polled_ok (some text) s h =
      let (_, a, e, _) =
        then_of (respond parse_uuid codec ports poll_timeout text) (λ u. pure (some u)) s (some tt)
          h in
      (text, refl, a, ap (λ (p : Result (Option (Unit {0})) × Run W). p.1) e)

  -- A polling in other words for its value and for the calls before it.
  polling_as :
      {key value value' : Bytes} {before before' after : List Event}
      → value ≡ value'
      → before ≡ before'
      → IsPolled (with_timeout rpc poll_timeout) key value before after
      → IsPolled (with_timeout rpc poll_timeout) key value' before' after
  polling_as {key = key} {value' = value'} {before = before} {after = after} e e' p =
      subst (λ t. IsPolled (with_timeout rpc poll_timeout) key value' t after) e'
        (subst (λ t. IsPolled (with_timeout rpc poll_timeout) key t before after) e p)

  -- A successful Attest of the agent sent valid claims, received a challenge with a key, read that key and no
  -- other until its value was there, found the one spelling of a nonce of 16 bytes in it, and sent the
  -- response that encodes this nonce. No other call was made.
  pub agent_attest_ok :
      (s : Run W)
      → (attest parse_uuid codec ports poll_timeout true s).0 ≡ ok (some tt)
      → IsAnswered s.trace (attest parse_uuid codec ports poll_timeout true s).1.trace
  unfolding attest attest_exchange answer_challenge Sent
  agent_attest_ok s h =
      let (_, a1, e1, h1) =
        then_of (send_claims parse_uuid codec ports poll_timeout) _ s (some tt) h in
      let (claims, payload, valid, encoded, trace1) = send_claims_ok s a1 in
      let (key, a2, e2, h2) =
        then_of (receive_key parse_uuid codec ports poll_timeout) _ _ (some tt) h1 in
      let (challenge, challenged, trace2) = receive_key_ok _ key a2 in
      let (value, a3, e3, h3) = then_of (poll_config ports poll_timeout key) _ _ (some tt) h2 in
      let (text, there, a4, state) = polled_ok value _ h3 in
      let (nonce, response, parsed, answered, trace4) = respond_ok text _ a4 in
      let (bytes, spelled) = parse_nonce_sound text nonce parsed in
      let polling = poll_config_ok ports poll_timeout key _ text (a3 ∙ ap ok there) in
      record {
        claims = claims;
        payload = payload;
        challenge = challenge;
        key = key;
        nonce = nonce;
        response = response;
        through = _;
        valid = valid;
        encoded = encoded;
        challenged = challenged;
        nonce_bytes = bytes;
        answered = answered;
        polling =
            polling_as spelled
              (trace2
                ∙ ap (λ t. t ++ challenge_received (ok challenge) ∷ []) trace1
                ∙ append_assoc s.trace _ _)
              polling;
        calls =
            ap (λ (p : Result (Option (Unit {0})) × Run W). p.1.trace) (e1 ∙ e2 ∙ e3)
            ∙ ap (λ (t : Run W). t.trace) state
            ∙ trace4;
      }
