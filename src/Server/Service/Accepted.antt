-- ===== src/Server/Service/Accepted.antt =====
-- What it takes for Attest to succeed.
use incus_spire_attestor.Prelude.{
  ◌≡◌, refl, sym, ap, ◌∙◌, subst, Option, none, some, List, [], ◌∷◌, ◌++◌, append_assoc, arith,
  Bytes, same_iff,
}
use incus_spire_attestor.Errors.{Result, ok, Error, wrap}
use incus_spire_attestor.Exec.{lift, attempt, ◌>>=◌, ◌>>◌, bind_ok, lift_then, wrapped_ok}
use incus_spire_attestor.Golang.Base64
use incus_spire_attestor.Golang.Json.{Codec}
use incus_spire_attestor.Attest.Types.{Attributes}
use incus_spire_attestor.Attest.Nonce.{verify_nonce}
use incus_spire_attestor.Attest.Attributes.{build_attributes}
use incus_spire_attestor.Wire.Challenge.{encode_challenge}
use incus_spire_attestor.Wire.Response.{decode_response}
use incus_spire_attestor.Server.Ports.{
  rpc, with_timeout, without_cancel, Event, nonce_set, challenge_sent, response_received,
  nonce_unset, attributes_sent, Ports, Run, set_nonce, send_challenge, receive_response,
  send_attributes,
}
use incus_spire_attestor.Server.Cleanup.{cleanup_context, arm, run, error_of}
use incus_spire_attestor.Server.Service.{
  Service, Attempt, cleanup_of, store_nonce, challenge_guest, finish, attest_armed,
}
use incus_spire_attestor.Server.Service.Steps.{
  call_ok, guarded_ok, checked_then, run_fresh, called_then, return_ok, or_cleanup_ok,
  error_of_none,
}

-- The guest's part of an accepted attempt.
pub record IsAnswered (codec : Codec) (service : Service) (a : Attempt) (before after : List Event)
    : Type 0 where
  pub challenge : Bytes
  pub raw_resp : Bytes
  pub encoded : encode_challenge codec a.key ≡ ok challenge
  pub decoded : decode_response codec raw_resp ≡ ok a.nonce
  pub calls :
      after
      ≡ before
        ++ challenge_sent challenge (ok tt)
          ∷ response_received (with_timeout rpc service.challenge_timeout) (ok raw_resp)
          ∷ []

verify_nonce_ok : (nonce got : Bytes) → verify_nonce nonce got ≡ ok tt → got ≡ nonce
unfolding verify_nonce
verify_nonce_ok nonce got h = ground (arith, same_iff nonce got)

module _ {W : Type 0} (parse_uuid : Bytes → Option Bytes) (codec : Codec) (ports : Ports W)
    (service : Service) (a : Attempt) where
  store_nonce_ok :
      (s : Run W)
      → (store_nonce parse_uuid codec ports service a s).0 ≡ ok tt
      → let t = (store_nonce parse_uuid codec ports service a s).1 in
        (t.trace
          ≡ s.trace
            ++ nonce_set
                (with_timeout rpc service.incus_timeout)
                a.target
                a.key
                (Base64.encode a.nonce)
                (ok tt)
              ∷ [])
        × (t.once ≡ s.once)
  unfolding store_nonce set_nonce
  store_nonce_ok s h =
      let (set, state) = guarded_ok ports (cleanup_of service a) _ _ s tt h in
      let (trace, once) = call_ok _ _ s tt set in
      (ap (λ (t : Run W). t.trace) state ∙ trace, ap (λ (t : Run W). t.once) state ∙ once)

  challenge_guest_ok :
      (s : Run W)
      → (challenge_guest parse_uuid codec ports service a s).0 ≡ ok tt
      → let t = (challenge_guest parse_uuid codec ports service a s).1 in
        IsAnswered codec service a s.trace t.trace × (t.once ≡ s.once)
  unfolding challenge_guest send_challenge receive_response
  challenge_guest_ok s h =
      let c = cleanup_of service a in
      let (challenge, encoded, e1, h1) = checked_then ports c _ _ _ s tt h in
      let (_, s2, trace2, once2, e2, h2) = called_then ports c _ _ _ _ s tt h1 in
      let (raw_resp, s3, trace3, once3, e3, h3) = called_then ports c _ _ _ _ s2 tt h2 in
      let (got, decoded, e4, h4) = checked_then ports c _ _ _ s3 tt h3 in
      let (verified, e5) = or_cleanup_ok ports c _ _ s3 tt h4 in
      let state = ap (λ (p : Result (Unit {0}) × Run W). p.1) (e1 ∙ e2 ∙ e3 ∙ e4) ∙ e5 in
      (
        record {
          challenge = challenge;
          raw_resp = raw_resp;
          encoded = encoded;
          decoded = decoded ∙ ap ok (verify_nonce_ok a.nonce got verified);
          calls =
              ap (λ (t : Run W). t.trace) state ∙ trace3 ∙ (rw trace2 (append_assoc s.trace _ _));
        },
        ap (λ (t : Run W). t.once) state ∙ once3 ∙ once2,
      )

  -- The removal and the attributes, in this order.
  finish_ok :
      (s : Run W)
      → s.once ≡ none
      → (finish parse_uuid codec ports service a s).0 ≡ ok tt
      → let t = (finish parse_uuid codec ports service a s).1 in
        (attrs : Attributes) × (build_attributes parse_uuid service.trust_domain a.target
            service.user_selectors
          ≡ ok attrs)
        × (t.trace
            ≡ s.trace
              ++ nonce_unset (cleanup_context ports (cleanup_of service a)) a.target a.key (ok tt)
                ∷ attributes_sent attrs (ok tt)
                ∷ [])
        × (t.once ≡ some none)
  unfolding finish send_attributes
  finish_ok s fresh h =
      let c = cleanup_of service a in
      let (r, ran, trace1, once1) = run_fresh ports c s fresh in
      let (clean, h1, e1) = bind_ok (run ports c) _ s h in
      let same_clean : error_of r ≡ clean = ground (arith, ran, h1) in
      let (nil, e2, h2) =
        return_ok clean _ _ tt (ap (λ (p : Result (Unit {0}) × Run W). p.0) (sym e1) ∙ h) in
      let (attrs, built, e3, h3) = lift_then _ _ _ tt h2 in
      let (sent, state) = wrapped_ok (wrap "send attributes") _ _ tt h3 in
      let (trace2, once2) = call_ok _ _ _ tt sent in
      let whole = ap (λ (p : Result (Unit {0}) × Run W). p.1) (e1 ∙ e2 ∙ e3) ∙ state in
      let removed : r ≡ ok tt = error_of_none r (same_clean ∙ nil) in
      (
        attrs,
        built,
        ap (λ (t : Run W). t.trace) whole
            ∙ trace2
            ∙ (rw (trace1, removed) (append_assoc s.trace _ _)),
        ap (λ (t : Run W). t.once) whole ∙ once2 ∙ once1 ∙ (rw removed refl),
      )

  -- The calls of an accepted attempt behind the arming, in their order and with their answers.
  pub record IsAccepted (before after : List Event) : Type 0 where
    pub challenge : Bytes
    pub raw_resp : Bytes
    pub attrs : Attributes
    pub encoded : encode_challenge codec a.key ≡ ok challenge
    pub decoded : decode_response codec raw_resp ≡ ok a.nonce
    pub built :
        build_attributes parse_uuid service.trust_domain a.target service.user_selectors ≡ ok attrs
    pub calls :
        after
        ≡ before
          ++ nonce_set
              (with_timeout rpc service.incus_timeout)
              a.target
              a.key
              (Base64.encode a.nonce)
              (ok tt)
            ∷ challenge_sent challenge (ok tt)
            ∷ response_received (with_timeout rpc service.challenge_timeout) (ok raw_resp)
            ∷ nonce_unset
                (with_timeout (without_cancel rpc) service.cleanup_timeout)
                a.target
                a.key
                (ok tt)
            ∷ attributes_sent attrs (ok tt)
            ∷ []

  body_ok :
      (s : Run W)
      → s.once ≡ none
      → let body =
          store_nonce parse_uuid codec ports service a
          >> (challenge_guest parse_uuid codec ports service a
              >> finish parse_uuid codec ports service a) in
        (body s).0 ≡ ok tt → IsAccepted s.trace (body s).1.trace × ((body s).1.once ≡ some none)
  body_ok s fresh h =
      let (_, h1, e1) = bind_ok _ _ s h in
      let (trace1, once1) = store_nonce_ok s h1 in
      let h1' = ap (λ (p : Result (Unit {0}) × Run W). p.0) (sym e1) ∙ h in
      let (_, h2, e2) = bind_ok _ _ _ h1' in
      let (answered, once2) = challenge_guest_ok _ h2 in
      let h2' = ap (λ (p : Result (Unit {0}) × Run W). p.0) (sym e2) ∙ h1' in
      let (attrs, built, trace3, once3) = finish_ok _ (once2 ∙ once1 ∙ fresh) h2' in
      let whole = ap (λ (p : Result (Unit {0}) × Run W). p.1) (e1 ∙ e2) in
      (
        record {
          challenge = answered.challenge;
          raw_resp = answered.raw_resp;
          attrs = attrs;
          encoded = answered.encoded;
          decoded = answered.decoded;
          built = built;
          calls =
              ap (λ (t : Run W). t.trace) whole
              ∙ trace3
              ∙ (rw (answered.calls, trace1) (simp append_assoc));
        },
        ap (λ (t : Run W). t.once) whole ∙ once3,
      )

  run_again :
      (s : Run W) (e : Option Error)
      → s.once ≡ some e
      → (run ports (cleanup_of service a) s).1.trace ≡ s.trace
  unfolding run
  run_again s e h = rw (h, run) refl

  -- An armed attempt that succeeds made exactly these calls.
  pub attest_armed_ok :
      (s : Run W)
      → (attest_armed parse_uuid codec ports service a s).0 ≡ ok tt
      → IsAccepted s.trace (attest_armed parse_uuid codec ports service a s).1.trace
  unfolding attest_armed arm attempt lift ◌>>=◌
  attest_armed_ok s h =
      let (accepted, once) = body_ok (record s { once = none }) refl h in
      subst (IsAccepted s.trace) (sym (run_again _ none once)) accepted
