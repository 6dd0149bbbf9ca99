-- ===== src/Server/Service/Attested.antt =====
-- What it takes for a whole attestation to succeed, from the payload to the attributes.
use incus_spire_attestor.Prelude.{
  ◌≡◌, refl, sym, ap, ◌∙◌, subst, true, Option, List, [], ◌∷◌, ◌++◌, append_assoc, arith, Bytes,
  length,
}
use incus_spire_attestor.Errors.{Result, ok, wrap}
use incus_spire_attestor.Exec.{pure, lift, lift_then, wrapped_then, then_of}
use incus_spire_attestor.Golang.Json.{Codec}
use incus_spire_attestor.Attest.Types.{Claims}
use incus_spire_attestor.Attest.Nonce.{new_nonce, new_config_key_from_attempt_id}
use incus_spire_attestor.Attest.Claims.{validate_claims}
use incus_spire_attestor.Wire.Payload.{decode_payload}
use incus_spire_attestor.Server.Ports.{
  rpc, with_timeout, Event, payload_received, random_read, Ports, Run, call, receive_payload,
  read_full,
}
use incus_spire_attestor.Server.Resolve.Resolved.{IsResolved, Resolves, resolve_instance_ok}
use incus_spire_attestor.Server.Service.{
  Service, Attempt, read_random_pair, prepare, attest_armed, attest, attest_exchange,
}
use incus_spire_attestor.Server.Service.Accepted.{IsAccepted, attest_armed_ok}

new_nonce_ok : (raw nonce : Bytes) → new_nonce raw ≡ ok nonce → (raw ≡ nonce) × (length nonce ≡ 16)
unfolding new_nonce
new_nonce_ok raw nonce h = (ground arith, ground arith)

ok_injective : {A : Type 0} (x y : A) → ok x ≡ ok y → x ≡ y
ok_injective x y h = ground (arith, h)

module _ {W : Type 0} (parse_uuid : Bytes → Option Bytes) (codec : Codec) (ports : Ports W)
    (service : Service) where
  answered :
      {A : Type 0} (ask : W → Result A × W) (event : Result A → Event) (s : Run W) (x : A)
      → (call ask event s).0 ≡ ok x
      → (call ask event s).1.trace ≡ s.trace ++ event (ok x) ∷ []
  unfolding call
  answered ask event s x h = ap (λ r. s.trace ++ event r ∷ []) h

  read_random_pair_ok :
      (s : Run W) (id nonce : Bytes)
      → (read_random_pair parse_uuid codec ports service s).0 ≡ ok (id, nonce)
      → (length nonce ≡ 16)
        × ((read_random_pair parse_uuid codec ports service s).1.trace
            ≡ s.trace ++ random_read 16 (ok id) ∷ random_read 16 (ok nonce) ∷ [])
  unfolding read_random_pair read_full lift pure
  read_random_pair_ok s id nonce h =
      let (id', a1, e1, h1) = wrapped_then (wrap "read attempt id") _ _ s (id, nonce) h in
      let (raw, a2, e2, h2) = wrapped_then (wrap "read nonce") _ _ _ (id, nonce) h1 in
      let (nonce', a3, e3, h3) =
        wrapped_then (wrap "read nonce") (lift (new_nonce raw)) _ _ (id, nonce) h2 in
      let pair = ok_injective (id', nonce') (id, nonce) h3 in
      let (same_raw, size) = new_nonce_ok raw nonce' a3 in
      let same_nonce = ap (λ (p : Bytes × Bytes). p.1) pair in
      (
        ap length (sym same_nonce) ∙ size,
        ap (λ (p : Result (Bytes × Bytes) × Run W). p.1.trace) (e1 ∙ e2 ∙ e3)
            ∙ answered _ _ _ nonce (a2 ∙ ap ok (same_raw ∙ same_nonce))
            ∙ ap (λ t. t ++ random_read 16 (ok nonce) ∷ [])
                (answered _ _ s id (a1 ∙ ap ok (ap (λ (p : Bytes × Bytes). p.0) pair)))
            ∙ append_assoc s.trace _ _,
      )

  -- What one attempt is prepared from: the payload and its claims, the calls of the search, the instance it
  -- resolved, and two random values for the key and the nonce.
  pub record IsPrepared (before after : List Event) (a : Attempt) : Type 0 where
    pub raw : Bytes
    pub claims : Claims
    pub asked : List Event
    pub attempt_id : Bytes
    pub decoded : decode_payload parse_uuid codec raw ≡ ok claims
    pub resolved :
        IsResolved parse_uuid
          (with_timeout rpc service.incus_timeout)
          service.projects
          claims
          asked
          a.target
    pub key : a.key ≡ new_config_key_from_attempt_id attempt_id
    pub nonce_size : length a.nonce ≡ 16
    pub calls :
        after
        ≡ before
          ++ payload_received (ok raw)
            ∷ (asked ++ random_read 16 (ok attempt_id) ∷ random_read 16 (ok a.nonce) ∷ [])

  prepare_ok :
      (s : Run W) (a : Attempt)
      → (prepare parse_uuid codec ports service s).0 ≡ ok a
      → IsPrepared s.trace (prepare parse_uuid codec ports service s).1.trace a
  unfolding prepare receive_payload lift pure Resolves
  prepare_ok s a h =
      let (raw, a1, e1, h1) = wrapped_then (wrap "receive payload") _ _ s a h in
      let (claims, a2, e2, h2) = lift_then (decode_payload parse_uuid codec raw) _ _ a h1 in
      let (_, a3, e3, h3) = lift_then (validate_claims parse_uuid claims) _ _ a h2 in
      let (target, a4, e4, h4) = then_of _ _ _ a h3 in
      let (pair, a5, e5, h5) = then_of _ _ _ a h4 in
      let made = ok_injective _ a h5 in
      let (asked, trace4, resolved) =
        resolve_instance_ok parse_uuid ports service.incus_timeout service.projects claims _ target
          a4 in
      let (size, trace5) = read_random_pair_ok _ pair.0 pair.1 a5 in
      subst (IsPrepared s.trace (prepare parse_uuid codec ports service s).1.trace) made (record {
        raw = raw;
        claims = claims;
        asked = asked;
        attempt_id = pair.0;
        decoded = a2;
        resolved = resolved;
        key = refl;
        nonce_size = size;
        calls =
            ap (λ (p : Result Attempt × Run W). p.1.trace) (e1 ∙ e2 ∙ e3 ∙ e4 ∙ e5)
            ∙ trace5
            ∙ ap (λ t. t ++ random_read 16 (ok pair.0) ∷ random_read 16 (ok pair.1) ∷ []) trace4
            ∙ append_assoc _ asked _
            ∙ ap (λ t. t ++ (asked ++ random_read 16 (ok pair.0) ∷ random_read 16 (ok pair.1) ∷ []))
                (answered _ _ s raw a1)
            ∙ append_assoc s.trace _ _;
      })

  -- Attest succeeds only after these calls, in this order, and no others: a payload was received;
  -- its claimed name was looked up, and an instance that a lookup in an allowed project returned
  -- matches the claims; two random values were read, for the key and for a nonce of 16 bytes; the
  -- nonce was set on that instance under that key; the guest was challenged with the key and
  -- answered with the nonce; the key was removed; the attributes of that instance were sent.
  pub attest_ok :
      (s : Run W)
      → (attest parse_uuid codec ports service true s).0 ≡ ok tt
      → (a : Attempt) × (prepared : List Event) × IsPrepared s.trace prepared a
        × IsAccepted parse_uuid codec ports service a prepared
            (attest parse_uuid codec ports service true s).1.trace
  unfolding attest attest_exchange
  attest_ok s h =
      let (a, a1, e, h1) =
        then_of (prepare parse_uuid codec ports service)
          (attest_armed parse_uuid codec ports service) s tt h in
      (
        a,
        (prepare parse_uuid codec ports service s).1.trace,
        prepare_ok s a a1,
        subst (IsAccepted parse_uuid codec ports service a _)
            (ap (λ (p : Result (Unit {0}) × Run W). p.1.trace) (sym e))
            (attest_armed_ok parse_uuid codec ports service a _ h1),
      )
