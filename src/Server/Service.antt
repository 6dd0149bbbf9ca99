-- ===== src/Server/Service.antt =====
-- service.go: one attestation, from the payload to the attributes. `random_mu` only keeps the two reads
-- of one attempt together, as they are here.
pub mod Construct
pub mod Events
pub mod Cleaned
mod Steps
pub mod Accepted
pub mod Attested
use incus_spire_attestor.Prelude.{
  ℕ, zero, suc, ◌+◌, ◌-◌, ◌*◌, ◌/◌, ◌%◌, ◌^◌, ◌≤◌, ◌<◌, String, ◌≡◌, refl, sym, ap, ◌∙◌, subst, ◌≢◌,
  ◌↔◌, ◌⊎◌, inl, inr, Bool, true, false, not, ◌&&◌, ◌||◌, Option, none, some, List, [], ◌∷◌, ◌++◌,
  map, append-nil, append_assoc, arith, Bytes, codes, ltb, leb, ◌==◌, if◌then◌else◌, Bool-cases,
  Option-cases, same, same_self, same_iff, is_empty, length, take, drop, all, length-append,
  take-append-drop, length-drop, All, All-append,
}
use incus_spire_attestor.Errors.{Result, ok, err, Error, wrap, text}
use incus_spire_attestor.Exec.{Exec, pure, fail, lift, wrapped, attempt, ◌>>=◌, ◌>>◌}
use incus_spire_attestor.Golang.Base64
use incus_spire_attestor.Golang.Json.{Codec}
use incus_spire_attestor.Attest.Types.{Claims, Instance}
use incus_spire_attestor.Attest.Nonce.{new_config_key_from_attempt_id, new_nonce, verify_nonce}
use incus_spire_attestor.Attest.Claims.{validate_claims}
use incus_spire_attestor.Attest.Attributes.{build_attributes}
use incus_spire_attestor.Wire.Challenge.{encode_challenge}
use incus_spire_attestor.Wire.Response.{decode_response}
use incus_spire_attestor.Wire.Payload.{decode_payload}
use incus_spire_attestor.Server.Ports.{
  Context, rpc, with_timeout, Ports, Run, set_nonce, receive_payload, send_challenge,
  receive_response, send_attributes, read_full,
}
use incus_spire_attestor.Server.Cleanup.{
  Cleanup, arm, run, or_cleanup, guarded, annotate_cleanup, return_unless_nil,
}
use incus_spire_attestor.Server.Resolve.{resolve_instance}

-- randomPairBytes.
abbrev pub random_pair_bytes : ℕ
random_pair_bytes = 16

-- Service, without its ports; durations are nanoseconds.
pub record Service : Type 0 where
  pub projects : List Bytes
  pub user_selectors : List Bytes
  pub trust_domain : Bytes
  pub incus_timeout : ℕ
  pub challenge_timeout : ℕ
  pub cleanup_timeout : ℕ

-- What one attempt is armed with.
pub record Attempt : Type 0 where
  pub target : Instance
  pub key : Bytes
  pub nonce : Bytes

abbrev unwrapped : Error → Error
unwrapped e = e

-- `armed`.
abbrev pub cleanup_of : Service → Attempt → Cleanup
cleanup_of s a = record { timeout = s.cleanup_timeout; target = a.target; key = a.key }

module _ {W : Type 0} (parse_uuid : Bytes → Option Bytes) (codec : Codec) (ports : Ports W)
    (service : Service) where
  -- readRandomPair.
  unfoldable pub read_random_pair : Exec (Run W) (Bytes × Bytes)
  read_random_pair = do
    attempt_id ← wrapped (wrap "read attempt id") (read_full ports random_pair_bytes)
    raw ← wrapped (wrap "read nonce") (read_full ports random_pair_bytes)
    nonce ← wrapped (wrap "read nonce") (lift (new_nonce raw))
    pure (attempt_id, nonce)

  -- The part of Attest before the cleanup is armed.
  unfoldable pub prepare : Exec (Run W) Attempt
  prepare = do
    raw ← wrapped (wrap "receive payload") (receive_payload ports rpc)
    claims ← lift (decode_payload parse_uuid codec raw)
    lift (validate_claims parse_uuid claims)
    target ← resolve_instance parse_uuid ports service.incus_timeout service.projects claims
    (attempt_id, nonce) ← read_random_pair
    pure
        (record { target = target; key = new_config_key_from_attempt_id attempt_id; nonce = nonce })

  module _ (a : Attempt) where
    -- SetNonce, and the cleanup if it fails.
    unfoldable pub store_nonce : Exec (Run W) (Unit {0})
    store_nonce = guarded ports (cleanup_of service a) (wrap "set nonce") (
        set_nonce ports (with_timeout rpc service.incus_timeout) a.target a.key
          (Base64.encode a.nonce))

    -- From EncodeChallenge to VerifyNonce; each failure runs the cleanup.
    unfoldable pub challenge_guest : Exec (Run W) (Unit {0})
    challenge_guest = do
      challenge ← or_cleanup ports (cleanup_of service a) unwrapped (encode_challenge codec a.key)
      guarded ports (cleanup_of service a) (wrap "send challenge")
          (send_challenge ports rpc challenge)
      raw_resp ←
          guarded ports (cleanup_of service a) (wrap "receive response")
            (receive_response ports (with_timeout rpc service.challenge_timeout))
      got ← or_cleanup ports (cleanup_of service a) unwrapped (decode_response codec raw_resp)
      or_cleanup ports (cleanup_of service a) unwrapped (verify_nonce a.nonce got)

    -- The part of Attest behind the cleanup that a verified nonce leads to.
    unfoldable pub finish : Exec (Run W) (Unit {0})
    finish = do
      clean ← run ports (cleanup_of service a)
      return_unless_nil (annotate_cleanup none clean)
      attrs ←
          lift (build_attributes parse_uuid service.trust_domain a.target service.user_selectors)
      wrapped (wrap "send attributes") (send_attributes ports rpc attrs)

    -- `defer func() { _ = armed.run() }()` round the rest of Attest.
    unfoldable pub attest_armed : Exec (Run W) (Unit {0})
    attest_armed = do
      arm
      result ← attempt (store_nonce >> (challenge_guest >> finish))
      attempt (run ports (cleanup_of service a))
      lift result

  -- Attest, with an exchange that is not nil; each attempt has a cleanup of its own.
  unfoldable pub attest_exchange : Exec (Run W) (Unit {0})
  attest_exchange = prepare >>= attest_armed

  -- Attest. The ports hold the exchange; the flag says that it is not nil.
  unfoldable pub attest : Bool → Exec (Run W) (Unit {0})
  attest false = fail (text "exchange is required")
  attest true = attest_exchange
