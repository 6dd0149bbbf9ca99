-- ===== src/Host/Mutate/Rounds.antt =====
-- The retries of mutate, as a relation on attempts and waits, and that the code keeps to it.
use incus_spire_attestor.Prelude.{
  ℕ, ◌≡◌, Bool, true, false, not, ◌||◌, Option, none, some, List, [], ◌∷◌, ◌++◌, Bytes,
}
use incus_spire_attestor.Errors.{Result, ok, err, Error, is, replaced_target}
use incus_spire_attestor.Exec.{Exec}
use incus_spire_attestor.Golang.Context.{Context}
use incus_spire_attestor.Attest.Types.{Instance}
use incus_spire_attestor.Host.Retry.{next_retry_delay, is_retryable}
use incus_spire_attestor.Host.Ports.{Event, waited, Ports, Run}
use incus_spire_attestor.Host.Mutate.Attempts.{IsAttempt}

-- mutate gives up on this failure.
abbrev pub is_final : Error → Bool
is_final e = is replaced_target e || not (is_retryable e)

module _ (parse_uuid : Bytes → Option Bytes) (ctx : Context) (target : Instance) (key : Bytes)
    (nonce : Option Bytes) where
  -- Attempts and waits, from this delay on, and the result; `ok none` is for the end of the fuel.
  pub data IsRounds : ℕ → List Event → Result (Option (Unit {0})) → Type 0 where
    spent : {delay : ℕ} → IsRounds delay [] (ok none)
    success :
        {delay : ℕ} {es : List Event}
        → IsAttempt parse_uuid ctx target key nonce es (ok tt)
        → IsRounds delay es (ok (some tt))
    given_up :
        {delay : ℕ} {es : List Event} {e : Error}
        → IsAttempt parse_uuid ctx target key nonce es (err e)
        → is_final e ≡ true
        → IsRounds delay es (err e)
    cut :
        {delay : ℕ} {es : List Event} {e x : Error}
        → IsAttempt parse_uuid ctx target key nonce es (err e)
        → is_final e ≡ false
        → IsRounds delay (es ++ waited ctx delay (err x) ∷ []) (err x)
    again :
        {delay : ℕ} {es rest : List Event} {e : Error} {r : Result (Option (Unit {0}))}
        → IsAttempt parse_uuid ctx target key nonce es (err e)
        → is_final e ≡ false
        → IsRounds (next_retry_delay delay) rest r
        → IsRounds delay (es ++ waited ctx delay (ok tt) ∷ rest) r

  module _ {W : Type 0} where
    -- A step behind these calls completes the rounds from this delay on.
    pub record Retries (delay : ℕ) (before : List Event) (m : Exec (Run W) (Option (Unit {0})))
        (s : Run W) : Type 0 where
      pub more : List Event
      pub calls : (m s).1.trace ≡ s.trace ++ more
      pub as_rounds : IsRounds delay (before ++ more) (m s).0
