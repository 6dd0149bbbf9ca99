-- ===== src/Agent/Service/Construct.antt =====
-- New and newService of service.go.
use incus_spire_attestor.Prelude.{ℕ, Bool, not, ◌||◌, ◌==◌}
use incus_spire_attestor.Errors.{Result, ok, text, require, ◌>>◌}
use incus_spire_attestor.Golang.Json.{GoInt}

-- Service, without its ports; the timeout is positive.
pub record Service : Type 0 where
  pub poll_timeout : ℕ

-- Whether a duration is not positive.
abbrev pub is_zero_or_less : GoInt → Bool
is_zero_or_less d = d.negative || d.magnitude == 0

-- newService. The flag says that the evidence is not nil.
unfoldable pub new_service : Bool → GoInt → Result Service
new_service evidence poll_timeout = do
  require evidence (text "evidence is required")
  require (not (is_zero_or_less poll_timeout)) (text "poll timeout must be positive")
  ok (record { poll_timeout = poll_timeout.magnitude })

-- New.
unfoldable pub new : Bool → GoInt → Result Service
new evidence poll_timeout = new_service evidence poll_timeout
