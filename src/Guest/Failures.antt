-- ===== src/Guest/Failures.antt =====
-- errors.go: which failures of the guest API are worth another try.
use incus_spire_attestor.Prelude.{
  ℕ, String, Bool, true, false, ◌||◌, Option, none, some, leb, ◌==◌, if◌then◌else◌,
}
use incus_spire_attestor.Errors.{
  Error, text, wrap, transient, transient_of, is, canceled, deadline_exceeded, as_net_timeout,
}

-- isContextError.
unfoldable pub is_context_error : Error → Bool
is_context_error e = is canceled e || is deadline_exceeded e

-- wrapContext: the cause stays inspectable.
unfoldable pub wrap_context : String → Error → Error
wrap_context op e = wrap op e

abbrev is_yes : Option Bool → Bool
is_yes (some answer) = answer
is_yes none = false

-- transportError.
unfoldable pub transport_error : Error → Error
transport_error e =
    if is_context_error e
    then e
    else transient_of "guest transport failed" (is_yes (as_net_timeout e)) e

-- statusError.
unfoldable pub status_error : ℕ → Error
status_error status =
    if status == 408
    then transient "guest request timeout" true
    else if status == 429 || leb 500 status
    then transient "guest service unavailable" false
    else text "guest status"
