-- ===== src/Host/Retry.antt =====
-- retry.go: which failures of a mutation are tried again, and how long the waits are.
use incus_spire_attestor.Prelude.{
  ℕ, ◌*◌, Bool, true, false, ◌||◌, Option, none, some, List, [], ◌∷◌, ltb, ◌==◌, if◌then◌else◌,
}
use incus_spire_attestor.Errors.{
  Error, is, canceled, deadline_exceeded, as_timeout, as_temporary, as_status, has_net_op,
}

-- initialRetryDelay, maxRetryDelay and retryBackoffFactor, in nanoseconds.
abbrev pub initial_retry_delay : ℕ
initial_retry_delay = 25000000

abbrev pub max_retry_delay : ℕ
max_retry_delay = 250000000

abbrev pub retry_backoff_factor : ℕ
retry_backoff_factor = 2

-- nextRetryDelay.
unfoldable pub next_retry_delay : ℕ → ℕ
next_retry_delay delay =
    let next = delay * retry_backoff_factor in
    if ltb max_retry_delay next then max_retry_delay else next

-- isContextError.
unfoldable pub is_context_error : Error → Bool
is_context_error e = is canceled e || is deadline_exceeded e

-- Whether a status is one of those in the list.
abbrev pub is_among : ℕ → List ℕ → Bool
is_among status [] = false
is_among status (s ∷ statuses) = status == s || is_among status statuses

-- The call `api.StatusErrorCheck(err, statuses...)`, on the status that the library found in the chain.
unfoldable pub status_check : List ℕ → Error → Bool
status_check statuses e = elim (as_status e) [
  | none ↦ false
  | some status ↦ is_among status statuses
]

-- isConflict.
unfoldable pub is_conflict : Error → Bool
unfolding status_check
is_conflict e = status_check (412 ∷ []) e

-- The statuses that isRetryable lists.
abbrev pub retryable_statuses : List ℕ
retryable_statuses = 408 ∷ 429 ∷ 500 ∷ 502 ∷ 503 ∷ 504 ∷ []

abbrev pub is_yes : Option Bool → Bool
is_yes (some answer) = answer
is_yes none = false

-- isRetryable, on an error that is not nil.
unfoldable pub is_retryable : Error → Bool
is_retryable e =
    if is_context_error e
    then false
    else if is_conflict e
    then true
    else if status_check retryable_statuses e
    then true
    else if is_yes (as_timeout e)
    then true
    else if is_yes (as_temporary e)
    then true
    else has_net_op e
