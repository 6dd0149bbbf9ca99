-- ===== src/Guest/Client/Polling.antt =====
-- The guest client under the agent's polling: which failures of a read are tried again, and which path is read.
use incus_spire_attestor.Prelude.{
  ℕ, ◌≤◌, ◌≡◌, sym, ap, ◌∙◌, subst, ◌↔◌, ◌⊎◌, true, false, [], ◌∷◌, ◌++◌, arith, Bytes, All,
  All-append,
}
use incus_spire_attestor.Errors.{ok, err, Error, is, as_timeout, as_temporary}
use incus_spire_attestor.Golang.Text.{path_escape-plain, is_path_byte}
use incus_spire_attestor.Golang.Hex.{IsLowerHex}
use incus_spire_attestor.Attest.Nonce.{new_config_key, config_key_prefix}
use incus_spire_attestor.Attest.Nonce.Grammar.{new_config_key_iff}
use incus_spire_attestor.Agent.Poll
use incus_spire_attestor.Agent.Poll.{judge, again, is_retryable}
use incus_spire_attestor.Guest.Failures.{
  is_context_error, wrap_context, transport_error, status_error,
}
use incus_spire_attestor.Guest.Client.{config_prefix, config_path, get_error, config_of}

-- The statuses on which the agent reads the key again.
abbrev pub IsRepeated : ℕ → Type 0
IsRepeated status = (status ≡ 404) ⊎ (status ≡ 408) ⊎ (status ≡ 429) ⊎ (500 ≤ status)

judge-config_of :
    (body : Bytes) (status : ℕ)
    → (judge (config_of (ok (body, status))) ≡ again) ↔ IsRepeated status
unfolding judge config_of status_error Poll.is_context_error is_retryable is as_timeout as_temporary
judge-config_of body status = (λ h. ground (arith, h), λ h. ground (arith, h))

judge-transport_error :
    (e : Error)
    → (judge (config_of (err (transport_error e))) ≡ again) ↔ (is_context_error e ≡ false)
unfolding judge config_of get_error transport_error is_context_error Poll.is_context_error
    is_retryable is as_timeout as_temporary wrap_context
judge-transport_error e = (λ h. ground (arith, h), λ h. ground (arith, h))

-- The polling agent reads the key again after a complete response exactly if its status is 404, 408, 429, or at least 500; and
-- after a failed dial, round trip or read of a body exactly if the failure is neither a cancellation nor a deadline.
pub again_iff :
    (body : Bytes) (status : ℕ) (e : Error)
    → ((judge (config_of (ok (body, status))) ≡ again) ↔ IsRepeated status)
      × ((judge (config_of (err (transport_error e))) ≡ again) ↔ (is_context_error e ≡ false))
again_iff body status e = (judge-config_of body status, judge-transport_error e)

is_path_byte-IsLowerHex : (s : Bytes) → All IsLowerHex s → All (λ c. is_path_byte c ≡ true) s
unfolding is_path_byte
is_path_byte-IsLowerHex [] h = tt
is_path_byte-IsLowerHex (c ∷ s) h = (ground (arith, h.0), is_path_byte-IsLowerHex s h.1)

prefix_plain : All (λ c. is_path_byte c ≡ true) config_key_prefix
unfolding is_path_byte
prefix_plain = ground arith

-- A challenge key in the v1 grammar stands in the path as it is.
pub config_path_lem :
    (raw key : Bytes) → new_config_key raw ≡ ok key → config_path key ≡ config_prefix ++ key
unfolding config_path
config_path_lem raw key h =
    let (e, grammar) = (new_config_key_iff raw key).0 h in
    ap (λ s. config_prefix ++ s)
      (path_escape-plain key (
        subst (All (λ c. is_path_byte c ≡ true)) (sym (e ∙ grammar.spelled)) (
          All-append (λ c. is_path_byte c ≡ true) config_key_prefix grammar.suffix prefix_plain
            (is_path_byte-IsLowerHex grammar.suffix grammar.digits))))
