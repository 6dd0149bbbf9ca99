-- ===== src/Attest/Nonce.antt =====
-- nonce.go: the challenge-key grammar and the comparison of nonces.
pub mod Grammar
use incus_spire_attestor.Prelude.{
  ℕ, ◌+◌, ◌≡◌, ◌==◌, ◌&&◌, ◌||◌, ◌++◌, not, if◌then◌else◌, Bytes, codes, leb, same, length, take,
  drop, all, Bool,
}
use incus_spire_attestor.Errors.{Result, ok, err, text, deny, Error}
use incus_spire_attestor.Golang.Hex

-- configKeyPrefix.
abbrev pub config_key_prefix : Bytes
config_key_prefix = codes "user.spire.attestor.nonce."

-- configKeySuffixLen.
abbrev pub config_key_suffix_len : ℕ
config_key_suffix_len = 32

-- nonceSize.
abbrev pub nonce_size : ℕ
nonce_size = 16

unfoldable pub is_lower_hex : ℕ → Bool
is_lower_hex c = leb b'0' c && leb c b'9' || leb b'a' c && leb c b'f'

-- NewConfigKey.
unfoldable pub new_config_key : Bytes → Result Bytes
unfolding is_lower_hex
new_config_key raw =
    if not (length raw == length config_key_prefix + config_key_suffix_len)
    then err (text "invalid config key length")
    else if not (same (take (length config_key_prefix) raw) config_key_prefix)
    then err (text "invalid config key prefix")
    else if not (all is_lower_hex (drop (length config_key_prefix) raw))
    then err (text "invalid config key suffix")
    else ok raw

-- NewConfigKeyFromAttemptID.
unfoldable pub new_config_key_from_attempt_id : Bytes → Bytes
new_config_key_from_attempt_id id = config_key_prefix ++ Hex.encode id

-- NewNonce.
unfoldable pub new_nonce : Bytes → Result Bytes
new_nonce raw = if not (length raw == nonce_size) then err (text "nonce length") else ok raw

-- crypto/subtle.ConstantTimeCompare: 1 if the contents are equal, and 0 otherwise.
abbrev constant_time_compare : Bytes → Bytes → ℕ
constant_time_compare x y = if same x y then 1 else 0

-- VerifyNonce.
unfoldable pub verify_nonce : Bytes → Bytes → Result (Unit {0})
verify_nonce expected got =
    if not (length got == nonce_size)
    then deny "nonce length"
    else if not (constant_time_compare expected got == 1)
    then deny "nonce mismatch"
    else ok tt
