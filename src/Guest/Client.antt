-- ===== src/Guest/Client.antt =====
-- client.go, config.go and the calls of claims.go: the requests to the guest API.
pub mod Polling
pub mod Answers
pub mod Collected
use incus_spire_attestor.Prelude.{
  ℕ, zero, suc, ◌+◌, ◌-◌, ◌*◌, ◌/◌, ◌%◌, ◌^◌, ◌≤◌, ◌<◌, String, ◌≡◌, refl, sym, ap, ◌∙◌, subst, ◌≢◌,
  ◌↔◌, ◌⊎◌, inl, inr, Bool, true, false, not, ◌&&◌, ◌||◌, Option, none, some, List, [], ◌∷◌, ◌++◌,
  map, append-nil, append_assoc, arith, Bytes, codes, ltb, leb, ◌==◌, if◌then◌else◌, Bool-cases,
  Option-cases, same, same_self, same_iff, is_empty, length, take, drop, all, length-append,
  take-append-drop, length-drop, All, All-append,
}
use incus_spire_attestor.Errors.{Result, ok, err, Error, text, wrap, require}
use incus_spire_attestor.Exec.{Exec, pure, fail, lift, attempt, wrapped, ◌>>=◌}
use incus_spire_attestor.Golang.Context.{Context}
use incus_spire_attestor.Golang.Text.{trim_space, path_escape}
use incus_spire_attestor.Attest.Types.{Claims}
use incus_spire_attestor.Attest.Claims.{new_instance_uuid, validate_claims}
use incus_spire_attestor.Guest.Failures.{
  is_context_error, wrap_context, transport_error, status_error,
}
use incus_spire_attestor.Guest.Metadata.{Metadata, Info, Decoder, decode_info, parse_metadata}
use incus_spire_attestor.Guest.Ports.{Response, Ports, Run, send, read_body, read_file}

-- defaultSocketPath, defaultDMIPath, maxGuestBody, guestHTTPBase and configPrefix.
abbrev pub default_socket_path : Bytes
default_socket_path = codes "/dev/incus/sock"

abbrev pub default_dmi_path : Bytes
default_dmi_path = codes "/sys/class/dmi/id/product_uuid"

abbrev pub max_guest_body : ℕ
max_guest_body = 65536

abbrev pub guest_http_base : Bytes
guest_http_base = codes "http://incus"

abbrev pub config_prefix : Bytes
config_prefix = codes "/1.0/config/"

-- Client, without the HTTP client, which is among the ports.
pub record Client : Type 0 where
  pub project : Bytes
  pub socket_path : Bytes
  pub dmi_path : Bytes

-- New.
unfoldable pub new : Bytes → Client
new project = record {
  project = project;
  socket_path = default_socket_path;
  dmi_path = default_dmi_path;
}

-- configPath.
unfoldable pub config_path : Bytes → Bytes
config_path key = config_prefix ++ path_escape key

-- `if err != nil { return err }` on an error that may be nil.
abbrev pub unless : Option Error → (Error → Error) → Result (Unit {0})
unless none f = ok tt
unless (some e) f = err (f e)

-- How the three reads report a failed get.
unfoldable pub get_error : String → Error → Error
get_error op e = if is_context_error e then wrap_context op e else e

-- ReadConfig behind the get; the value and `found` are one option.
unfoldable pub config_of : Result (Bytes × ℕ) → Result (Option Bytes)
config_of (err e) = err (get_error "read guest config" e)
config_of (ok (body, status)) =
    if status == 404
    then ok none
    else if not (status == 200)
    then err (status_error status)
    else ok (some body)

-- readMetadata behind the get.
unfoldable pub metadata_of : Result (Bytes × ℕ) → Result Metadata
metadata_of (err e) = err (get_error "read guest metadata" e)
metadata_of (ok (body, status)) =
    if not (status == 200) then err (status_error status) else ok (parse_metadata body)

-- readInfo behind the get.
unfoldable pub info_of : Decoder → Result (Bytes × ℕ) → Result Info
info_of decoder (err e) = err (get_error "read guest info" e)
info_of decoder (ok (body, status)) =
    if not (status == 200) then err (status_error status) else decode_info decoder body

module _ {W : Type 0} (ports : Ports W) where
  -- get.
  unfoldable pub get : Context → Bytes → Exec (Run W) (Bytes × ℕ)
  get ctx path = do
    _ ← lift (unless (ports.request_error (guest_http_base ++ path)) (wrap "build guest request"))
    response ← wrapped transport_error (send ports ctx (guest_http_base ++ path))
    body ← wrapped transport_error (read_body ports response.body (max_guest_body + 1))
    _ ← lift (require (leb (length body) max_guest_body) (text "guest response exceeds"))
    pure (body, response.status)

  -- ReadConfig.
  unfoldable pub read_config : Context → Bytes → Exec (Run W) (Option Bytes)
  read_config ctx key = do answer ← attempt (get ctx (config_path key)); lift (config_of answer)

  -- readMetadata.
  unfoldable pub read_metadata : Context → Exec (Run W) Metadata
  read_metadata ctx = do
    answer ← attempt (get ctx (codes "/1.0/meta-data"))
    lift (metadata_of answer)

  -- readInfo.
  unfoldable pub read_info : Decoder → Context → Exec (Run W) Info
  read_info decoder ctx = do
    answer ← attempt (get ctx (codes "/1.0"))
    lift (info_of decoder answer)

  module _ (parse_uuid : Bytes → Option Bytes) (client : Client) where
    -- readProductUUID.
    unfoldable pub read_product_uuid : Exec (Run W) Bytes
    read_product_uuid = do
      raw ← wrapped (wrap "read product uuid") (read_file ports client.dmi_path)
      wrapped (wrap "parse product uuid") (lift (new_instance_uuid parse_uuid (trim_space raw)))

    -- The claims of Claims before they are validated.
    abbrev pub collected : Info → Metadata → Bytes → Claims
    collected info meta id = record {
      project = client.project;
      name = meta.hostname;
      uuid = id;
      type = info.instance_type;
      location = info.location;
      cloud_init_id = meta.instance_id;
    }

    -- Claims.
    unfoldable pub claims : Decoder → Context → Exec (Run W) Claims
    claims decoder ctx = do
      info ← read_info decoder ctx
      meta ← read_metadata ctx
      id ← read_product_uuid
      _ ← lift (validate_claims parse_uuid (collected info meta id))
      pure (collected info meta id)
