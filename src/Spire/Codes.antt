-- ===== src/Spire/Codes.antt =====
-- mapRPCError of runtime.go: errors as gRPC statuses.
use incus_spire_attestor.Prelude.{◌||◌, if◌then◌else◌}
use incus_spire_attestor.Errors.{
  Result, ok, err, Error, is, denied, wire_invalid, wire_unsupported, config_invalid, Sentinel,
}
use incus_spire_attestor.Errors

-- The codes of google.golang.org/grpc that the code uses.
pub data Code : Type 0 where
  canceled unknown invalid_argument deadline_exceeded permission_denied failed_precondition : Code

-- A status; its message is the text of an error, or a fixed one.
pub record Status : Type 0 where
  pub code : Code
  pub message : Error

-- The cases of mapRPCError.
unfoldable pub code_of : Error → Code
code_of e =
    if is Errors.canceled e
    then canceled
    else if is Errors.deadline_exceeded e
    then deadline_exceeded
    else if is config_invalid e || is wire_invalid e || is wire_unsupported e
    then invalid_argument
    else if is denied e
    then permission_denied
    else unknown

-- mapRPCError, on an error that is not nil.
unfoldable pub map_rpc_error : Error → Status
map_rpc_error e = record { code = code_of e; message = e }
