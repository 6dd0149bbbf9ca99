-- ===== src/Spire/ServerPlugin.antt =====
-- server.go: Configure of the server plugin. The mutex makes each Configure one step of the plugin.
pub mod Connections
pub mod Published
pub mod Configured
pub mod Classes
pub mod Refused
use incus_spire_attestor.Prelude.{
  ℕ, zero, suc, ◌+◌, ◌-◌, ◌*◌, ◌/◌, ◌%◌, ◌^◌, ◌≤◌, ◌<◌, String, ◌≡◌, refl, sym, ap, ◌∙◌, subst, ◌≢◌,
  ◌↔◌, ◌⊎◌, inl, inr, Bool, true, false, not, ◌&&◌, ◌||◌, Option, none, some, List, [], ◌∷◌, ◌++◌,
  map, append-nil, append_assoc, arith, Bytes, codes, ltb, leb, ◌==◌, if◌then◌else◌, Bool-cases,
  Option-cases, same, same_self, same_iff, is_empty, length, take, drop, all, length-append,
  take-append-drop, length-drop, All, All-append,
}
use incus_spire_attestor.Errors.{Result, ok, err, Error}
use incus_spire_attestor.Exec.{Exec, pure, fail, lift, wrapped, attempt, ◌>>=◌}
use incus_spire_attestor.Config.Types.{Server}
use incus_spire_attestor.Config.Decode.{Parsers}
use incus_spire_attestor.Spire.Codes.{Status, map_rpc_error, failed_precondition}
use incus_spire_attestor.Spire.Requests.{Request, decode_valid_server, refused_request}
use incus_spire_attestor.Spire.Ports.{Ports, Run, ServerRuntime, close_idle}
use incus_spire_attestor.Spire.Build.{build_server_runtime}

-- The request, unless it is nil.
abbrev pub given : Option Request → Result Request
given none = refused_request
given (some req) = ok req

-- nil, or the status of the error.
abbrev pub status_of {ℓ} : {A : Type ℓ} → Result A → Option Status
status_of (ok a) = none
status_of (err e) = some (map_rpc_error e)

module _ {W : Type 0} (parsers : Parsers) (ports : Ports W) where
  -- The retirement of the runtime that was swapped out.
  unfoldable pub retire : Option ServerRuntime → Exec (Run W) (Unit {0})
  retire none = pure tt
  retire (some old) = close_idle ports old.connection

  -- The swap, and the retirement.
  unfoldable pub publish : ServerRuntime → Exec (Run W) (Unit {0})
  publish rt s = retire s.runtime (record s { runtime = some rt })

  -- Configure before the mapping of its error.
  unfoldable pub configure : Option Request → Exec (Run W) (Unit {0})
  configure request = do
    req ← lift (given request)
    cfg ← lift (decode_valid_server parsers req)
    rt ← build_server_runtime ports (cfg.0) (cfg.1)
    publish rt

  -- Configure's response: nil, or the status.
  unfoldable pub configure_status : Option Request → Run W → Option Status × Run W
  configure_status request s = let (r, s') = configure request s in (status_of r, s')
