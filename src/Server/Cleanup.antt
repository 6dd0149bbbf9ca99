-- ===== src/Server/Cleanup.antt =====
-- cleanup.go: the removal of an armed nonce key, once.
use incus_spire_attestor.Prelude.{ℕ, Option, none, some, Bytes}
use incus_spire_attestor.Errors.{Result, ok, err, Error, wrap}
use incus_spire_attestor.Exec.{Exec, attempt, fail, pure, ◌>>=◌}
use incus_spire_attestor.Attest.Types.{Instance}
use incus_spire_attestor.Server.Ports.{
  Context, rpc, with_timeout, without_cancel, Ports, Run, unset_nonce,
}

-- The cleanup of one attempt; its `once` and `err` are in the state of the run.
pub record Cleanup : Type 0 where
  pub timeout : ℕ
  pub target : Instance
  pub key : Bytes

-- nil, or the error.
abbrev pub error_of {ℓ} : {A : Type ℓ} → Result A → Option Error
error_of (ok a) = none
error_of (err e) = some e

-- annotateCleanup where the first error is not nil: it stays the one that is wrapped.
unfoldable pub annotate : Error → Option Error → Error
annotate e none = e
annotate e (some clean) = wrap "cleanup" e

-- annotateCleanup, on errors that may be nil.
unfoldable pub annotate_cleanup : Option Error → Option Error → Option Error
unfolding annotate
annotate_cleanup none none = none
annotate_cleanup none (some clean) = some (wrap "cleanup nonce" clean)
annotate_cleanup (some e) clean = some (annotate e clean)

-- Returns an error unless it is nil.
unfoldable pub return_unless_nil : {S : Type 0} → Option Error → Exec S (Unit {0})
return_unless_nil none = pure tt
return_unless_nil (some e) = fail e

-- `armed := &cleanup{...}`: a new cleanup has not run.
unfoldable pub arm : {W : Type 0} → Exec (Run W) (Unit {0})
arm s = (ok tt, record s { once = none })

module _ {W : Type 0} (ports : Ports W) (c : Cleanup) where
  -- The context of the removal: detached from the RPC, with a deadline of its own.
  abbrev pub cleanup_context : Context
  cleanup_context = with_timeout (without_cancel rpc) c.timeout

  -- The function that `once.Do` runs; it stores the error.
  first_run : Run W → Result (Option Error) × Run W
  first_run s =
      let (r, s') = unset_nonce ports cleanup_context c.target c.key s in
      (ok (error_of r), record s' { once = some (error_of r) })

  -- `run`.
  unfoldable pub run : Exec (Run W) (Option Error)
  unfolding first_run
  run s = elim s.once [ none ↦ first_run s | some e ↦ (ok e, s) ]

  -- `return annotateCleanup(err, armed.run())` on a result that is an error.
  unfoldable pub or_cleanup : (Error → Error) → {A : Type 0} → Result A → Exec (Run W) A
  or_cleanup f (ok a) = pure a
  or_cleanup f (err e) = do clean ← run; fail (annotate (f e) clean)

  -- A call, `if err != nil { return annotateCleanup(..., armed.run()) }`.
  unfoldable pub guarded : (Error → Error) → {A : Type 0} → Exec (Run W) A → Exec (Run W) A
  guarded f m = do r ← attempt m; or_cleanup f r
