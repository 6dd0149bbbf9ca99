-- ===== src/Golang/Context.antt =====
-- context: which context, and so which deadline, a call is given.
use incus_spire_attestor.Prelude.{ℕ}

-- A context: that of the RPC, one with a deadline, or one that outlives its parent's cancellation.
pub data Context : Type 0 where
  rpc : Context
  with_timeout : Context → ℕ → Context
  without_cancel : Context → Context
