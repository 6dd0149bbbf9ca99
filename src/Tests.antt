-- ===== src/Tests.antt =====
-- Concrete runs of the code, and the theorems at concrete inputs.
mod Postfix
mod Samples
mod AttestRuns
mod WireRuns
mod ServerRuns
mod AgentRuns
mod ConfigRuns
mod HostRuns
mod IncusStore
mod MutateRuns
mod GuestRuns
mod SpireRuns
mod ProtocolRuns
