-- ===== src/Examples.antt =====
-- Runs of the modelled code, and the theorems at concrete inputs.
mod Decimal
mod Ordering
mod Fixture
mod ListRuns
mod KeyRuns
mod LifetimeRuns
mod ServerRuns
mod SetRuns
mod SeveralRuns
mod HashRuns
mod ProtocolRuns
mod SortedRuns
mod SuiteRuns
