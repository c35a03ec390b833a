-- ===== src/Tests.antt =====
-- Concrete inputs: runs of the definitions, and each theorem applied where its hypotheses hold.
pub mod Samples
pub mod SecuritySamples
pub mod FileSamples
mod LedgerTests
mod KeyStoreTests
mod BrokerTests
mod McpTests
mod ExecTests
mod ScreenTests
mod TunnelTests
mod PatchTests
mod WorktreeTests
mod SwarmTests
mod TurnTests
mod DaemonTests
mod CliTests
