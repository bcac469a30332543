-- ===== src/Miner/Failure.antt =====
-- miner/util.go and miner/faileddef.go: what the miner does about a task that failed.
mod Defs
pub mod Rules
pub mod Handle
pub mod Defaults
unfoldable pub use Defs.*
