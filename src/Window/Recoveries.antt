-- ===== src/Window/Recoveries.antt =====
-- miner/wdpost.go: CheckRecoveries, the declaration of recovered faults.
mod Defs
pub mod Declared
unfoldable pub use Defs.*
