-- ===== src/Window/Collect.antt =====
-- miner/wdpost.go: submitPoSt, which collects the vanilla proofs of one partition.
mod Defs
pub mod Gathered
pub mod Complete
pub mod Progress
unfoldable pub use Defs.*
