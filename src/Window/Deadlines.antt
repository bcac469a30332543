-- ===== src/Window/Deadlines.antt =====
-- miner/wdpost.go and worker/wdpost.go: which windows the proofs are made for.
mod Defs
pub mod Rounds
pub mod Windows
unfoldable pub use Defs.*
