-- ===== src/Miner/Tasks.antt =====
-- miner/miner.go: the task methods beside RecieveTaskResult.
mod Defs
pub mod Reset
pub mod Cleared
unfoldable pub use Defs.*
