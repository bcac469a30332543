-- ===== src/Miner/Receive.antt =====
-- miner/miner.go: how the result of a task comes back.
mod Defs
mod Body
pub mod Stale
pub mod Advance
unfoldable pub use Defs.*
pub use Body.*
