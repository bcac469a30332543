-- ===== src/Miner/Send.antt =====
-- miner/sendmsgbypri.go: the messages that a stage of the miner sends to the chain.
mod Defs
pub mod Receipt
pub mod Session
unfoldable pub use Defs.*
