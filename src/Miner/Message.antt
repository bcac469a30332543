-- ===== src/Miner/Message.antt =====
-- miner/sendmsg.go: the messages that a stage of the miner sends by a key that the chain's node keeps.
mod Defs
pub mod Alive
unfoldable pub use Defs.*
