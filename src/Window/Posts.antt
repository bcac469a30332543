-- ===== src/Window/Posts.antt =====
-- miner/wdpost.go: the collectors of the partitions, SyncPoStMap.
mod Defs
mod Slots
mod Sound
mod Receive
pub mod Running
pub mod Dead
unfoldable pub use Defs.*
pub use Slots.{slot}
