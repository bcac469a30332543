-- ===== src/Mining.antt =====
-- mining/util.go: MinerMining, which makes a block on a head.
mod Defs
pub mod Parents
pub mod Made
pub mod Publish
unfoldable pub use Defs.*
