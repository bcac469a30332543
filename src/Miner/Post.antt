-- ===== src/Miner/Post.antt =====
-- miner/util.go and miner/query.go: the rows of the sectors to prove.
mod Defs
pub mod Effect
unfoldable pub use Defs.*
