-- ===== src/Servers.antt =====
-- miner/server.go and worker/server.go: the actors that the two task servers keep, and what a round of
-- each starts.
mod Defs
pub mod Actors
pub mod Rounds
unfoldable pub use Defs.*
