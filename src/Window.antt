-- ===== src/Window.antt =====
-- miner/wdpost.go and worker/wdpost.go: the window proofs of the sectors.
pub mod Bits
pub mod Listed
pub mod Data
pub mod Collect
pub mod Posts
pub mod Generate
pub mod Message
pub mod Recoveries
pub mod Sealed
pub mod Deadlines
