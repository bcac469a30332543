-- ===== src/Miner/Query.antt =====
-- miner/query.go: how a task is handed out. The per-type mutexes make each call one step.
mod Defs
mod Body
pub mod Shown
pub mod Handout
pub mod Liveness
unfoldable pub use Defs.*
pub use Body.*
