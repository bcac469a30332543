-- ===== src/Worker/Report.antt =====
-- worker/util.go and worker/worker.go: how a result reaches the miner.
mod Defs
pub mod Delivery
unfoldable pub use Defs.*
