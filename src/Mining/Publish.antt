-- ===== src/Mining/Publish.antt =====
-- mining/util.go: publishBlockMsg; mining/mining.go: the goroutine of MinerServerNotify.
mod Defs
mod Selected
pub mod Parts
pub mod Published
pub mod Fee
unfoldable pub use Defs.*
