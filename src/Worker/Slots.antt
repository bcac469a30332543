-- ===== src/Worker/Slots.antt =====
-- worker/worker.go: the slots of each stage.
mod Defs
pub mod Gate
pub mod Balance
unfoldable pub use Defs.*
