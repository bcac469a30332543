-- ===== src/Worker/Process.antt =====
-- worker/util.go: how the worker waits for a task.
mod Defs
pub mod Wait
pub mod Local
pub mod Seal
unfoldable pub use Defs.*
