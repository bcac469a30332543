-- ===== src/Worker/Files.antt =====
-- worker/htttphandle.go: the file server of the worker.
mod Defs
pub mod Get
pub mod Delete
unfoldable pub use Defs.*
