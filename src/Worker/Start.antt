-- ===== src/Worker/Start.antt =====
-- worker/: the starting of tasks, alone or in a child process.
pub mod Defs
pub mod Child
pub mod Stages
pub mod Honest
pub mod Drawn
pub mod Drift
pub mod Balance
unfoldable pub use Defs.*
