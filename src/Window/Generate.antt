-- ===== src/Window/Generate.antt =====
-- worker/wdpost.go: GeneratePoStProof, the proofs of a partition's sectors in one worker.
mod Defs
pub mod Loop
pub mod Split
pub mod Sent
pub mod First
unfoldable pub use Defs.*
