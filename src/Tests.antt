-- ===== src/Tests.antt =====
-- Runs of the model on concrete inputs, and each property at an input that meets its hypotheses.
mod Data
mod Query
mod Receive
mod Failure
mod Worker
pub mod Window
mod Posts
mod Start
mod Tasks
mod Send
mod Seed
mod NewSector
mod Deadlines
mod Files
mod Chain
mod Keys
mod Transfer
mod Publish
mod Servers
mod Sealed
