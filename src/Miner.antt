-- ===== src/Miner.antt =====
-- The miner (package miner): the task table that workers draw from, and what moves its rows.
-- A method that returns an error reports it as a value; a `go` statement in a method is a job that
-- the method hands back beside its answer, to be run at any later time.
mod State
pub mod Query
pub mod Receive
pub mod Failure
pub mod Tasks
pub mod Post
pub mod Send
pub mod Message
pub mod Seed
pub mod NewSector
pub mod Transfer
unfoldable pub use State.*
