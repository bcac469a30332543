-- ===== src/Worker.antt =====
-- The worker (package worker): it draws tasks from the miner as long as it has slots for their
-- stage, runs them, and reports how they ended.
pub mod Slots
pub mod Process
pub mod Report
pub mod Start
pub mod Reset
pub mod Files
