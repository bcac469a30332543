-- ===== src/Worker/Start/Stages.antt =====
-- worker/pc1.go, pc2.go and c12.go: the exported functions, one by one.
use filecoin_sealer.Prelude.{String, ℤ}
use filecoin_sealer.Tables.{pc1, pc2, c1, c2}
use filecoin_sealer.Database.{Env}
use filecoin_sealer.Worker.Process.Local.{Call}
use filecoin_sealer.Worker.Start.Defs.{Wire, Starting, seal_task, process_task}

module _ (env : Env) (wire : Wire) (actor sector : ℤ) (session : String) where
  -- `SealPreCommitPhase1`
  abbrev pub start_pre_commit_phase1 : Starting
  start_pre_commit_phase1 = seal_task env pc1 wire actor sector session

  -- `SealPreCommitPhase2`
  abbrev pub start_pre_commit_phase2 : Starting
  start_pre_commit_phase2 = seal_task env pc2 wire actor sector session

  -- `SealCommitPhase1`
  abbrev pub start_commit_phase1 : Starting
  start_commit_phase1 = seal_task env c1 wire actor sector session

  -- `SealCommitPhase2`
  abbrev pub start_commit_phase2 : Starting
  start_commit_phase2 = seal_task env c2 wire actor sector session

  -- The outcome of the child's start: PC1 also makes its directories and files before it.
  abbrev pub process_pre_phase1 : Call → Starting
  process_pre_phase1 child = process_task env pc1 wire child actor sector session

  abbrev pub process_pre_phase2 : Call → Starting
  process_pre_phase2 child = process_task env pc2 wire child actor sector session

  abbrev pub process_commit_phase1 : Call → Starting
  process_commit_phase1 child = process_task env c1 wire child actor sector session

  abbrev pub process_commit_phase2 : Call → Starting
  process_commit_phase2 child = process_task env c2 wire child actor sector session
