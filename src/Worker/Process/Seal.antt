-- ===== src/Worker/Process/Seal.antt =====
-- What the stages that run in the worker's own process report of a failure.
use filecoin_sealer.Prelude.{ℕ, ◌≡◌, ◌∙◌, ap, String, List, [], ◌∷◌, Option, none, some, arith}
use mathlib.Core.Option
use filecoin_sealer.Tables.{TaskType, pc1, TaskResult}
use filecoin_sealer.Worker.Slots.{or_zero}
use filecoin_sealer.Worker.Process.Defs.{
  Signal, finished, wait_process, Running, handle_proccess, released,
}
use filecoin_sealer.Worker.Process.Local.{
  Step, fault, fault_of, bytes_of, blank_result, open_channel, run_local, Phase1Calls,
  phase1_output, seal_pre_commit_phase1, Phase2Call, seal_pre_commit_phase2, Commit1Calls,
  commit1_output, seal_commit_phase1, seal_commit_phase2,
}
use filecoin_sealer.Worker.Process.Wait.{Beats, wait_process_patient}

-- While only beats come, a task ends when it ends, with the error that it left.
run_local-Beats :
    (t : TaskType) (session : String) (r : TaskResult) (e : Option String) (before : List Signal)
    (w : Running)
    → Beats before
    → run_local t session r e before w
      ≡ some (record { result = r; process_err = e }, released t session (open_channel session w))
unfolding handle_proccess wait_process
run_local-Beats t session r e before w quiet =
    ground (
      arith,
      wait_process_patient (or_zero (w.slots.task_time_out t)) before (finished e ∷ []) quiet,
    )

module _ (session : String) (before : List Signal) (w : Running) (quiet : Beats before) where
  -- A PC1 whose calls failed, and whose wait saw only beats before, is handed over as a success
  -- without output, and its slot and channel are released.
  pub seal_pre_commit_phase1_hides :
      (c : Phase1Calls) (text : String)
      → phase1_output c ≡ fault text
      → seal_pre_commit_phase1 c session before w
        ≡ some (
          record { result = blank_result; process_err = none },
          released pc1 session (open_channel session w),
        )
  unfolding seal_pre_commit_phase1
  seal_pre_commit_phase1_hides c text failed =
      run_local-Beats pc1 session (record blank_result { comm_bytes = bytes_of (phase1_output c) })
        none before w quiet
      ∙ ap
          (λ o. some (
            record { result = record blank_result { comm_bytes = bytes_of o }; process_err = none },
            released pc1 session (open_channel session w),
          ))
          failed

  -- A failure of PC2, Commit1 or Commit2 whose wait saw only beats before is handed over with its
  -- text.
  pub local_failure_reported :
      (t : TaskType) (text : String) (c2 : Phase2Call) (c3 : Commit1Calls) (c4 : Step (List ℕ))
      → c2.failure ≡ some text
      → commit1_output c3 ≡ fault text
      → c4 ≡ fault text
      → (Option.map (λ p. p.0.process_err) (seal_pre_commit_phase2 c2 session before w)
          ≡ some (some text))
        × (Option.map (λ p. p.0.process_err) (seal_commit_phase1 t c3 session before w)
            ≡ some (some text))
        × (Option.map (λ p. p.0.process_err) (seal_commit_phase2 t c4 session before w)
            ≡ some (some text))
  unfolding seal_pre_commit_phase2 seal_commit_phase1 seal_commit_phase2
  local_failure_reported t text c2 c3 c4 e2 e3 e4 = (
    ap (Option.map (λ p. p.0.process_err)) (run_local-Beats _ session _ _ before w quiet)
        ∙ ap some e2,
    ap (Option.map (λ p. p.0.process_err)) (run_local-Beats t session _ _ before w quiet)
        ∙ ap (λ o. some (fault_of o)) e3,
    ap (Option.map (λ p. p.0.process_err)) (run_local-Beats t session _ _ before w quiet)
        ∙ ap (λ o. some (fault_of o)) e4,
  )
