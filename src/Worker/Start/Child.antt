-- ===== src/Worker/Start/Child.antt =====
-- worker/worker.go: the goroutine of ChildProcess; worker/util.go: TaskRun, which the child runs.
use filecoin_sealer.Prelude.{
  ℕ, Bool, true, false, String, List, [], ◌∷◌, ◌++◌, Option, none, some, if◌then◌else◌, str_eq,
}
use mathlib.Core.Option
use filecoin_sealer.Tables.{TaskType, pc1, pc2, c1, c2, task_eq, DbTaskInfo, TaskResult}
use filecoin_sealer.Worker.Process.{Signal, finished, Ending, Running, handle_proccess}
use filecoin_sealer.Worker.Process.Local.{
  Step, ◌>>◌, fault_of, bytes_of, Call, blank_result, Handover, Phase2Call, Commit1Calls,
  commit1_output,
}
use filecoin_sealer.Worker.Report.{Link, Delivered, defer_miner_recieve, miner_api_err}

-- The worker reports for its child only what ended the wait: a time-out or a shutdown.
abbrev pub report_of : Option (Ending × Running) → Option (Option Handover × Running)
report_of none = none
report_of (some (e, w)) =
    some (Option.map (λ s. record { result = blank_result; process_err = some s }) e.process_err, w)

-- The child exits after these signals; how it exited is logged, and nil is sent.
unfoldable pub wait_child :
    DbTaskInfo → String → List Signal → Running → Option (Option Handover × Running)
wait_child r session before w =
    report_of (handle_proccess true r.task_type session (before ++ finished none ∷ []) w)

-- The calls of `TaskRun` for PC1, in order.
pub record ChildPhase1 : Type 0 where
  pub ram_in_bytes : Call
  pub ticket_hex : String
  pub get_ticket : Call
  pub decode_ticket : Call
  pub piece_info : Call
  pub seal : Step (List ℕ)

-- The calls of each stage; one list of cases for the stages that a child may run.
pub record ChildCalls : Type 0 where
  pub phase1 : ChildPhase1
  pub phase2 : Phase2Call
  pub commit1 : Commit1Calls
  pub commit2 : Step (List ℕ)
  -- Whether a call of the stage panics, and with which error: `some none` is a value that is no error.
  pub panic : Option (Option String)

unfoldable pub child_phase1 : ChildPhase1 → Step (List ℕ)
child_phase1 c =
    c.ram_in_bytes
    >> ((if str_eq c.ticket_hex "" then c.get_ticket else c.decode_ticket)
        >> (c.piece_info >> c.seal))

abbrev pub with_bytes : Step (List ℕ) → TaskResult
with_bytes o = record blank_result { comm_bytes = bytes_of o }

-- PC2 writes its two texts only after a success.
abbrev pub with_cids : Phase2Call → Option String → TaskResult
with_cids c none = record blank_result { sealed_cid = c.sealed_cid; unsealed_cid = c.unsealed_cid }
with_cids c (some e) = blank_result

-- The `switch` of `TaskRun`: its result and its error.
unfoldable pub run_stage : TaskType → ChildCalls → TaskResult × Option String
run_stage pc1 c = (with_bytes (child_phase1 c.phase1), fault_of (child_phase1 c.phase1))
run_stage pc2 c = (with_cids c.phase2 c.phase2.failure, c.phase2.failure)
run_stage c1 c = (with_bytes (commit1_output c.commit1), fault_of (commit1_output c.commit1))
run_stage c2 c = (with_bytes c.commit2, fault_of c.commit2)
run_stage _ c = (blank_result, none)

-- The deferred `recover`: the error is what the panic's value says, and the result was not written.
abbrev pub recovered :
    Option (Option String) → TaskResult × Option String → TaskResult × Option String
recovered none ran = ran
recovered (some e) ran = (blank_result, e)

-- What the deferred function of `TaskRun` did: what it handed over, how that ended, and whether
-- the cache was cleaned.
pub record TaskRan : Type 0 where
  pub handed : Handover
  pub delivered : Delivered
  pub cleaned : Bool

abbrev pub cleans : Option String → TaskType → Bool
cleans none t = task_eq t c1
cleans (some e) t = false

unfoldable pub task_run : Link → DbTaskInfo → ChildCalls → TaskRan
task_run link r c =
    let (result, e) = recovered c.panic (run_stage r.task_type c) in
    let d = defer_miner_recieve link true in
    record {
      handed = record { result = result; process_err = e };
      delivered = d;
      cleaned = cleans (miner_api_err d) r.task_type;
    }
