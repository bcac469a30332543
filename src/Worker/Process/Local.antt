-- ===== src/Worker/Process/Local.antt =====
-- worker/pc1.go, pc2.go and c12.go: the stages that the worker runs in its own process. Each starts
-- a goroutine that makes the calls and sends its error, and waits for it by `handleProccess`.
use filecoin_sealer.Prelude.{
  ℕ, Bool, true, false, String, List, [], ◌∷◌, ◌++◌, Option, none, some, pos, str_eq, if◌then◌else◌,
}
use filecoin_sealer.Tables.{TaskType, pc1, pc2, TaskResult}
use filecoin_sealer.Worker.Process.Defs.{Signal, finished, Ending, Running, handle_proccess}

-- The outcome of one call of the sealing library, the file system or the miner. The library
-- returns nil with an error.
pub data Step {ℓ} (A : Type ℓ) : Type ℓ where
  done : A → Step A
  fault : String → Step A

infixl 5 ◌>>◌
abbrev pub ◌>>◌ {ℓ κ} : {A : Type ℓ} {B : Type κ} → Step A → Step B → Step B
done a >> k = k
fault s >> k = fault s

abbrev pub fault_of {ℓ} : {A : Type ℓ} → Step A → Option String
fault_of (done a) = none
fault_of (fault s) = some s

abbrev pub bytes_of : Step (List ℕ) → List ℕ
bytes_of (done b) = b
bytes_of (fault s) = []

abbrev pub Call : Type 0
Call = Step (Unit {0})

abbrev pub blank_result : TaskResult
blank_result = record {
  sealed_cid = "";
  unsealed_cid = "";
  seed_epoch = pos 0;
  seed_hex = "";
  dealine_inx = 0;
  partition_inx = 0;
  comm_string = "";
  comm_bytes = [];
}

-- What the task hands to `DeferMinerRecieve`.
pub record Handover : Type 0 where
  pub result : TaskResult
  pub process_err : Option String

abbrev pub handover : TaskResult → Option (Ending × Running) → Option (Handover × Running)
handover r none = none
handover r (some (e, w)) = some (record { result = r; process_err = e.process_err }, w)

-- `w.TaskCloseChnl[session] = stopchnl`
abbrev pub open_channel : String → Running → Running
open_channel session w = record w { task_close_chnl = session ∷ w.task_close_chnl }

-- The task finishes with this error in the reported variable, after some other signals.
abbrev pub run_local :
    TaskType
    → String
    → TaskResult
    → Option String
    → List Signal
    → Running
    → Option (Handover × Running)
run_local t session r e before w =
    handover r
      (handle_proccess false t session (before ++ finished e ∷ []) (open_channel session w))

-- The calls of `sealPreCommitPhase1`, in order.
pub record Phase1Calls : Type 0 where
  pub ram_in_bytes : Call
  pub ticket_hex : String
  pub get_ticket : Call
  pub decode_ticket : Call
  pub piece_info : Call
  pub mkdir_sealed : Call
  pub sealed_exists : Bool
  pub mkdir_again : Call
  pub open_sealed : Call
  pub close_sealed : Call
  pub mkdir_cache : Call
  pub cache_exists : Bool
  pub seal : Step (List ℕ)

-- A directory that is there already is no error.
abbrev pub unless_exists : Call → Bool → Call → Call
unless_exists (done a) exists again = done a
unless_exists (fault s) true again = done tt
unless_exists (fault s) false again = again

unfoldable pub phase1_output : Phase1Calls → Step (List ℕ)
phase1_output c =
    c.ram_in_bytes
    >> ((if str_eq c.ticket_hex "" then c.get_ticket else c.decode_ticket)
        >> (c.piece_info
            >> (unless_exists c.mkdir_sealed c.sealed_exists c.mkdir_again
                >> (c.open_sealed
                    >> (c.close_sealed
                        >> (unless_exists c.mkdir_cache c.cache_exists c.mkdir_cache >> c.seal))))))

-- PC1: the goroutine declares an `err` of its own, so the variable that is reported stays nil
-- whatever the calls return.
unfoldable pub seal_pre_commit_phase1 :
    Phase1Calls → String → List Signal → Running → Option (Handover × Running)
seal_pre_commit_phase1 c session before w =
    run_local pc1 session (record blank_result { comm_bytes = bytes_of (phase1_output c) }) none
      before w

-- PC2: the texts of the two CIDs that the library returned, and its error.
pub record Phase2Call : Type 0 where
  pub sealed_cid : String
  pub unsealed_cid : String
  pub failure : Option String

unfoldable pub seal_pre_commit_phase2 :
    Phase2Call → String → List Signal → Running → Option (Handover × Running)
seal_pre_commit_phase2 c session before w =
    run_local pc2 session
      (record blank_result { sealed_cid = c.sealed_cid; unsealed_cid = c.unsealed_cid }) c.failure
      before w

-- The calls of `sealCommitPhase1`, in order; each sets the variable that is reported.
pub record Commit1Calls : Type 0 where
  pub ram_in_bytes : Call
  pub parse_comm_r : Call
  pub parse_comm_d : Call
  pub decode_ticket : Call
  pub decode_seed : Call
  pub piece_info : Call
  pub seal : Step (List ℕ)

unfoldable pub commit1_output : Commit1Calls → Step (List ℕ)
commit1_output c =
    c.ram_in_bytes
    >> (c.parse_comm_r
        >> (c.parse_comm_d >> (c.decode_ticket >> (c.decode_seed >> (c.piece_info >> c.seal)))))

unfoldable pub seal_commit_phase1 :
    TaskType → Commit1Calls → String → List Signal → Running → Option (Handover × Running)
seal_commit_phase1 t c session before w =
    run_local t session (record blank_result { comm_bytes = bytes_of (commit1_output c) })
      (fault_of (commit1_output c)) before w

unfoldable pub seal_commit_phase2 :
    TaskType → Step (List ℕ) → String → List Signal → Running → Option (Handover × Running)
seal_commit_phase2 t c session before w =
    run_local t session (record blank_result { comm_bytes = bytes_of c }) (fault_of c) before w
