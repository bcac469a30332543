-- ===== src/Worker/Start/Defs.antt =====
-- worker/query.go: queryTask; worker/pc1.go, pc2.go and c12.go: the exported functions that start a
-- stage; worker/worker.go: RetryTask, RetryTaskPID and RetryTaskPIDByState.
use filecoin_sealer.Prelude.{
  Bool, true, false, String, List, [], ◌∷◌, Option, none, some, ℤ, pos, ◌||◌,
}
use filecoin_sealer.Tables.{
  TaskType, pc1, pc2, c1, c2, precommit, seed, commit, task_eq, RequestInfo, DbTaskInfo,
}
use filecoin_sealer.Database.{Db, DbError, not_found, failed, Env}
use filecoin_sealer.Miner.{Reply, results, refused}
use filecoin_sealer.Miner.Query.{query_task}
use filecoin_sealer.Worker.Slots.{
  Slots, SlotError, increment_task, decrement_task, Ended, returned, panicked,
}
use filecoin_sealer.Worker.Process.{Running}
use filecoin_sealer.Worker.Process.Local.{done, fault, Call, open_channel}

-- One call of the miner: whether a call that failed had reached the miner, its error, and whether
-- `MinerApi` is a connection after `ConnMiner`.
pub record Wire : Type 0 where
  pub reached : Bool
  pub lost : Option String
  pub reconnected : Bool

-- The part of the worker that starts tasks; `connected` says that `MinerApi` is not nil.
pub record Worker : Type 0 where
  pub worker_id : String
  pub host_name : String
  pub extr_listen : String
  pub running : Running
  pub connected : Bool

-- What `queryTask` returns; `Results[0]` of an empty list panics.
pub data Asked : Type 0 where
  answered : DbTaskInfo → Asked
  unanswered : String → Asked
  no_result : Asked

abbrev pub error_text : DbError → String
error_text not_found = "record not found"
error_text (failed s) = s

abbrev pub first_of : Reply → Asked
first_of (results []) = no_result
first_of (results (r ∷ rs)) = answered r
first_of (refused e) = unanswered (error_text e)

abbrev pub conn_miner : Wire → Worker → Worker
conn_miner wire w = record w { connected = wire.reconnected }

-- The `go` statements: a stage in this process, a stage in a child process, an update to INIT.
pub data Launch : Type 0 where
  seal_here : TaskType → DbTaskInfo → String → Launch
  seal_in_child : TaskType → DbTaskInfo → String → Launch
  update_task_info : DbTaskInfo → Launch

pub data Refusal : Type 0 where
  no_slot : SlotError → Refusal
  no_task : String → Refusal
  -- the failure of the child's start, which is reported to the miner
  no_child : DbTaskInfo → String → Refusal
  undefine : TaskType → Refusal

-- How a start ends, with the goroutines that it leaves.
pub data Start : Type 0 where
  started : List Launch → Start
  declined : Refusal → List Launch → Start
  start_panicked : Start

abbrev pub set_slots : Slots → Worker → Worker
set_slots s w = record w { running = record w.running { slots = s } }

abbrev pub ask : Worker → TaskType → ℤ → ℤ → String → RequestInfo
ask w t actor sector session = record {
  actor_id = actor;
  sector_num = sector;
  task_type = t;
  session = session;
  worker_id = w.worker_id;
  host_name = w.host_name;
  worker_listen = w.extr_listen;
  sectors = "";
}

-- `RetryTaskPIDByState` leaves the sector, the session, the host and the address blank.
abbrev pub ask_blank : Worker → TaskType → ℤ → RequestInfo
ask_blank w t actor = record {
  actor_id = actor;
  sector_num = pos 0;
  task_type = t;
  session = "";
  worker_id = w.worker_id;
  host_name = "";
  worker_listen = "";
  sectors = "";
}

abbrev pub Starting : Type 0
Starting = Worker → Db → Start × Worker × Db

-- The deferred function, whose log line reads the counter, which may be nil.
abbrev pub slot_back :
    TaskType → Refusal → List Launch → Worker → Db → Option ℤ → Start × Worker × Db
slot_back t r jobs w db none = (start_panicked, w, db)
slot_back t r jobs w db (some n) =
    (declined r jobs, set_slots (decrement_task t w.running.slots).1 w, db)

abbrev pub give_back : TaskType → Start × Worker × Db → Start × Worker × Db
give_back t (started jobs, w, db) = (started jobs, w, db)
give_back t (declined r jobs, w, db) = slot_back t r jobs w db (w.running.slots.task_run t)
give_back t (start_panicked, w, db) = (start_panicked, w, db)

-- `IncrementTask`, the rest of the function, and `DecrementTask` if that left an error.
abbrev pub after_slot : TaskType → Ended × Slots → Starting → Starting
after_slot t (returned none, s) k w db = give_back t (k (set_slots s w) db)
after_slot t (returned (some e), s) k w db = (declined (no_slot e) [], w, db)
after_slot t (panicked, s) k w db = (start_panicked, w, db)

unfoldable pub with_slot : TaskType → Starting → Starting
with_slot t k w db = after_slot t (increment_task t w.running.slots) k w db

-- PC1 makes its directories and files first; then `ChildProcess` waits at most 30 seconds for the
-- child, and opens the session's channel.
abbrev pub child_started : Call → TaskType → DbTaskInfo → String → Starting
child_started (done _) t r session w db = (
  started (seal_in_child t r session ∷ []),
  record w { running = open_channel session w.running },
  db,
)
child_started (fault e) t r session w db = (declined (no_child r e) [], w, db)

abbrev pub is_sealing : TaskType → Bool
is_sealing t = (task_eq t pc1 || task_eq t pc2) || (task_eq t c1 || task_eq t c2)

abbrev pub go_on : Asked × Worker × Db → (DbTaskInfo → Starting) → Start × Worker × Db
go_on (answered r, w, db) k = k r w db
go_on (unanswered e, w, db) k = (declined (no_task e) [], w, db)
go_on (no_result, w, db) k = (start_panicked, w, db)

abbrev pub retry_here : TaskType → String → DbTaskInfo → Starting
retry_here t session r w db = elim (is_sealing t) [
  | true ↦ (started (seal_here t r session ∷ []), w, db)
  | false ↦ (declined (undefine t) [], w, db)
]

-- The stages that the miner runs are put back to INIT, and declined all the same.
abbrev pub retry_pid : TaskType → String → DbTaskInfo → Start
retry_pid pc1 session r = started (seal_in_child pc1 r session ∷ [])
retry_pid pc2 session r = started (seal_in_child pc2 r session ∷ [])
retry_pid c1 session r = started (seal_in_child c1 r session ∷ [])
retry_pid c2 session r = started (seal_in_child c2 r session ∷ [])
retry_pid precommit session r = declined (undefine precommit) (update_task_info r ∷ [])
retry_pid seed session r = declined (undefine seed) (update_task_info r ∷ [])
retry_pid commit session r = declined (undefine commit) (update_task_info r ∷ [])
retry_pid t session r = declined (undefine t) []

-- A call that got through, or was lost on its way there or back.
abbrev pub called : Option String → Wire → Reply × Db → Worker → Db → Asked × Worker × Db
called none wire (reply, db') w db = (first_of reply, w, db')
called (some e) wire (reply, db') w db =
    (unanswered e, conn_miner wire w, elim wire.reached [ true ↦ db' | false ↦ db ])

module _ (env : Env) where
  abbrev pub query_if : Bool → Wire → RequestInfo → Worker → Db → Asked × Worker × Db
  query_if false wire req w db = (unanswered "w.MinerApi is nil", conn_miner wire w, db)
  query_if true wire req w db = called wire.lost wire (query_task env req db) w db

  -- `queryTask`
  unfoldable pub query_task_by : Wire → RequestInfo → Worker → Db → Asked × Worker × Db
  query_task_by wire req w db = query_if w.connected wire req w db

  -- SealPreCommitPhase1, SealPreCommitPhase2, SealCommitPhase1 and SealCommitPhase2
  unfoldable pub seal_task : TaskType → Wire → ℤ → ℤ → String → Starting
  seal_task t wire actor sector session = with_slot t (λ w db.
      go_on (query_task_by wire (ask w t actor sector session) w db)
        (λ r w' db'. (started (seal_here t r session ∷ []), w', db')))

  -- ProcessPrePhase1, ProcessPrePhase2, ProcessCommitPhase1 and ProcessCommitPhase2
  unfoldable pub process_task : TaskType → Wire → Call → ℤ → ℤ → String → Starting
  process_task t wire child actor sector session = with_slot t (λ w db.
      go_on (query_task_by wire (ask w t actor sector session) w db)
        (λ r w' db'. child_started child t r session w' db'))

  -- `RetryTask` of the worker
  unfoldable pub retry_task_here : TaskType → Wire → ℤ → ℤ → String → Starting
  retry_task_here t wire actor sector session = with_slot t (λ w db.
      go_on (query_task_by wire (ask w t actor sector session) w db) (retry_here t session))

  -- `RetryTaskPID` takes no slot.
  unfoldable pub retry_task_pid : TaskType → Wire → ℤ → ℤ → String → Starting
  retry_task_pid t wire actor sector session w db =
      go_on (query_task_by wire (ask w t actor sector session) w db)
        (λ r w' db'. (retry_pid t session r, w', db'))

  -- `RetryTaskPIDByState` asks the miner twice.
  unfoldable pub retry_task_pid_by_state : TaskType → Wire → Wire → ℤ → String → Starting
  retry_task_pid_by_state t wire wire' actor session = with_slot t (λ w db.
      go_on (query_task_by wire (ask_blank w t actor) w db)
        (λ r w' db'. retry_task_pid t wire' actor r.sector_num session w' db'))
