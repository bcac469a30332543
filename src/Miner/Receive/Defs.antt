-- ===== src/Miner/Receive/Defs.antt =====
-- miner/miner.go: RecieveTaskResult.
use filecoin_sealer.Prelude.{
  Bool, true, false, ◌&&◌, String, List, [], ◌∷◌, ◌++◌, ℤ, eq_ℤ, if◌then◌else◌, Option, none, some,
}
use filecoin_sealer.Tables.{
  TaskType, pc1, pc2, precommit, seed, c1, c2, commit, next_task, init, runing, success, error,
  task_eq, keyed_info, keyed_log, type_asks, text_asks, int_asks, DbTaskInfo, DbTaskLog, TaskResult,
}
use filecoin_sealer.Database.{
  Db, DbError, not_found, failed, Result, ok, err, Env, Tx, ◌>>=◌, ◌>>◌, pure, first_info,
  update_infos, first_log, update_logs, Outcome, committed, uncommitted, aborted, transaction,
}
use filecoin_sealer.Miner.State.{Job, task_failed_handle, register_post, update_post_info}

-- The arguments of one call.
pub record Delivery : Type 0 where
  pub actor_id : ℤ
  pub sector_num : ℤ
  pub task_type : TaskType
  pub req_id : String
  pub is_err : Bool
  pub result : TaskResult

-- `tx.Where(taskInfo)`: the struct holds actor, sector and state by pointer, type and session by
-- value.
unfoldable pub awaits : Delivery → DbTaskInfo → Bool
awaits d r =
    eq_ℤ d.sector_num r.sector_num
    && (eq_ℤ d.actor_id r.actor_id
        && (eq_ℤ runing r.state
            && (type_asks d.task_type r.task_type && text_asks d.req_id r.last_req_id)))

-- `tx.Where(taskLogWhr)`: all of its fields are values.
unfoldable pub awaits_log : Delivery → DbTaskLog → Bool
awaits_log d r =
    int_asks d.sector_num r.sector_num
    && (int_asks d.actor_id r.actor_id
        && (type_asks d.task_type r.task_type && text_asks d.req_id r.req_id))

abbrev pub fail_row : Delivery → DbTaskInfo → DbTaskInfo
fail_row d r = record r { state = error; last_req_id = d.req_id }

abbrev pub close_log : ℤ → String → DbTaskLog → DbTaskLog
close_log s text r = record r { state = s; result = text }

-- What every successful stage writes: the next stage, waiting.
abbrev pub advance : Delivery → DbTaskInfo → DbTaskInfo
advance d r = record r { task_type = next_task d.task_type; state = init; last_req_id = d.req_id }

-- And what a stage adds of its own.
unfoldable pub complete : TaskType → Delivery → DbTaskInfo → DbTaskInfo
complete pc1 d r = record (advance d r) { phase1_output = d.result.comm_bytes }
complete pc2 d r = record (advance d r) {
  comm_d = d.result.unsealed_cid;
  comm_r = d.result.sealed_cid;
}
complete seed d r = record (advance d r) {
  seed_epoch = d.result.seed_epoch;
  seed_hex = d.result.seed_hex;
}
complete c1 d r = record (advance d r) { c1_out = d.result.comm_bytes }
complete c2 d r = record (advance d r) { proof = d.result.comm_bytes }
complete commit d r = record (advance d r) {
  deadline_inx = d.result.dealine_inx;
  partition_inx = d.result.partition_inx;
  c1_out = [];
}
complete _ d r = advance d r

abbrev pub without_bytes : TaskResult → TaskResult
without_bytes r = record r { comm_bytes = [] }

module _ (env : Env) where
  -- `FirstOrInit`: a row that is not there is no error.
  abbrev pub or_init : Result DbTaskLog × Db → Result (Option DbTaskLog) × Db
  or_init (ok r, db) = (ok (some r), db)
  or_init (err not_found, db) = (ok none, db)
  or_init (err (failed s), db) = (err (failed s), db)

  abbrev pub first_or_init_log : (DbTaskLog → Bool) → Tx (Option DbTaskLog)
  first_or_init_log p db = or_init (first_log env p db)

  abbrev pub failure_job : Delivery → Job
  failure_job d = task_failed_handle d.actor_id d.sector_num d.task_type (env.marshal d.result)

  unfoldable pub receive_failure : Delivery → Tx (List Job)
  receive_failure d = do
    update_infos env (awaits d) (fail_row d)
    update_logs env (awaits_log d) (close_log error (env.marshal d.result))
    pure (failure_job d ∷ [])

  -- PRECOMMIT first reads a row, to learn its worker, and writes that row alone; the other stages only
  -- write, every row that awaits the result.
  abbrev pub complete_stage : TaskType → Delivery → Tx (List Job)
  complete_stage precommit d = do
    r ← first_info env (awaits d)
    update_infos env (λ x. awaits d x && keyed_info r x) (complete precommit d)
    pure (register_post d.actor_id d.sector_num r.worker_id ∷ [])
  complete_stage t d = do update_infos env (awaits d) (complete t d); pure []

  -- The row of the log that was read, by its primary key; a struct that was not read has none.
  abbrev pub marks : Delivery → Option DbTaskLog → DbTaskLog → Bool
  marks d none x = awaits_log d x
  marks d (some r) x = awaits_log d x && keyed_log r x

  abbrev pub mark_log : Delivery → Option DbTaskLog → Tx (Unit {0})
  mark_log d found =
      update_logs env (marks d found) (close_log success (env.marshal (without_bytes d.result)))

  unfoldable pub receive_success : Delivery → Tx (List Job)
  receive_success d = do
    found ← first_or_init_log (awaits_log d)
    mark_log d found
    complete_stage d.task_type d

  abbrev pub receive_by : Bool → Delivery → Tx (List Job)
  receive_by true d = receive_failure d
  receive_by false d = receive_success d

  abbrev pub receive_body : Delivery → Tx (List Job)
  receive_body d = receive_by d.is_err d

  -- The `go` statements after the commit.
  unfoldable pub late_jobs : Delivery → List Job
  late_jobs d =
      (if d.is_err then failure_job d ∷ [] else [])
      ++ (if task_eq d.task_type commit then update_post_info d.actor_id d.sector_num ∷ [] else [])

  -- The answer is the error, if any; the jobs that were started come with it.
  abbrev pub answer : Delivery → Outcome (List Job) × Db → Option DbError × List Job × Db
  answer d (committed jobs, db) = (none, jobs ++ late_jobs d, db)
  answer d (uncommitted jobs e, db) = (some e, jobs, db)
  answer d (aborted e, db) = (some e, [], db)

  unfoldable pub recieve_task_result : Delivery → Db → Option DbError × List Job × Db
  recieve_task_result d db = answer d (transaction env (receive_body d) db)
