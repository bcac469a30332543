-- ===== src/Miner/Query/Defs.antt =====
-- miner/query.go: QueryOnly, QueryTask, QueryRetry and RetryTask.
use filecoin_sealer.Prelude.{
  Bool, ◌&&◌, ◌||◌, String, [], ◌∷◌, ℤ, pos, negsuc, eq_ℤ, str_eq, if◌then◌else◌,
}
use filecoin_sealer.Tables.{
  TaskType, pc1, pc2, c1, other, init, runing, retry, task_eq, same_row, RequestInfo, DbTaskInfo,
  DbTaskLog,
}
use filecoin_sealer.Database.{
  Db, failed, Result, ok, err, Env, Tx, ◌>>=◌, ◌>>◌, pure, first_info, find_infos, update_infos,
  insert_log, Outcome, committed, uncommitted, aborted, transaction,
}
use filecoin_sealer.Miner.State.{Reply, results, refused, of_sector}

-- The sector number -1 asks for any sector.
abbrev pub any_sector : ℤ
any_sector = negsuc 0

-- The stages PC2 and Commit1 run where the sector's files lie, so only the worker that holds them
-- may draw them.
abbrev pub is_local : TaskType → Bool
is_local t = task_eq t pc2 || task_eq t c1

-- The condition by which a task is looked up.
unfoldable pub wanted : RequestInfo → DbTaskInfo → Bool
wanted req r =
    if eq_ℤ req.sector_num any_sector
    then if is_local req.task_type
      then eq_ℤ r.actor_id req.actor_id
        && (task_eq r.task_type req.task_type
            && (eq_ℤ r.state init && str_eq r.worker_id req.worker_id))
      else eq_ℤ r.actor_id req.actor_id && (task_eq r.task_type req.task_type && eq_ℤ r.state init)
    else of_sector req.actor_id req.sector_num r

-- The columns that the hand-out writes.
unfoldable pub assign : RequestInfo → String → DbTaskInfo → DbTaskInfo
assign req worker r = record r {
  state = runing;
  worker_id = worker;
  host_name = req.host_name;
  worker_listen = req.worker_listen;
  last_req_id = req.session;
}

abbrev pub owner : RequestInfo → DbTaskInfo → String
owner req r = if str_eq req.worker_id "" then r.worker_id else req.worker_id

abbrev pub running_log : RequestInfo → ℤ → String → DbTaskLog
running_log req sector worker = record {
  id = pos 0;
  sector_num = sector;
  actor_id = req.actor_id;
  task_type = req.task_type;
  req_id = req.session;
  worker_id = worker;
  host_name = req.host_name;
  worker_listen = req.worker_listen;
  state = runing;
  result = "";
}

-- `tx.Commit()` has an error that nobody reads.
abbrev pub reply_of : Outcome DbTaskInfo × Db → Reply × Db
reply_of (committed r, db) = (results (r ∷ []), db)
reply_of (uncommitted r e, db) = (results (r ∷ []), db)
reply_of (aborted e, db) = (refused e, db)

-- The condition of `QueryRetry`.
unfoldable pub retryable : RequestInfo → DbTaskInfo → Bool
retryable req r =
    eq_ℤ r.actor_id req.actor_id
    && (task_eq r.task_type req.task_type
        && (str_eq r.worker_id req.worker_id && eq_ℤ r.state retry))

-- `Select("actor_id,sector_num,task_type")`: the other columns are not read.
abbrev pub selected : DbTaskInfo → DbTaskInfo
selected r = record {
  id = pos 0;
  sector_num = r.sector_num;
  actor_id = r.actor_id;
  task_type = r.task_type;
  sealer_proof = "";
  proof_type = pos 0;
  piece_str = "";
  cache_dir_path = "";
  staged_sector_path = "";
  sealed_sector_path = "";
  worker_id = "";
  host_name = "";
  worker_listen = "";
  phase1_output = [];
  comm_d = "";
  comm_r = "";
  last_req_id = "";
  ticket_epoch = pos 0;
  ticket_hex = "";
  seed_epoch = pos 0;
  seed_hex = "";
  c1_out = [];
  proof = [];
  state = pos 0;
  deadline_inx = 0;
  partition_inx = 0;
}

-- `Updates(taskInfo)` with a struct writes its fields that are not blank.
abbrev pub over_text : String → String → String
over_text new old = if str_eq new "" then old else new

abbrev pub over_type : TaskType → TaskType → TaskType
over_type new old = if task_eq new (other "") then old else new

unfoldable pub restart : RequestInfo → DbTaskInfo → DbTaskInfo
restart req r = record r {
  task_type = over_type req.task_type r.task_type;
  state = runing;
  worker_listen = over_text req.worker_listen r.worker_listen;
  worker_id = over_text req.worker_id r.worker_id;
  host_name = over_text req.host_name r.host_name;
  last_req_id = over_text req.session r.last_req_id;
}

unfoldable pub restartable : RequestInfo → DbTaskInfo → Bool
restartable req r =
    if task_eq req.task_type pc1 || is_local req.task_type
    then of_sector req.actor_id req.sector_num r && str_eq r.worker_id req.worker_id
    else of_sector req.actor_id req.sector_num r

module _ (env : Env) where
  -- `QueryOnly`, for a condition on the rows
  unfoldable pub query_only : (DbTaskInfo → Bool) → Db → Reply × Db
  query_only p db =
      let (r, db') = find_infos env p db in
      elim r [ ok rows ↦ (results rows, db') | err e ↦ (refused e, db') ]

  unfoldable pub query_task_body : RequestInfo → Tx DbTaskInfo
  query_task_body req = do
    r ← first_info env (wanted req)
    update_infos env (same_row r) (assign req (owner req r))
    insert_log env (running_log req r.sector_num req.worker_id)
    pure r

  unfoldable pub query_task : RequestInfo → Db → Reply × Db
  query_task req db = reply_of (transaction env (query_task_body req) db)

  abbrev pub claimed : DbTaskInfo → Result (Unit {0}) × Db → Reply × Db
  claimed r (ok _, db) = (results (selected r ∷ []), db)
  claimed r (err e, db) = (refused (failed "record not found"), db)

  abbrev pub claim : RequestInfo → Result DbTaskInfo × Db → Reply × Db
  claim req (ok r, db) = claimed r (
      update_infos env (λ x. retryable req x && eq_ℤ x.sector_num r.sector_num)
        (λ x. record x { state = runing }) db)
  claim req (err e, db) = (refused e, db)

  unfoldable pub query_retry : RequestInfo → Db → Reply × Db
  query_retry req db = claim req (first_info env (retryable req) db)

  unfoldable pub retry_task_body : RequestInfo → Tx DbTaskInfo
  retry_task_body req = do
    update_infos env (restartable req) (restart req)
    r ← first_info env (restartable req)
    insert_log env (running_log req r.sector_num r.worker_id)
    pure r

  unfoldable pub retry_task : RequestInfo → Db → Reply × Db
  retry_task req db = reply_of (transaction env (retry_task_body req) db)
