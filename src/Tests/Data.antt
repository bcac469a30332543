-- ===== src/Tests/Data.antt =====
-- A small installation: actor 1000 with three sectors, on an engine that keeps its tables in
-- memory.
use filecoin_sealer.Prelude.{ℕ, String, List, [], ◌∷◌, ℤ, pos, negsuc, str_eq}
use filecoin_sealer.Tables.{
  TaskType, pc1, pc2, init, task_eq, bytes_eq, text_asks, type_asks, int_asks, nat_asks, bytes_ask,
  same_key, same_inputs, same_owner, same_outputs, same_row, RequestInfo, DbTaskInfo, TaskResult,
}
use filecoin_sealer.Database.{Db}
use filecoin_sealer.Miner.Query.{
  wanted, assign, query_task_body, query_task, retryable, query_retry, restart, restartable,
  retry_task_body, retry_task,
}
use filecoin_sealer.Miner.Receive.{
  awaits, awaits_log, complete, receive_failure, receive_success, late_jobs, recieve_task_result,
}
use filecoin_sealer.Miner.Failure.{
  contains, decide, same_failure, act, handle_failed_task, exec_asks, same_rule, add_rules,
  init_db_task_failed,
}

-- Unfolding this unfolds the whole model of the miner.
unfoldable pub evaluated : Unit {0}
unfolding str_eq task_eq bytes_eq text_asks type_asks int_asks nat_asks bytes_ask same_key
    same_inputs same_owner same_outputs same_row wanted assign query_task_body query_task retryable
    query_retry restart restartable retry_task_body retry_task awaits awaits_log complete
    receive_failure receive_success late_jobs recieve_task_result contains decide same_failure act
    handle_failed_task exec_asks same_rule add_rules init_db_task_failed
evaluated = tt

abbrev pub task : ℕ → ℕ → TaskType → ℤ → String → String → DbTaskInfo
task id sector t state worker session = record {
  id = pos id;
  sector_num = pos sector;
  actor_id = pos 1000;
  task_type = t;
  sealer_proof = "512MiB";
  proof_type = pos 7;
  piece_str = "";
  cache_dir_path = "/cache";
  staged_sector_path = "/tmp";
  sealed_sector_path = "/sealed";
  worker_id = worker;
  host_name = "";
  worker_listen = "";
  phase1_output = [];
  comm_d = "";
  comm_r = "";
  last_req_id = session;
  ticket_epoch = pos 0;
  ticket_hex = "";
  seed_epoch = pos 0;
  seed_hex = "";
  c1_out = [];
  proof = [];
  state = state;
  deadline_inx = 0;
  partition_inx = 0;
}

abbrev pub fresh : DbTaskInfo
fresh = task 1 5 pc1 init "" ""

abbrev pub second : DbTaskInfo
second = task 2 6 pc1 init "" ""

abbrev pub sealed : DbTaskInfo
sealed = task 3 7 pc2 init "w1" "s0"

abbrev pub tables : List DbTaskInfo → Db
tables rows = record {
  task_infos = rows;
  task_logs = [];
  task_faileds = [];
  post_infos = [];
  clock = 0;
}

abbrev pub start : Db
start = tables (fresh ∷ second ∷ sealed ∷ [])

abbrev pub request : TaskType → ℤ → String → String → RequestInfo
request t sector worker session = record {
  actor_id = pos 1000;
  sector_num = sector;
  task_type = t;
  session = session;
  worker_id = worker;
  host_name = "h1";
  worker_listen = "127.0.0.1:3456";
  sectors = "";
}

abbrev pub any : ℤ
any = negsuc 0

abbrev pub nothing : TaskResult
nothing = record {
  sealed_cid = "";
  unsealed_cid = "";
  seed_epoch = pos 0;
  seed_hex = "";
  dealine_inx = 0;
  partition_inx = 0;
  comm_string = "";
  comm_bytes = 7 ∷ [];
}
