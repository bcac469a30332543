-- ===== src/Tables/Rows.antt =====
-- util/mysql.go, util/types.go and util/api.go: the rows of the tables and the messages.
use filecoin_sealer.Prelude.{ℕ, String, List, ℤ}
use filecoin_sealer.Tables.Stage.{TaskType}

pub record RequestInfo : Type 0 where
  pub actor_id : ℤ
  pub sector_num : ℤ
  pub task_type : TaskType
  pub session : String
  pub worker_id : String
  pub host_name : String
  pub worker_listen : String
  pub sectors : String

pub record DbTaskInfo : Type 0 where
  pub id : ℤ
  pub sector_num : ℤ
  pub actor_id : ℤ
  pub task_type : TaskType
  pub sealer_proof : String
  pub proof_type : ℤ
  pub piece_str : String
  pub cache_dir_path : String
  pub staged_sector_path : String
  pub sealed_sector_path : String
  pub worker_id : String
  pub host_name : String
  pub worker_listen : String
  pub phase1_output : List ℕ
  pub comm_d : String
  pub comm_r : String
  pub last_req_id : String
  pub ticket_epoch : ℤ
  pub ticket_hex : String
  pub seed_epoch : ℤ
  pub seed_hex : String
  pub c1_out : List ℕ
  pub proof : List ℕ
  pub state : ℤ
  pub deadline_inx : ℕ
  pub partition_inx : ℕ

pub record DbTaskLog : Type 0 where
  pub id : ℤ
  pub sector_num : ℤ
  pub actor_id : ℤ
  pub task_type : TaskType
  pub req_id : String
  pub worker_id : String
  pub host_name : String
  pub worker_listen : String
  pub state : ℤ
  pub result : String

pub record DbPostInfo : Type 0 where
  pub actor_id : ℤ
  pub sector_num : ℤ
  pub worker_id : String
  pub comm_r : String
  pub cache_dir_path : String
  pub sealed_sector_path : String
  pub proof_type : ℤ
  pub deadline_inx : ℕ
  pub partition_inx : ℕ
  pub state : ℤ

-- The texts `retry` and `next` of `ExecType`, and any other text.
pub data ExecType : Type 0 where
  exec_retry exec_next : ExecType
  exec_other : String → ExecType

pub record DbTaskFailed : Type 0 where
  pub task_type : TaskType
  pub exec_type : ExecType
  pub err_outline : String
  pub update_state : ℤ
  pub retry_cnt : ℤ

pub record TaskResult : Type 0 where
  pub sealed_cid : String
  pub unsealed_cid : String
  pub seed_epoch : ℤ
  pub seed_hex : String
  pub dealine_inx : ℕ
  pub partition_inx : ℕ
  pub comm_string : String
  pub comm_bytes : List ℕ
