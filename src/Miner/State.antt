-- ===== src/Miner/State.antt =====
-- miner/miner.go: the state of a miner that its task methods read and write.
use filecoin_sealer.Prelude.{
  String, List, [], ◌∷◌, ℤ, Bool, true, false, ◌&&◌, if◌then◌else◌, str_eq, eq_ℤ,
}
use filecoin_sealer.Tables.{TaskType, DbTaskInfo}
use filecoin_sealer.Database.{Db, DbError}

-- `ReqSession` is a set of texts; its stored values are nil.
pub record Miner : Type 0 where
  pub db : Db
  pub wait_seed_epoch : ℤ
  pub sector_expiration : ℤ
  pub req_session : List String

-- The `go` statements of the task methods.
pub data Job : Type 0 where
  task_failed_handle : ℤ → ℤ → TaskType → String → Job
  register_post : ℤ → ℤ → String → Job
  update_post_info : ℤ → ℤ → Job

-- `QueryTaskInfoResult`: the code `Ok` with its results, or `Err` with its text.
pub data Reply : Type 0 where
  results : List DbTaskInfo → Reply
  refused : DbError → Reply

-- "actor_id = ? and sector_num = ?"
abbrev pub of_sector : ℤ → ℤ → DbTaskInfo → Bool
of_sector actor sector r = eq_ℤ r.actor_id actor && eq_ℤ r.sector_num sector

-- `m.ReqSession.Load(session)`
unfoldable pub check_session : String → List String → Bool
check_session s [] = false
check_session s (x ∷ xs) = if str_eq x s then true else check_session s xs

-- `m.ReqSession.Store(session, nil)`
unfoldable pub store_session : String → List String → List String
unfolding check_session
store_session s xs = if check_session s xs then xs else s ∷ xs

-- `m.ReqSession.Delete(session)`
unfoldable pub delete_session : String → List String → List String
delete_session s [] = []
delete_session s (x ∷ xs) = if str_eq x s then delete_session s xs else x ∷ delete_session s xs
