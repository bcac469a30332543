-- ===== src/Miner/Post/Defs.antt =====
-- miner/util.go: RegisterPoSt and UpdatePoStInfo; miner/query.go: QueryToPoSt.
use filecoin_sealer.Prelude.{Bool, ◌&&◌, String, List, [], ℤ, pos, eq_ℤ}
use filecoin_sealer.Tables.{other, keyed_info, init, success, DbTaskInfo, DbPostInfo}
use filecoin_sealer.Database.{
  Db, not_found, failed, Result, ok, err, Env, Tx, first_info, update_infos, first_post, find_posts,
  update_posts, insert_post,
}
use filecoin_sealer.Miner.State.{of_sector}

abbrev pub of_post : ℤ → ℤ → DbPostInfo → Bool
of_post actor sector r = eq_ℤ r.actor_id actor && eq_ℤ r.sector_num sector

abbrev pub registered : ℤ → ℤ → String → DbPostInfo
registered actor sector worker = record {
  actor_id = actor;
  sector_num = sector;
  worker_id = worker;
  comm_r = "";
  cache_dir_path = "";
  sealed_sector_path = "";
  proof_type = pos 0;
  deadline_inx = 0;
  partition_inx = 0;
  state = init;
}

-- `Select("comm_r,cache_dir_path,sealed_sector_path,proof_type")`: the other columns are not read,
-- and keep the zero values of the struct.
abbrev pub read_columns : DbTaskInfo → DbTaskInfo
read_columns r = record {
  id = pos 0;
  sector_num = pos 0;
  actor_id = pos 0;
  task_type = other "";
  sealer_proof = "";
  proof_type = r.proof_type;
  piece_str = "";
  cache_dir_path = r.cache_dir_path;
  staged_sector_path = "";
  sealed_sector_path = r.sealed_sector_path;
  worker_id = "";
  host_name = "";
  worker_listen = "";
  phase1_output = [];
  comm_d = "";
  comm_r = r.comm_r;
  last_req_id = "";
  ticket_epoch = pos 0;
  ticket_hex = "";
  seed_epoch = pos 0;
  seed_hex = "";
  c1_out = [];
  proof = [];
  state = pos 0;
  deadline_inx = 0;
  partition_inx = 0;
}

-- The row that is created, and the columns that are updated, from what was read.
abbrev pub created : ℤ → ℤ → DbTaskInfo → DbPostInfo
created actor sector t = record {
  actor_id = actor;
  sector_num = sector;
  worker_id = t.worker_id;
  comm_r = t.comm_r;
  cache_dir_path = t.cache_dir_path;
  sealed_sector_path = t.sealed_sector_path;
  proof_type = t.proof_type;
  deadline_inx = t.deadline_inx;
  partition_inx = t.partition_inx;
  state = success;
}

abbrev pub completed : DbTaskInfo → DbPostInfo → DbPostInfo
completed t r = record r {
  state = success;
  proof_type = t.proof_type;
  comm_r = t.comm_r;
  cache_dir_path = t.cache_dir_path;
  sealed_sector_path = t.sealed_sector_path;
  deadline_inx = t.deadline_inx;
  partition_inx = t.partition_inx;
}

module _ (env : Env) (actor sector : ℤ) where
  -- An error is logged, and nothing else.
  unfoldable pub register_post_info : String → Db → Db
  register_post_info worker db = (insert_post env (registered actor sector worker) db).1

  abbrev pub write_post : DbTaskInfo → Result DbPostInfo × Db → Db
  write_post t (err not_found, db) = (insert_post env (created actor sector t) db).1
  write_post t (ok r, db) = (update_posts env (of_post actor sector) (completed t) db).1
  write_post t (err (failed s), db) = (update_posts env (of_post actor sector) (completed t) db).1

  -- The last statement: a row of the sector is read once more, and its `c1_out` cleared.
  abbrev pub cleared : Result DbTaskInfo × Db → Db
  cleared (ok r, db) =
      (update_infos env (λ x. of_sector actor sector x && keyed_info r x)
        (λ x. record x { c1_out = [] }) db).1
  cleared (err e, db) = db

  abbrev pub posted : Result DbTaskInfo × Db → Db
  posted (ok r, db) = cleared (
      first_info env (of_sector actor sector)
        (write_post (read_columns r) (first_post env (of_post actor sector) db)))
  posted (err e, db) = db

  unfoldable pub update_post_info_row : Db → Db
  update_post_info_row db = posted (first_info env (of_sector actor sector) db)

-- `QueryToPoSt`; `in_list` is the test "sector_num in (…)" of a text of sectors.
unfoldable pub query_to_post : Env → (String → ℤ → Bool) → ℤ → String → Tx (List DbPostInfo)
query_to_post env in_list actor sectors =
    find_posts env
      (λ r. eq_ℤ r.actor_id actor && (eq_ℤ r.state success && in_list sectors r.sector_num))
