-- ===== src/Miner/Query/Body.antt =====
-- What a hand-out that reached its end has read and written, statement by statement.
use filecoin_sealer.Prelude.{suc, ◌≡◌, true, [], ◌∷◌, ◌++◌, arith, Member, map_if}
use filecoin_sealer.Tables.{RequestInfo, DbTaskInfo, same_row}
use filecoin_sealer.Database.{Db, ok, Env}
use filecoin_sealer.Miner.Query.Defs.{wanted, assign, owner, running_log, query_task_body}

-- The hand-out of `r` to a request, as the two tables show it.
pub record HandedOut (env : Env) (req : RequestInfo) (db : Db) (r : DbTaskInfo) (db' : Db)
    : Type 0 where
  pub was_there : Member r db.task_infos
  pub was_wanted : wanted req r ≡ true
  pub infos_after : db'.task_infos ≡ map_if (same_row r) (assign req (owner req r)) db.task_infos
  pub logs_after :
      db'.task_logs
      ≡ db.task_logs
        ++ env.logs.fill (suc (suc db.clock)) (running_log req r.sector_num req.worker_id) ∷ []

module _ (env : Env) (req : RequestInfo) (db : Db) where
  body_statements :
      (r : DbTaskInfo) (db' : Db)
      → query_task_body env req db ≡ (ok r, db')
      → (env.infos.first db.clock (wanted req) db.task_infos ≡ ok r)
        × (env.infos.update (suc db.clock) (same_row r) (assign req (owner req r)) db.task_infos
            ≡ ok db'.task_infos)
        × (env.logs.insert
              (suc (suc db.clock))
              (running_log req r.sector_num req.worker_id)
              db.task_logs
            ≡ ok db'.task_logs)
  unfolding query_task_body
  body_statements r db' h = ground arith

  pub query_task_body-HandedOut :
      (r : DbTaskInfo) (db' : Db)
      → query_task_body env req db ≡ (ok r, db')
      → HandedOut env req db r db'
  query_task_body-HandedOut r db' h =
      let (found, updated, logged) = body_statements r db' h in
      let (there, fits) = env.infos.first_sound _ _ _ _ found in
      record {
        was_there = there;
        was_wanted = fits;
        infos_after = env.infos.update_sound _ _ _ _ _ updated;
        logs_after = env.logs.insert_sound _ _ _ _ logged;
      }
