-- ===== src/Worker/Reset.antt =====
-- worker/worker.go: ResetAbortedSession; worker/query.go: queryOnly; worker/update.go:
-- updateTaskInfo. The files that a reset PC2 leaves are removed; no code here reads them.
pub mod Live
use filecoin_sealer.Prelude.{
  ◌≡◌, refl, sym, subst, ◌⊎◌, inl, inr, Bool, true, false, ◌&&◌, String, List, [], ◌∷◌, Option,
  none, some, ℤ, eq_ℤ, arith, Member, map_if, select, All, if◌then◌else◌,
}
use filecoin_sealer.Tables.{TaskType, pc1, pc2, task_eq, text_asks, runing, retry, DbTaskInfo}
use filecoin_sealer.Database.{Db, Env, Result, ok, err, find_infos, tick}
use filecoin_sealer.Miner.{Reply, results, refused, of_sector}
use filecoin_sealer.Miner.Query.{query_only}
use filecoin_sealer.Miner.Tasks.{update_task, is_ok, reset_loop, moved_to}
use filecoin_sealer.Miner.Tasks.Reset.{
  UniqueSectors, TouchesSector, reset_loop-Member, update_task_infos, Apart, select-Apart,
}
use filecoin_sealer.Worker.Process.{check_channel}
use filecoin_sealer.Worker.Process.Local.{Step, done, fault}
use filecoin_sealer.Worker.Start.{Wire, Worker, error_text}

-- The rows of this worker that run: a blank name asks for nothing.
unfoldable pub runs_here : Worker → DbTaskInfo → Bool
runs_here w r =
    text_asks w.worker_id r.worker_id && (text_asks w.host_name r.host_name && eq_ℤ runing r.state)

-- A PC2 that has begun to write its tree starts again from PC1.
abbrev pub back_to : (DbTaskInfo → Bool) → DbTaskInfo → TaskType
back_to has_tree q = if task_eq q.task_type pc2 && has_tree q then pc1 else q.task_type

abbrev pub rows_of : Reply → Step (List DbTaskInfo)
rows_of (results rows) = done rows
rows_of (refused e) = fault (error_text e)

-- What a call over the connection returns, if it was lost, and what it leaves of the tables.
abbrev pub over {ℓ} : {A : Type ℓ} → Option String → Bool → Step A × Db → Db → Step A × Db
over none reached (r, db') db = (r, db')
over (some e) true (r, db') db = (fault e, db')
over (some e) false (r, db') db = (fault e, db)

abbrev pub row_of : Result DbTaskInfo × Db → Step DbTaskInfo × Db
row_of (ok r, db) = (done r, db)
row_of (err e, db) = (fault (error_text e), db)

abbrev pub is_done {ℓ} : {A : Type ℓ} → Step A → Bool
is_done (done a) = true
is_done (fault e) = false

module _ (env : Env) where
  -- `queryOnly`
  unfoldable pub query_only_by :
      Bool → Wire → (DbTaskInfo → Bool) → Db → Step (List DbTaskInfo) × Db
  query_only_by false wire p db = (fault "w.MinerApi is nil", db)
  query_only_by true wire p db =
      let (reply, db') = query_only env p db in over wire.lost wire.reached (rows_of reply, db') db

  -- `updateTaskInfo`
  unfoldable pub update_task_info : Bool → Wire → ℤ → ℤ → TaskType → ℤ → Db → Step DbTaskInfo × Db
  update_task_info false wire actor sector t s db = (fault "w.MinerApi is nil", db)
  update_task_info true wire actor sector t s db =
      over wire.lost wire.reached (row_of (update_task env actor sector t s db)) db

  module _ (w : Worker) (has_tree : DbTaskInfo → Bool) (wires : DbTaskInfo → Wire) where
    abbrev pub reset_row : DbTaskInfo → Db → Bool × Db
    reset_row q db =
        let (r, db') =
          update_task_info w.connected (wires q) q.actor_id q.sector_num (back_to has_tree q) retry
            db in
        (is_done r, db')

    abbrev pub reset_rows : Step (List DbTaskInfo) × Db → Step (List DbTaskInfo) × Db
    reset_rows (done qs, db) =
        let (rows, db') =
          reset_loop (λ q. check_channel q.last_req_id w.running.task_close_chnl) reset_row qs db in
        (done rows, db')
    reset_rows (fault e, db) = (fault e, db)

    unfoldable pub reset_aborted : Wire → Db → Step (List DbTaskInfo) × Db
    reset_aborted wire db = reset_rows (query_only_by w.connected wire (runs_here w) db)
