-- ===== src/Miner/Query/Liveness.antt =====
-- A database without faults: a waiting task is handed out.
use filecoin_sealer.Prelude.{
  ℕ, suc, ◌≡◌, ◌⊎◌, inl, inr, Bool, true, false, List, [], ◌∷◌, arith, Member, All-Member,
}
use filecoin_sealer.Tables.{RequestInfo, DbTaskInfo, same_row}
use filecoin_sealer.Database.{Db, not_found, ok, err, Engine, Env}
use filecoin_sealer.Miner.State.{results}
use filecoin_sealer.Miner.Query.Defs.{
  wanted, assign, owner, running_log, query_task_body, query_task,
}

-- Every statement gets through, but a lookup may find nothing.
pub record Healthy {Row : Type 0} (e : Engine Row) : Type 0 where
  pub finds :
      (t : ℕ) (p : Row → Bool) (rows : List Row)
      → ((r : Row) × (e.first t p rows ≡ ok r)) ⊎ (e.first t p rows ≡ err not_found)
  pub updates :
      (t : ℕ) (p : Row → Bool) (f : Row → Row) (rows : List Row)
      → (rows' : List Row) × (e.update t p f rows ≡ ok rows')
  pub inserts :
      (t : ℕ) (r : Row) (rows : List Row) → (rows' : List Row) × (e.insert t r rows ≡ ok rows')

pub first_exists :
    {Row : Type 0} (e : Engine Row) (t : ℕ) (p : Row → Bool) (rows : List Row) (x : Row)
    → Healthy e
    → Member x rows
    → p x ≡ true
    → (r : Row) × (e.first t p rows ≡ ok r)
first_exists e t p rows x healthy there fits = elim (healthy.finds t p rows) [
  | inl found ↦ found
  | inr missing ↦
      absurd
        (cc (fits, All-Member (λ r. p r ≡ false) x rows (e.first_missing t p rows missing) there))
]

-- If no statement on the task table or the log fails, a request that some row fits is answered by a
-- row.
pub query_task_answers :
    (env : Env) (req : RequestInfo) (db : Db) (x : DbTaskInfo)
    → Healthy env.infos
    → Healthy env.logs
    → Member x db.task_infos
    → wanted req x ≡ true
    → (r : DbTaskInfo) × (db' : Db) × (query_task env req db ≡ (results (r ∷ []), db'))
unfolding query_task query_task_body
query_task_answers env req db x infos logs there fits =
    let (r, found) =
      first_exists env.infos db.clock (wanted req) db.task_infos x infos there fits in
    let (rows, updated) =
      infos.updates (suc db.clock) (same_row r) (assign req (owner req r)) db.task_infos in
    let (rows', logged) =
      logs.inserts (suc (suc db.clock)) (running_log req r.sector_num req.worker_id) db.task_logs in
    (r, (query_task env req db).1, ground arith)
