-- ===== src/Miner/Receive/Advance.antt =====
-- Where a delivery moves the rows of the task table: one stage on, or into ERROR.
use filecoin_sealer.Prelude.{
  ◌+◌, ◌≡◌, refl, sym, ap, ◌∙◌, ◌⊎◌, inl, inr, Bool, true, false, List, [], ◌∷◌, ◌++◌, none, some,
  arith, Pointwise, Pointwise-map_if, and_true, eq_ℤ_iff, ◌≢◌,
}
use filecoin_sealer.Tables.{
  TaskType, pc1, commit, next_task, rank, is_stage, init, runing, error, task_eq, type_asks_stage,
  text_asks_named, DbTaskInfo,
}
use filecoin_sealer.Database.{
  Db, DbError, Env, Outcome, committed, uncommitted, aborted, SameTables, transaction_atomic,
}
use filecoin_sealer.Miner.State.{Job, update_post_info}
use filecoin_sealer.Miner.Receive.Defs.{
  Delivery, awaits, complete, recieve_task_result, answer, late_jobs, failure_job, receive_body,
}
use filecoin_sealer.Miner.Receive.Body.{settle, settle_by, recieve_task_result-Settles}

-- One row across a delivery: it stays, or it was running for the delivering session and moves on.
pub data Moved (d : Delivery) (x y : DbTaskInfo) : Type 0 where
  stays : y ≡ x → Moved d x y
  advances :
      d.is_err ≡ false
      → x.state ≡ runing
      → x.task_type ≡ d.task_type
      → x.last_req_id ≡ d.req_id
      → y.state ≡ init
      → y.task_type ≡ next_task x.task_type
      → Moved d x y
  fails :
      d.is_err ≡ true
      → x.state ≡ runing
      → x.task_type ≡ d.task_type
      → x.last_req_id ≡ d.req_id
      → y.state ≡ error
      → y.task_type ≡ x.task_type
      → Moved d x y

complete_columns :
    (t : TaskType) (d : Delivery) (x : DbTaskInfo)
    → ((complete t d x).state ≡ init) × ((complete t d x).task_type ≡ next_task d.task_type)
unfolding complete
complete_columns pc1 d x = (refl, refl)
complete_columns t d x = (refl, refl)

-- What `awaits` says of a row, for a delivery that names its stage and its session.
pub awaits_columns :
    (d : Delivery) (x : DbTaskInfo)
    → is_stage d.task_type ≡ true
    → d.req_id ≢ ""
    → awaits d x ≡ true
    → (x.state ≡ runing) × (x.task_type ≡ d.task_type) × (x.last_req_id ≡ d.req_id)
unfolding awaits
awaits_columns d x stage named h =
    let running = (and_true _ _ (and_true _ _ (and_true _ _ h).1).1) in
    let keys = and_true _ _ running.1 in
    (
      sym ((eq_ℤ_iff _ _).0 running.0),
      type_asks_stage d.task_type x.task_type stage keys.0,
      text_asks_named d.req_id x.last_req_id named keys.1,
    )

settle-Moved :
    (d : Delivery) (x : DbTaskInfo) (b : Bool)
    → d.is_err ≡ b
    → is_stage d.task_type ≡ true
    → d.req_id ≢ ""
    → awaits d x ≡ true
    → Moved d x (settle_by b d x)
settle-Moved d x true e stage named h =
    let (running, type, session) = awaits_columns d x stage named h in
    fails e running type session refl refl
settle-Moved d x false e stage named h =
    let (running, type, session) = awaits_columns d x stage named h in
    let (waiting, next) = complete_columns d.task_type d x in
    advances e running type session waiting (next ∙ ap next_task (sym type))

-- An accepted delivery for a stage, under a session that is not blank, leaves each row as it was or
-- moves it: only a row that was RUNING in that stage under that session, to ERROR if the delivery
-- is an error, and else to INIT of the next stage.
pub recieve_task_result-Moved :
    (env : Env) (d : Delivery) (jobs : List Job) (db db' : Db)
    → is_stage d.task_type ≡ true
    → d.req_id ≢ ""
    → recieve_task_result env d db ≡ (none, jobs, db')
    → Pointwise (Moved d) db.task_infos db'.task_infos
recieve_task_result-Moved env d jobs db db' stage named h =
    let s = recieve_task_result-Settles env d jobs db db' h in
    rw s.settled (
      Pointwise-map_if (Moved d) s.hit (settle d) db.task_infos
        (λ x hit. settle-Moved d x d.is_err refl stage named (s.only x hit)) (λ x _. stays refl))

-- A stage that has a successor stands right below it.
pub rank-next_task : (t : TaskType) → is_stage t ≡ true → rank (next_task t) ≡ rank t + 1
rank-next_task t h = ground arith

-- For a delivery for a stage, a row that stays or moves as `Moved` allows is as it was, or keeps
-- its stage and goes to ERROR when the delivery is an error, or goes exactly one stage on, to INIT,
-- when it is not.
pub Moved-rank :
    (d : Delivery) (x y : DbTaskInfo)
    → is_stage d.task_type ≡ true
    → Moved d x y
    → (y ≡ x)
      ⊎ (((d.is_err ≡ true) × (y.state ≡ error) × (rank y.task_type ≡ rank x.task_type))
          ⊎ ((d.is_err ≡ false) × (y.state ≡ init) × (rank y.task_type ≡ rank x.task_type + 1)))
Moved-rank d x y stage (stays e) = inl e
Moved-rank d x y stage (advances e run type session wait next) =
    inr (inr (e, wait, ap rank next ∙ rank-next_task x.task_type (ap is_stage type ∙ stage)))
Moved-rank d x y stage (fails e run type session bad same) = inr (inl (e, bad, ap rank same))

after_commit :
    (env : Env) (d : Delivery) (jobs : List Job) (db' : Db) (o : Outcome (List Job) × Db)
    → answer env d o ≡ (none, jobs, db')
    → (early : List Job) × (jobs ≡ early ++ late_jobs env d)
after_commit env d jobs db' (committed early, x) h = (early, cc)
after_commit env d jobs db' (uncommitted early e, x) h = cc
after_commit env d jobs db' (aborted e, x) h = cc

-- An accepted delivery of a COMMIT that failed starts, as its last two jobs, the handling of the
-- failure and the update of the PoSt row.
pub failed_commit_registers :
    (env : Env) (d : Delivery) (jobs : List Job) (db db' : Db)
    → d.is_err ≡ true
    → d.task_type ≡ commit
    → recieve_task_result env d db ≡ (none, jobs, db')
    → (early : List Job) × (jobs
        ≡ early ++ failure_job env d ∷ update_post_info d.actor_id d.sector_num ∷ [])
unfolding recieve_task_result late_jobs task_eq
failed_commit_registers env d jobs db db' bad last h =
    let (early, e) = after_commit env d jobs db' _ h in
    (early, e ∙ ap (λ l. early ++ l) (ground arith))

-- A delivery that is answered with an error leaves every table as it was.
pub recieve_task_result_refused :
    (env : Env) (d : Delivery) (e : DbError) (jobs : List Job) (db db' : Db)
    → recieve_task_result env d db ≡ (some e, jobs, db')
    → SameTables db' db
unfolding recieve_task_result
recieve_task_result_refused env d e jobs db db' h =
    ground (arith, transaction_atomic env (receive_body env d) db)
