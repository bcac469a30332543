-- ===== src/Miner/Tasks/Defs.antt =====
-- miner/miner.go: UpdateTask, UpdateTaskLog, QueryLastResult and ResetAbortedSession.
use filecoin_sealer.Prelude.{Bool, true, false, ◌&&◌, ◌||◌, String, List, [], ◌∷◌, ℤ, eq_ℤ, str_eq}
use filecoin_sealer.Tables.{
  TaskType, precommit, seed, commit, task_eq, text_asks, int_asks, init, runing, success,
  RequestInfo, DbTaskInfo, DbTaskLog,
}
use filecoin_sealer.Database.{
  Db, Result, ok, err, Env, Tx, ◌>>◌, first_info, find_infos, update_infos, first_log, update_logs,
}
use filecoin_sealer.Miner.State.{of_sector, check_session}

abbrev pub moved_to : TaskType → ℤ → DbTaskInfo → DbTaskInfo
moved_to t s r = record r { task_type = t; state = s }

-- "actor_id = ? and sector_num = ? and task_type = ? and req_id = ?"
unfoldable pub of_request : RequestInfo → DbTaskLog → Bool
of_request req l =
    (eq_ℤ l.actor_id req.actor_id && eq_ℤ l.sector_num req.sector_num)
    && (task_eq l.task_type req.task_type && str_eq l.req_id req.session)

-- `Where(taskRuningOrm)`: all fields are values, so a blank one asks for nothing.
unfoldable pub of_result : ℤ → ℤ → String → DbTaskLog → Bool
of_result actor sector req_id l =
    int_asks actor l.actor_id
    && (int_asks sector l.sector_num && (int_asks success l.state && text_asks req_id l.req_id))

-- The rows that ResetAbortedSession looks at: stages of the miner that run.
unfoldable pub runs_in_miner : ℤ → DbTaskInfo → Bool
runs_in_miner actor r =
    (task_eq r.task_type precommit || (task_eq r.task_type seed || task_eq r.task_type commit))
    && (eq_ℤ r.state runing && eq_ℤ r.actor_id actor)

-- `taskInfoJ.ReqID` of a row that was found: the statement selects `last_req_id`, and the struct has no
-- field of that column, so that the text stays blank.
abbrev pub selected_session : DbTaskInfo → String
selected_session q = ""

-- The loop over the rows that were found: a row whose session is alive is passed over, and a row
-- whose update fails is not listed.
abbrev pub list_if : Bool → DbTaskInfo → List DbTaskInfo → List DbTaskInfo
list_if true q rest = q ∷ rest
list_if false q rest = rest

unfoldable pub reset_loop :
    (DbTaskInfo → Bool)
    → (DbTaskInfo → Db → Bool × Db)
    → List DbTaskInfo
    → Db
    → List DbTaskInfo × Db
reset_loop live one [] db = ([], db)
reset_loop live one (q ∷ qs) db = elim (live q) [
  | true ↦ reset_loop live one qs db
  | false ↦
      let (fine, db') = one q db in
      let (rest, db'') = reset_loop live one qs db' in (list_if fine q rest, db'')
]

abbrev pub is_ok {ℓ} : {A : Type ℓ} → Result A → Bool
is_ok (ok a) = true
is_ok (err e) = false

module _ (env : Env) where
  unfoldable pub update_task : ℤ → ℤ → TaskType → ℤ → Tx DbTaskInfo
  update_task actor sector t s = do
    update_infos env (of_sector actor sector) (moved_to t s)
    first_info env (of_sector actor sector)

  unfoldable pub update_task_log : RequestInfo → String → Tx (Unit {0})
  update_task_log req text = update_logs env (of_request req) (λ l. record l { result = text })

  unfoldable pub query_last_result : ℤ → ℤ → String → Tx DbTaskLog
  query_last_result actor sector req_id = first_log env (of_result actor sector req_id)

  -- A row back to INIT of its stage; the Boolean says that it is listed.
  abbrev pub reset_one : DbTaskInfo → Db → Bool × Db
  reset_one q db =
      let (r, db') = update_task q.actor_id q.sector_num q.task_type init db in (is_ok r, db')

  abbrev pub reset_found :
      List String → Result (List DbTaskInfo) × Db → Result (List DbTaskInfo) × Db
  reset_found sessions (ok qs, db) =
      let (rows, db') =
        reset_loop (λ q. check_session (selected_session q) sessions) reset_one qs db in
      (ok rows, db')
  reset_found sessions (err e, db) = (err e, db)

  unfoldable pub reset_aborted_session : List String → ℤ → Tx (List DbTaskInfo)
  reset_aborted_session sessions actor db =
      reset_found sessions (find_infos env (runs_in_miner actor) db)
