-- ===== src/Miner/Failure/Handle.antt =====
-- What handling a failure writes.
use filecoin_sealer.Prelude.{
  ◌≡◌, refl, true, false, String, List, [], ◌∷◌, ℤ, eq_ℤ_iff, arith, Pointwise, Pointwise-map_if,
}
use filecoin_sealer.Tables.{
  TaskType, next_task, success, task_eq, DbTaskInfo, DbTaskLog, RequestInfo,
}
use filecoin_sealer.Database.{Db, Result, ok, err, Env, find_fails, find_logs, update_infos}
use filecoin_sealer.Miner.State.{of_sector}
use filecoin_sealer.Miner.Query.{wanted, retryable, any_sector}
use filecoin_sealer.Miner.Failure.Defs.{
  Decision, leave, again, onward, same_failure, act, handled, handle_failed_task,
}

-- One row of the failed sector's task table across the handling.
pub data Handled (actor sector : ℤ) (t : TaskType) (x y : DbTaskInfo) : Type 0 where
  left : y ≡ x → Handled actor sector t x y
  retried :
      (s : ℤ)
      → of_sector actor sector x ≡ true
      → y ≡ record x { state = s }
      → Handled actor sector t x y
  skipped :
      (s : ℤ)
      → of_sector actor sector x ≡ true
      → y ≡ record x { state = s; task_type = next_task t }
      → Handled actor sector t x y

Pointwise-left :
    (actor sector : ℤ) (t : TaskType) (xs : List DbTaskInfo)
    → Pointwise (Handled actor sector t) xs xs
Pointwise-left actor sector t [] = tt
Pointwise-left actor sector t (x ∷ xs) = (left refl, Pointwise-left actor sector t xs)

module _ (env : Env) (actor sector : ℤ) (t : TaskType) (text : String) where
  updated-Handled :
      (f : DbTaskInfo → DbTaskInfo) (db : Db)
      → ((x : DbTaskInfo) → of_sector actor sector x ≡ true → Handled actor sector t x (f x))
      → (r : Result (List DbTaskInfo))
      → env.infos.update db.clock (of_sector actor sector) f db.task_infos ≡ r
      → Pointwise
          (Handled actor sector t)
          db.task_infos
          (update_infos env (of_sector actor sector) f db).1.task_infos
  updated-Handled f db each (ok rows) e = rw e (
      rw (env.infos.update_sound _ _ _ _ _ e) (
        Pointwise-map_if (Handled actor sector t) (of_sector actor sector) f db.task_infos each
          (λ x _. left refl)))
  updated-Handled f db each (err x) e = rw e (Pointwise-left actor sector t db.task_infos)

  act-Handled :
      (d : Decision) (db : Db)
      → Pointwise
          (Handled actor sector t)
          db.task_infos
          (act env actor sector t text d db).task_infos
  unfolding act
  act-Handled leave db = Pointwise-left actor sector t db.task_infos
  act-Handled (again s) db =
      updated-Handled (λ r. record r { state = s }) db (λ x h. retried s h refl) _ refl
  act-Handled (onward s) db =
      updated-Handled (λ r. record r { state = s; task_type = next_task t }) db
        (λ x h. skipped s h refl) _ refl

  handled-Handled :
      (r : Result (List DbTaskLog)) (db : Db)
      → Pointwise
          (Handled actor sector t)
          db.task_infos
          (handled env actor sector t text (r, db)).task_infos
  handled-Handled (ok logs) db = act-Handled _ (find_fails env (λ f. task_eq f.task_type t) db).1
  handled-Handled (err e) db = Pointwise-left actor sector t db.task_infos

  -- Handling a failure touches the rows of its sector alone: it sets their state, or sets it and
  -- moves them to the stage after the failed one.
  pub handle_failed_task-Handled :
      (db : Db)
      → Pointwise
          (Handled actor sector t)
          db.task_infos
          (handle_failed_task env actor sector t text db).task_infos
  unfolding handle_failed_task
  handle_failed_task-Handled db =
      handled-Handled (find_logs env (same_failure actor sector text) db).0
        (find_logs env (same_failure actor sector text) db).1

-- A row that a rule has put into the state SUCCESS is found by no request for any sector, and by
-- no request to retry.
pub success_unreachable :
    (req : RequestInfo) (x : DbTaskInfo)
    → req.sector_num ≡ any_sector
    → x.state ≡ success
    → (wanted req x ≡ false) × (retryable req x ≡ false)
unfolding wanted retryable
success_unreachable req x a s = ground (arith, eq_ℤ_iff req.sector_num any_sector)
