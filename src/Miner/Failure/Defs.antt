-- ===== src/Miner/Failure/Defs.antt =====
-- miner/util.go: TaskFailedHandle; miner/faileddef.go: InitDbTaskFailed.
use text.Mathlib.Text.{find?}
use filecoin_sealer.Prelude.{
  ℕ, Bool, true, false, ◌&&◌, String, List, [], ◌∷◌, ℤ, pos, eq_ℤ, ltb_ℤ, str_eq, if◌then◌else◌,
  Option, none, some, length,
}
use filecoin_sealer.Tables.{
  TaskType, pc1, pc2, precommit, seed, c1, c2, commit, next_task, success, error, retry, task_eq,
  type_asks, text_asks, int_asks, DbTaskLog, DbTaskFailed, ExecType, exec_retry, exec_next,
  exec_other,
}
use filecoin_sealer.Database.{
  Db, DbError, not_found, failed, Result, ok, err, Env, Tx, ◌>>◌, pure, first_fail, find_fails,
  insert_fail, find_logs, update_infos, Outcome, committed, uncommitted, aborted, transaction,
}
use filecoin_sealer.Miner.State.{of_sector}

-- `strings.Contains(text, part)`
unfoldable pub contains : String → String → Bool
contains text part = elim (find? text part) [ none ↦ false | some _ ↦ true ]

-- What the loop over the rules leaves in `retry`, `next` and `state`.
pub data Decision : Type 0 where
  leave : Decision
  again : ℤ → Decision
  onward : ℤ → Decision

-- The loop: `count` is the number of times that this very failure is in the log.
unfoldable pub decide : ℕ → String → List DbTaskFailed → Decision
decide count text [] = leave
decide count text (f ∷ fs) =
    let rest = decide count text fs in
    if contains text f.err_outline
    then elim f.exec_type [
      | exec_retry ↦ if ltb_ℤ (pos count) f.retry_cnt then again f.update_state else rest
      | exec_next ↦ onward f.update_state
      | exec_other s ↦ rest
    ]
    else rest

-- "actor_id = ? and sector_num = ? and state = ? and result = ?"
unfoldable pub same_failure : ℤ → ℤ → String → DbTaskLog → Bool
same_failure actor sector text l =
    eq_ℤ l.actor_id actor
    && (eq_ℤ l.sector_num sector && (eq_ℤ l.state error && str_eq l.result text))

-- The rules are read without a look at the error: none are used then.
abbrev pub or_none : Result (List DbTaskFailed) → List DbTaskFailed
or_none (ok fs) = fs
or_none (err e) = []

module _ (env : Env) (actor sector : ℤ) (t : TaskType) (text : String) where
  -- The two `if`s after the loop; their statements' errors are not read.
  unfoldable pub act : Decision → Db → Db
  act leave db = db
  act (again s) db = (update_infos env (of_sector actor sector) (λ r. record r { state = s }) db).1
  act (onward s) db =
      (update_infos env (of_sector actor sector)
        (λ r. record r { state = s; task_type = next_task t }) db).1

  abbrev pub handled : Result (List DbTaskLog) × Db → Db
  handled (ok logs, db) =
      let (fs, db') = find_fails env (λ f. task_eq f.task_type t) db in
      act (decide (length logs) text (or_none fs)) db'
  handled (err e, db) = db

  unfoldable pub handle_failed_task : Db → Db
  handle_failed_task db = handled (find_logs env (same_failure actor sector text) db)

-- The rules that a new installation starts with.
abbrev pub rule : TaskType → String → ℕ → ExecType → ℤ → DbTaskFailed
rule t outline count exec state = record {
  task_type = t;
  exec_type = exec;
  err_outline = outline;
  update_state = state;
  retry_cnt = pos count;
}

abbrev pub default_rules : List DbTaskFailed
default_rules =
    rule pc1 "timeout" 5 exec_retry retry
    ∷ rule pc2 "timeout" 5 exec_retry retry
    ∷ rule c1 "timeout" 5 exec_retry retry
    ∷ rule c2 "timeout" 5 exec_retry retry
    ∷ rule precommit "already been allocated (RetCode=16)" 99 exec_next success
    ∷ rule precommit "already in mpool, increase GasPremium to" 99 exec_retry success
    ∷ rule precommit "message nonce too low" 99 exec_retry success
    ∷ rule seed "precommit info is not exists" 3 exec_retry success
    ∷ rule commit "reason: no pre-committed sector" 5 exec_next retry
    ∷ rule commit "message nonce too low" 99 exec_retry success
    ∷ rule commit "already in mpool, increase GasPremium to" 99 exec_retry success
    ∷ []

unfoldable pub exec_asks : ExecType → ExecType → Bool
exec_asks exec_retry exec_retry = true
exec_asks exec_next exec_next = true
exec_asks (exec_other s) (exec_other t) = text_asks s t
exec_asks (exec_other s) _ = str_eq s ""
exec_asks _ _ = false

-- `tx.Where(tf1)`
unfoldable pub same_rule : DbTaskFailed → DbTaskFailed → Bool
same_rule w f =
    type_asks w.task_type f.task_type
    && (exec_asks w.exec_type f.exec_type
        && (text_asks w.err_outline f.err_outline
            && (int_asks w.update_state f.update_state && int_asks w.retry_cnt f.retry_cnt)))

module _ (env : Env) where
  abbrev pub or_create : DbTaskFailed → Result DbTaskFailed × Db → Result (Unit {0}) × Db
  or_create w (ok f, db) = (ok tt, db)
  or_create w (err not_found, db) = insert_fail env w db
  or_create w (err (failed s), db) = (err (failed s), db)

  -- `FirstOrCreate`
  abbrev pub first_or_create : DbTaskFailed → Tx (Unit {0})
  first_or_create w db = or_create w (first_fail env (same_rule w) db)

  unfoldable pub add_rules : List DbTaskFailed → Tx (Unit {0})
  add_rules [] = pure tt
  add_rules (w ∷ ws) = first_or_create w >> add_rules ws

  -- The error of the commit is not read.
  abbrev pub init_answer : Outcome (Unit {0}) × Db → Option DbError × Db
  init_answer (committed _, db) = (none, db)
  init_answer (uncommitted _ e, db) = (none, db)
  init_answer (aborted e, db) = (some e, db)

  unfoldable pub init_db_task_failed : Db → Option DbError × Db
  init_db_task_failed db = init_answer (transaction env (add_rules default_rules) db)
