-- ===== src/Database/Transaction.antt =====
-- A sequence of statements, and the transaction that runs it: every error that the program answers
-- by `tx.Rollback()` takes all of its writes back, and so does a commit that fails.
use filecoin_sealer.Prelude.{suc, Bool, List, Option, none, some}
use filecoin_sealer.Tables.{DbTaskInfo, DbTaskLog, DbTaskFailed, DbPostInfo}
use filecoin_sealer.Database.Statements.{DbError, Result, ok, err, Env, Db}

abbrev pub Tx : Type 0 → Type 0
Tx A = Db → Result A × Db

infixl 5 ◌>>=◌ ◌>>◌
abbrev pub ◌>>=◌ : {A B : Type 0} → Tx A → (A → Tx B) → Tx B
◌>>=◌ m f db = let (r, db') = m db in elim r [ ok a ↦ f a db' | err e ↦ (err e, db') ]

abbrev pub ◌>>◌ : {A B : Type 0} → Tx A → Tx B → Tx B
m >> k = m >>= λ _. k

abbrev pub pure : {A : Type 0} → A → Tx A
pure a db = (ok a, db)

abbrev pub tick : Db → Db
tick db = record db { clock = suc db.clock }

module _ (env : Env) where
  abbrev pub first_info : (DbTaskInfo → Bool) → Tx DbTaskInfo
  first_info p db = (env.infos.first db.clock p db.task_infos, tick db)

  abbrev pub find_infos : (DbTaskInfo → Bool) → Tx (List DbTaskInfo)
  find_infos p db = (env.infos.find db.clock p db.task_infos, tick db)

  abbrev stored_infos : Result (List DbTaskInfo) → Db → Result (Unit {0}) × Db
  stored_infos (ok rows) db = (ok tt, record db { task_infos = rows })
  stored_infos (err e) db = (err e, db)

  abbrev pub update_infos : (DbTaskInfo → Bool) → (DbTaskInfo → DbTaskInfo) → Tx (Unit {0})
  update_infos p f db = stored_infos (env.infos.update db.clock p f db.task_infos) (tick db)

  abbrev pub insert_info : DbTaskInfo → Tx (Unit {0})
  insert_info r db = stored_infos (env.infos.insert db.clock r db.task_infos) (tick db)

  abbrev pub first_log : (DbTaskLog → Bool) → Tx DbTaskLog
  first_log p db = (env.logs.first db.clock p db.task_logs, tick db)

  abbrev pub find_logs : (DbTaskLog → Bool) → Tx (List DbTaskLog)
  find_logs p db = (env.logs.find db.clock p db.task_logs, tick db)

  abbrev stored_logs : Result (List DbTaskLog) → Db → Result (Unit {0}) × Db
  stored_logs (ok rows) db = (ok tt, record db { task_logs = rows })
  stored_logs (err e) db = (err e, db)

  abbrev pub update_logs : (DbTaskLog → Bool) → (DbTaskLog → DbTaskLog) → Tx (Unit {0})
  update_logs p f db = stored_logs (env.logs.update db.clock p f db.task_logs) (tick db)

  abbrev pub insert_log : DbTaskLog → Tx (Unit {0})
  insert_log r db = stored_logs (env.logs.insert db.clock r db.task_logs) (tick db)

  abbrev pub find_fails : (DbTaskFailed → Bool) → Tx (List DbTaskFailed)
  find_fails p db = (env.fails.find db.clock p db.task_faileds, tick db)

  abbrev stored_fails : Result (List DbTaskFailed) → Db → Result (Unit {0}) × Db
  stored_fails (ok rows) db = (ok tt, record db { task_faileds = rows })
  stored_fails (err e) db = (err e, db)

  abbrev pub first_fail : (DbTaskFailed → Bool) → Tx DbTaskFailed
  first_fail p db = (env.fails.first db.clock p db.task_faileds, tick db)

  abbrev pub insert_fail : DbTaskFailed → Tx (Unit {0})
  insert_fail r db = stored_fails (env.fails.insert db.clock r db.task_faileds) (tick db)

  abbrev pub first_post : (DbPostInfo → Bool) → Tx DbPostInfo
  first_post p db = (env.posts.first db.clock p db.post_infos, tick db)

  abbrev pub find_posts : (DbPostInfo → Bool) → Tx (List DbPostInfo)
  find_posts p db = (env.posts.find db.clock p db.post_infos, tick db)

  abbrev stored_posts : Result (List DbPostInfo) → Db → Result (Unit {0}) × Db
  stored_posts (ok rows) db = (ok tt, record db { post_infos = rows })
  stored_posts (err e) db = (err e, db)

  abbrev pub update_posts : (DbPostInfo → Bool) → (DbPostInfo → DbPostInfo) → Tx (Unit {0})
  update_posts p f db = stored_posts (env.posts.update db.clock p f db.post_infos) (tick db)

  abbrev pub insert_post : DbPostInfo → Tx (Unit {0})
  insert_post r db = stored_posts (env.posts.insert db.clock r db.post_infos) (tick db)

-- The tables as they were, at a later moment.
abbrev pub rolled_back : Db → Db → Db
rolled_back old new = record old { clock = new.clock }

-- How a transaction ended: the answer of its body, and the error of its commit, if it was reached.
pub data Outcome (A : Type 0) : Type 0 where
  committed : A → Outcome A
  uncommitted : A → DbError → Outcome A
  aborted : DbError → Outcome A

abbrev ended : {A : Type 0} → A → Option DbError → Db → Db → Outcome A × Db
ended a none old new = (committed a, tick new)
ended a (some e) old new = (uncommitted a e, rolled_back old (tick new))

abbrev closed : {A : Type 0} → Env → Db → Result A × Db → Outcome A × Db
closed env old (ok a, new) = ended a (env.commit new.clock) old new
closed env old (err e, new) = (aborted e, rolled_back old new)

-- `tx := m.Db.Begin()`, the body, and `tx.Rollback()` or `tx.Commit()`.
abbrev pub transaction : {A : Type 0} → Env → Tx A → Db → Outcome A × Db
transaction env body db = closed env db (body db)
