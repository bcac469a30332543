-- ===== src/Miner/Query/Handout.antt =====
-- Who gets which task from `QueryTask`.
use filecoin_sealer.Prelude.{
  ℕ, ◌≡◌, refl, ◌≢◌, sym, ap, ◌∙◌, false, String, List, [], ◌∷◌, none, arith, Member, Member-map_if,
  if◌then◌else◌,
}
use filecoin_sealer.Tables.{RequestInfo, DbTaskInfo, same_row, same_row_refl, init}
use filecoin_sealer.Database.{
  Db, DbError, Env, Outcome, committed, uncommitted, aborted, transaction, SameTables,
  transaction_committed, transaction_atomic, AlwaysCommits,
}
use filecoin_sealer.Miner.State.{results, refused}
use filecoin_sealer.Miner.Query.Defs.{
  any_sector, assign, owner, query_task_body, query_task, reply_of,
}
use filecoin_sealer.Miner.Query.Body.{HandedOut, query_task_body-HandedOut}
use filecoin_sealer.Miner.Query.Shown.{wanted_any, IsShown, HandedOut-IsShown}

-- No two rows share an id, as `AUTO_INCREMENT` keys do.
abbrev pub UniqueIds : List DbTaskInfo → Type 0
UniqueIds rows = (x y : DbTaskInfo) → Member x rows → Member y rows → x.id ≡ y.id → x ≡ y

SameTables-HandedOut :
    (env : Env) (req : RequestInfo) (db d db' : Db) (r : DbTaskInfo)
    → SameTables db' d
    → HandedOut env req db r d
    → HandedOut env req db r db'
SameTables-HandedOut env req db d db' r s h = record {
  was_there = h.was_there;
  was_wanted = h.was_wanted;
  infos_after = s.infos_same ∙ h.infos_after;
  logs_after = s.logs_same ∙ h.logs_after;
}

outcome-HandedOut :
    (env : Env) (req : RequestInfo) (db db' : Db) (r : DbTaskInfo) (o : Outcome DbTaskInfo × Db)
    → transaction env (query_task_body env req) db ≡ o
    → AlwaysCommits env
    → reply_of o ≡ (results (r ∷ []), db')
    → transaction env (query_task_body env req) db ≡ (committed r, db')
outcome-HandedOut env req db db' r (committed x, d) e c h = ground arith
outcome-HandedOut env req db db' r (uncommitted x f, d) e c h =
    absurd (ground (arith, c (query_task_body env req db).1.clock))
outcome-HandedOut env req db db' r (aborted f, d) e c h = cc

module _ (env : Env) (req : RequestInfo) (db db' : Db) where
  -- The same, as the two tables show it.
  pub query_task_by_tables :
      (r : DbTaskInfo)
      → AlwaysCommits env
      → query_task env req db ≡ (results (r ∷ []), db')
      → HandedOut env req db r db'
  unfolding query_task
  query_task_by_tables r commits h =
      let done = outcome-HandedOut env req db db' r _ refl commits h in
      let (ran, same) = transaction_committed env (query_task_body env req) db db' r done in
      SameTables-HandedOut env req db _ db' r same
        (query_task_body-HandedOut env req db r _ (λ i. (ran i, (query_task_body env req db).1)))

  -- If no commit fails and a request is answered by the task `r`: `r` was in the table, and in the
  -- state INIT, of the request's stage and actor and, for PC2 and Commit1, of its worker, when the
  -- request is for any sector, and of the request's actor and sector when it is for one; exactly the
  -- rows that equal it are now RUNING under the request's session and worker (its own worker, if the
  -- request names none), with nothing else changed but host and listener; and one log row says so.
  pub query_task-IsShown :
      (r : DbTaskInfo)
      → AlwaysCommits env
      → query_task env req db ≡ (results (r ∷ []), db')
      → IsShown env req db r db'
  query_task-IsShown r commits h =
      HandedOut-IsShown env req db db' r (query_task_by_tables r commits h)

  -- A request that is refused leaves every table as it was.
  pub query_task-refused :
      (e : DbError) → query_task env req db ≡ (refused e, db') → SameTables db' db
  unfolding query_task
  query_task-refused e h = ground (arith, transaction_atomic env (query_task_body env req) db)

  -- `tx.Commit()` is not checked: if every commit fails, a request that is answered by a task
  -- leaves every table as it was, so that the task is not assigned.
  pub query_task_lost_commit :
      (r : DbTaskInfo)
      → ((t : ℕ) → env.commit t ≢ none)
      → query_task env req db ≡ (results (r ∷ []), db')
      → SameTables db' db
  unfolding query_task
  query_task_lost_commit r lost h = ground (
    arith,
    transaction_atomic env (query_task_body env req) db,
    lost (query_task_body env req db).1.clock,
  )

-- A row that is RUNING after a hand-out did not stay by itself, or was so before.
handed_row :
    (req : RequestInfo) (w : String) (r x y : DbTaskInfo)
    → y ≡ (if same_row r x then assign req w x else x)
    → y.state ≡ init
    → (y ≡ x) × (same_row r x ≡ false)
unfolding assign
handed_row req w r x y e s = ground arith

module _ (env : Env) (req req' : RequestInfo) (db db' db'' : Db) (r r' : DbTaskInfo) where
  -- If no commit fails and the ids of the rows are distinct, two hand-outs in a row give two
  -- different tasks when the second asks for any sector.
  pub query_task_exclusive :
      AlwaysCommits env
      → UniqueIds db.task_infos
      → req'.sector_num ≡ any_sector
      → query_task env req db ≡ (results (r ∷ []), db')
      → query_task env req' db' ≡ (results (r' ∷ []), db'')
      → r'.id ≢ r.id
  query_task_exclusive commits unique a h h' same =
      let one = query_task_by_tables env req db db' r commits h in
      let two = query_task_by_tables env req' db' db'' r' commits h' in
      let idle = (wanted_any req' r' a two.was_wanted).0 in
      let (x, there, e) =
        Member-map_if (same_row r) (assign req (owner req r)) r' db.task_infos
          (rw one.infos_after at two.was_there) in
      let (stays, differs) = handed_row req (owner req r) r x r' e idle in
      let twin = unique r x one.was_there there (sym same ∙ ap (λ z. z.id) stays) in
      absurd (cc (same_row_refl r, differs, ap (same_row r) twin))
