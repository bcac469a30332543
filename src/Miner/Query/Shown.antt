-- ===== src/Miner/Query/Shown.antt =====
-- What the tables show of a hand-out, column by column.
use filecoin_sealer.Prelude.{
  suc, ◌≡◌, refl, ◌≢◌, true, false, [], ◌∷◌, ◌++◌, arith, Member, Pointwise, Pointwise-map_if,
  eq_ℤ_iff, str_eq_iff,
}
use filecoin_sealer.Tables.{RequestInfo, DbTaskInfo, DbTaskLog, same_row, init, runing, task_eq→eq}
use filecoin_sealer.Database.{Db, Env}
use filecoin_sealer.Miner.Query.Defs.{any_sector, is_local, wanted, assign, owner, running_log}
use filecoin_sealer.Miner.Query.Body.{HandedOut}

-- A row that is wanted by a request of any sector is in the state INIT, of the request's stage and
-- actor, and for PC2 and Commit1 it belongs to the request's worker.
pub wanted_any :
    (req : RequestInfo) (r : DbTaskInfo)
    → req.sector_num ≡ any_sector
    → wanted req r ≡ true
    → (r.state ≡ init)
      × (r.task_type ≡ req.task_type)
      × (r.actor_id ≡ req.actor_id)
      × (is_local req.task_type ≡ true → r.worker_id ≡ req.worker_id)
unfolding wanted
wanted_any req r a h = ground (
  arith,
  eq_ℤ_iff req.sector_num any_sector,
  eq_ℤ_iff r.state init,
  eq_ℤ_iff r.actor_id req.actor_id,
  task_eq→eq r.task_type req.task_type,
  str_eq_iff r.worker_id req.worker_id,
)

-- A row that is wanted by a request of one sector is of it.
wanted_one :
    (req : RequestInfo) (r : DbTaskInfo)
    → req.sector_num ≢ any_sector
    → wanted req r ≡ true
    → (r.actor_id ≡ req.actor_id) × (r.sector_num ≡ req.sector_num)
unfolding wanted
wanted_one req r a h = ground (
  arith,
  eq_ℤ_iff req.sector_num any_sector,
  eq_ℤ_iff r.actor_id req.actor_id,
  eq_ℤ_iff r.sector_num req.sector_num,
)

-- The row `y` is the row `x` as the request holds it: RUNING, under the request's session, host and
-- listener, and with the request's worker, or `r`'s own if the request names none. The rest is kept.
pub record IsAssigned (req : RequestInfo) (r x y : DbTaskInfo) : Type 0 where
  pub runs : y.state ≡ runing
  pub session : y.last_req_id ≡ req.session
  pub host : y.host_name ≡ req.host_name
  pub listener : y.worker_listen ≡ req.worker_listen
  pub worker : req.worker_id ≢ "" → y.worker_id ≡ req.worker_id
  pub own_worker : req.worker_id ≡ "" → y.worker_id ≡ r.worker_id
  pub rest :
      record y {
        state = x.state;
        last_req_id = x.last_req_id;
        host_name = x.host_name;
        worker_listen = x.worker_listen;
        worker_id = x.worker_id;
      }
      ≡ x

assign-IsAssigned :
    (req : RequestInfo) (r x : DbTaskInfo) → IsAssigned req r x (assign req (owner req r) x)
unfolding assign
assign-IsAssigned req r x = record {
  runs = refl;
  session = refl;
  host = refl;
  listener = refl;
  worker = λ named. ground (arith, str_eq_iff req.worker_id "");
  own_worker = λ blank. ground (arith, str_eq_iff req.worker_id "");
  rest = refl;
}

-- A row across a hand-out of `r`: assigned if it equals `r`, and else as it was.
abbrev pub Across : RequestInfo → DbTaskInfo → DbTaskInfo → DbTaskInfo → Type 0
Across req r x y = (same_row r x ≡ true → IsAssigned req r x y) × (same_row r x ≡ false → y ≡ x)

-- The log row that says who took what.
pub record IsLogged (req : RequestInfo) (r : DbTaskInfo) (l : DbTaskLog) : Type 0 where
  pub sector_of : l.sector_num ≡ r.sector_num
  pub actor_of : l.actor_id ≡ req.actor_id
  pub type_of : l.task_type ≡ req.task_type
  pub session_of : l.req_id ≡ req.session
  pub worker_of : l.worker_id ≡ req.worker_id
  pub runs : l.state ≡ runing

running_log-IsLogged :
    (req : RequestInfo) (r : DbTaskInfo)
    → IsLogged req r (running_log req r.sector_num req.worker_id)
running_log-IsLogged req r = record {
  sector_of = refl;
  actor_of = refl;
  type_of = refl;
  session_of = refl;
  worker_of = refl;
  runs = refl;
}

-- The hand-out of `r`: what was wanted of it, every row of the task table, and the new log row.
pub record IsShown (env : Env) (req : RequestInfo) (db : Db) (r : DbTaskInfo) (db' : Db)
    : Type 0 where
  pub was_there : Member r db.task_infos
  pub of_any :
      req.sector_num ≡ any_sector
      → (r.state ≡ init)
        × (r.task_type ≡ req.task_type)
        × (r.actor_id ≡ req.actor_id)
        × (is_local req.task_type ≡ true → r.worker_id ≡ req.worker_id)
  pub of_one :
      req.sector_num ≢ any_sector → (r.actor_id ≡ req.actor_id) × (r.sector_num ≡ req.sector_num)
  pub rows : Pointwise (Across req r) db.task_infos db'.task_infos
  pub log : DbTaskLog
  pub log_of : IsLogged req r log
  pub logs : db'.task_logs ≡ db.task_logs ++ env.logs.fill (suc (suc db.clock)) log ∷ []

pub HandedOut-IsShown :
    (env : Env) (req : RequestInfo) (db db' : Db) (r : DbTaskInfo)
    → HandedOut env req db r db'
    → IsShown env req db r db'
HandedOut-IsShown env req db db' r h = record {
  was_there = h.was_there;
  of_any = λ a. wanted_any req r a h.was_wanted;
  of_one = λ a. wanted_one req r a h.was_wanted;
  rows = rw h.infos_after (
      Pointwise-map_if (Across req r) (same_row r) (assign req (owner req r)) db.task_infos
        (λ x hit. (λ _. assign-IsAssigned req r x, λ miss. absurd (cc (hit, miss))))
        (λ x miss. (λ hit. absurd (cc (hit, miss)), λ _. refl)));
  log = running_log req r.sector_num req.worker_id;
  log_of = running_log-IsLogged req r;
  logs = h.logs_after;
}
