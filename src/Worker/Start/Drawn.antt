-- ===== src/Worker/Start/Drawn.antt =====
-- A start and the miner's table: what a stage that was started has drawn, and what is left behind
-- when the miner's answer is lost.
use filecoin_sealer.Prelude.{
  ◌≡◌, refl, ap, ◌∙◌, subst, String, List, [], ◌∷◌, Option, none, some, ℤ, arith, true, Bool, false,
}
use filecoin_sealer.Tables.{TaskType, DbTaskInfo, RequestInfo}
use filecoin_sealer.Database.{
  Db, Env, AlwaysCommits, Outcome, committed, uncommitted, aborted, transaction,
}
use filecoin_sealer.Miner.{Reply, results}
use filecoin_sealer.Miner.Query.{query_task, reply_of, query_task_body}
use filecoin_sealer.Miner.Query.{HandedOut}
use filecoin_sealer.Miner.Query.Handout.{query_task_by_tables}
use filecoin_sealer.Miner.Query.Shown.{IsShown, HandedOut-IsShown}
use filecoin_sealer.Worker.Slots.{Slots, Ended, returned, panicked, increment_task, decrement_task}
use filecoin_sealer.Worker.Slots.Balance.{
  IsBounded, increment_task-IsBounded, IsTaken, increment_task-IsTaken,
}
use filecoin_sealer.Worker.Start.Defs.{
  Wire, Worker, Asked, answered, unanswered, no_result, Launch, seal_here, Start, started, declined,
  start_panicked, Starting, give_back, after_slot, with_slot, query_task_by, query_if, called,
  first_of, go_on, seal_task, ask, set_slots, no_task, slot_back, Refusal, conn_miner,
}

give_back_started :
    (t : TaskType) (x y : Start × Worker × Db) (jobs : List Launch)
    → y.0 ≡ started jobs
    → give_back t x ≡ y
    → x ≡ y
give_back_started t (started js, w, db) y jobs s h = h
give_back_started t (declined r js, w, db) y jobs s h = absurd (ground arith)
give_back_started t (start_panicked, w, db) y jobs s h = h

after_slot_started :
    (t : TaskType) (e : Ended) (s : Slots) (k : Starting) (w w' : Worker) (db db' : Db)
    (jobs : List Launch)
    → after_slot t (e, s) k w db ≡ (started jobs, w', db')
    → k (set_slots s w) db ≡ (started jobs, w', db')
after_slot_started t (returned none) s k w w' db db' jobs h =
    give_back_started t (k (set_slots s w) db) (started jobs, w', db') jobs refl h
after_slot_started t (returned (some e)) s k w w' db db' jobs h = cc
after_slot_started t panicked s k w w' db db' jobs h = cc

go_on_started :
    (x : Asked × Worker × Db) (k : DbTaskInfo → Starting) (w' : Worker) (db' : Db)
    (jobs : List Launch)
    → go_on x k ≡ (started jobs, w', db')
    → (r : DbTaskInfo) × (x ≡ (answered r, x.1, x.2)) × (k r x.1 x.2 ≡ (started jobs, w', db'))
go_on_started (answered r, w, db) k w' db' jobs h = (r, refl, h)
go_on_started (unanswered e, w, db) k w' db' jobs h = cc
go_on_started (no_result, w, db) k w' db' jobs h = cc

first_of-reply_of :
    (x : Outcome DbTaskInfo × Db) (r : DbTaskInfo)
    → first_of (reply_of x).0 ≡ answered r
    → reply_of x ≡ (results (r ∷ []), (reply_of x).1)
first_of-reply_of (committed q, db) r h = ground arith
first_of-reply_of (uncommitted q e, db) r h = ground arith
first_of-reply_of (aborted e, db) r h = cc

called_answered :
    (l : Option String) (wire : Wire) (reply : Reply × Db) (w w' : Worker) (db db' : Db)
    (r : DbTaskInfo)
    → called l wire reply w db ≡ (answered r, w', db')
    → (first_of reply.0 ≡ answered r) × (reply.1 ≡ db') × (w ≡ w')
called_answered none wire (reply, d) w w' db db' r h = ground arith
called_answered (some e) wire (reply, d) w w' db db' r h = cc

query_if_answered :
    (env : Env) (b : Bool) (wire : Wire) (req : RequestInfo) (w w' : Worker) (db db' : Db)
    (r : DbTaskInfo)
    → query_if env b wire req w db ≡ (answered r, w', db')
    → (first_of (query_task env req db).0 ≡ answered r)
      × ((query_task env req db).1 ≡ db')
      × (w ≡ w')
query_if_answered env true wire req w w' db db' r h =
    called_answered wire.lost wire (query_task env req db) w w' db db' r h
query_if_answered env false wire req w w' db db' r h = cc

query_task_by_answered :
    (env : Env) (wire : Wire) (req : RequestInfo) (w w' : Worker) (db db' : Db) (r : DbTaskInfo)
    → query_task_by env wire req w db ≡ (answered r, w', db')
    → (query_task env req db ≡ (results (r ∷ []), db')) × (w ≡ w')
unfolding query_task_by query_task
query_task_by_answered env wire req w w' db db' r h =
    let (first, last, same) = query_if_answered env w.connected wire req w w' db db' r h in
    (
      first_of-reply_of (transaction env (query_task_body env req) db) r first
          ∙ ap (λ d. (results (r ∷ []), d)) last,
      same,
    )

slot_granted :
    (t : TaskType) (x y : Ended × Slots) (k : Starting) (w w' : Worker) (db db' : Db)
    (jobs : List Launch)
    → x ≡ y
    → after_slot t y k w db ≡ (started jobs, w', db')
    → x.0 ≡ returned none
slot_granted t x (returned none, s) k w w' db db' jobs e h = ap (λ z. z.0) e
slot_granted t x (returned (some r), s) k w w' db db' jobs e h = cc
slot_granted t x (panicked, s) k w w' db db' jobs e h = cc

-- If no commit fails, a stage that was started in the worker's own process has drawn one task, as
-- the miner's table shows it, and runs that very task under the same session. When the stage has a
-- limit, its counter was below it and is now one higher; when it has none (-1), its counter is as it
-- was.
pub seal_task-IsShown :
    (env : Env) (t : TaskType) (wire : Wire) (actor sector : ℤ) (session : String)
    (jobs : List Launch) (w w' : Worker) (db db' : Db)
    → AlwaysCommits env
    → seal_task env t wire actor sector session w db ≡ (started jobs, w', db')
    → (r : DbTaskInfo) × (jobs ≡ seal_here t r session ∷ [])
      × IsShown env (ask w t actor sector session) db r db'
      × IsTaken t w.running.slots w'.running.slots
unfolding seal_task with_slot
seal_task-IsShown env t wire actor sector session jobs w w' db db' fine h =
    let x = increment_task t w.running.slots in
    let v = set_slots x.1 w in
    let k = λ (u : Worker) (d : Db).
      go_on (query_task_by env wire (ask u t actor sector session) u d)
        (λ q v' d'. (started (seal_here t q session ∷ []), v', d')) in
    let asked = query_task_by env wire (ask w t actor sector session) v db in
    let (r, found, ran) =
      go_on_started asked (λ q v' d'. (started (seal_here t q session ∷ []), v', d')) w' db' jobs
        (after_slot_started t x.0 x.1 k w w' db db' jobs h) in
    let (drawn, same) =
      query_task_by_answered env wire (ask w t actor sector session) v asked.1 db asked.2 r found in
    (
      r,
      ground (arith, ran),
      HandedOut-IsShown env (ask w t actor sector session) db db' r (
          query_task_by_tables env (ask w t actor sector session) db db' r fine
            (drawn ∙ ap (λ z. (results (r ∷ []), z.2)) ran)),
      subst (IsTaken t w.running.slots)
          (ap (λ z. z.running.slots) same ∙ ap (λ z. z.1.running.slots) ran)
          (increment_task-IsTaken t w.running.slots (slot_granted t x x k w w' db db' jobs refl h)),
    )

declined_slot :
    (t : TaskType) (r : Refusal) (w : Worker) (db : Db) (n : Option ℤ) (m : ℤ)
    → n ≡ some m
    → slot_back t r [] w db n
      ≡ (declined r [], set_slots (decrement_task t w.running.slots).1 w, db)
declined_slot t r w db none m h = cc
declined_slot t r w db (some n) m h = refl

after_slot_taken :
    (t : TaskType) (e : Ended) (s : Slots) (k : Starting) (w : Worker) (db : Db)
    → e ≡ returned none
    → after_slot t (e, s) k w db ≡ give_back t (k (set_slots s w) db)
after_slot_taken t (returned none) s k w db h = refl
after_slot_taken t (returned (some e)) s k w db h = cc
after_slot_taken t panicked s k w db h = cc

query_task_by_lost :
    (env : Env) (wire : Wire) (req : RequestInfo) (text : String) (r : DbTaskInfo) (w : Worker)
    (db db' : Db)
    → w.connected ≡ true
    → wire.reached ≡ true
    → wire.lost ≡ some text
    → query_task env req db ≡ (results (r ∷ []), db')
    → query_task_by env wire req w db ≡ (unanswered text, conn_miner wire w, db')
unfolding query_task_by
query_task_by_lost env wire req text r w db db' alive reached lost drawn = ground arith

-- If the connection breaks after the miner has handed a task out, and no commit fails, the start
-- is declined and gives its slot back, and yet the miner's table shows the task as handed out to
-- this worker.
pub lost_answer_strands :
    (env : Env) (t : TaskType) (wire : Wire) (actor sector : ℤ) (session text : String)
    (r : DbTaskInfo) (w : Worker) (db db' : Db)
    → AlwaysCommits env
    → IsBounded t w.running.slots
    → w.connected ≡ true
    → wire.reached ≡ true
    → wire.lost ≡ some text
    → (increment_task t w.running.slots).0 ≡ returned none
    → query_task env (ask w t actor sector session) db ≡ (results (r ∷ []), db')
    → (w' : Worker) × (seal_task env t wire actor sector session w db
        ≡ (declined (no_task text) [], w', db'))
      × HandedOut env (ask w t actor sector session) db r db'
unfolding seal_task with_slot query_task_by
lost_answer_strands env t wire actor sector session text r w db db' fine b alive reached lost took
      drawn =
    let s = (increment_task t w.running.slots).1 in
    let v = set_slots s w in
    let k = λ (x : Asked × Worker × Db).
      go_on x (λ q v' d'. (started (seal_here t q session ∷ []), v', d')) in
    (
      set_slots (decrement_task t s).1 (conn_miner wire v),
      after_slot_taken t (increment_task t w.running.slots).0 s
            (λ u d. k (query_task_by env wire (ask u t actor sector session) u d)) w db took
          ∙ ap (λ x. give_back t (k x))
              (query_task_by_lost env wire (ask w t actor sector session) text r v db db' alive
                reached lost drawn)
          ∙ declined_slot t (no_task text) (conn_miner wire v) db' (s.task_run t)
              (increment_task-IsBounded t w.running.slots b).count
              (increment_task-IsBounded t w.running.slots b).has_count,
      query_task_by_tables env (ask w t actor sector session) db db' r fine drawn,
    )
