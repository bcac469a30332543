-- ===== src/Worker/Start/Balance.antt =====
-- What a start does to the counters: one that ends in an error gives its slot back.
use filecoin_sealer.Prelude.{◌≡◌, refl, sym, ap, ◌∙◌, String, List, Option, none, some, ℤ, arith}
use filecoin_sealer.Tables.{TaskType, DbTaskInfo, RequestInfo}
use filecoin_sealer.Database.{Db, Env}
use filecoin_sealer.Worker.Slots.{Slots, Ended, returned, panicked, increment_task, decrement_task}
use filecoin_sealer.Worker.Slots.Balance.{IsBounded, increment-decrement}
use filecoin_sealer.Worker.Process.Local.{Call, done, fault}
use filecoin_sealer.Worker.Start.Defs.{
  Wire, Worker, Asked, answered, unanswered, no_result, Launch, Start, started, declined,
  start_panicked, Refusal, Starting, give_back, after_slot, with_slot, query_task_by, go_on,
  process_task, retry_task_here, retry_here, ask, set_slots, slot_back, child_started,
}

slot_back_declined :
    (t : TaskType) (r r' : Refusal) (jobs jobs' : List Launch) (w w' : Worker) (db db' : Db)
    (n : Option ℤ)
    → slot_back t r jobs w db n ≡ (declined r' jobs', w', db')
    → w'.running.slots ≡ (decrement_task t w.running.slots).1
slot_back_declined t r r' jobs jobs' w w' db db' none h = cc
slot_back_declined t r r' jobs jobs' w w' db db' (some n) h = sym (ap (λ x. x.1.running.slots) h)

give_back_declined :
    (t : TaskType) (x : Start × Worker × Db) (r : Refusal) (jobs : List Launch) (w' : Worker)
    (db' : Db)
    → give_back t x ≡ (declined r jobs, w', db')
    → w'.running.slots ≡ (decrement_task t x.1.running.slots).1
give_back_declined t (started js, w, db) r jobs w' db' h = cc
give_back_declined t (declined q js, w, db) r jobs w' db' h =
    slot_back_declined t q r js jobs w w' db db' (w.running.slots.task_run t) h
give_back_declined t (start_panicked, w, db) r jobs w' db' h = cc

-- The rest of a start does not touch the slots.
abbrev pub KeepsSlots : Starting → Type 0
KeepsSlots k = (v : Worker) (d : Db) → (k v d).1.running.slots ≡ v.running.slots

after_slot_declined :
    (t u : TaskType) (e : Ended) (s : Slots) (k : Starting) (r : Refusal) (jobs : List Launch)
    (w w' : Worker) (db db' : Db)
    → KeepsSlots k
    → (e ≡ returned none → (decrement_task t s).1.task_run u ≡ w.running.slots.task_run u)
    → after_slot t (e, s) k w db ≡ (declined r jobs, w', db')
    → w'.running.slots.task_run u ≡ w.running.slots.task_run u
after_slot_declined t u (returned none) s k r jobs w w' db db' keeps back h =
    ap (λ x. x.task_run u)
      (give_back_declined t (k (set_slots s w) db) r jobs w' db' h
        ∙ ap (λ x. (decrement_task t x).1) (keeps (set_slots s w) db))
    ∙ back refl
after_slot_declined t u (returned (some e)) s k r jobs w w' db db' keeps back h =
    sym (ap (λ x. x.1.running.slots.task_run u) h)
after_slot_declined t u panicked s k r jobs w w' db db' keeps back h = cc

with_slot_declined :
    (t u : TaskType) (k : Starting) (r : Refusal) (jobs : List Launch) (w w' : Worker) (db db' : Db)
    → IsBounded t w.running.slots
    → KeepsSlots k
    → with_slot t k w db ≡ (declined r jobs, w', db')
    → w'.running.slots.task_run u ≡ w.running.slots.task_run u
unfolding with_slot
with_slot_declined t u k r jobs w w' db db' b keeps h =
    after_slot_declined t u (increment_task t w.running.slots).0
      (increment_task t w.running.slots).1 k r jobs w w' db db' keeps
      (λ e. increment-decrement t u w.running.slots b e) h

pub go_on_keeps :
    (x : Asked × Worker × Db) (k : DbTaskInfo → Starting)
    → ((r : DbTaskInfo) → KeepsSlots (k r))
    → (go_on x k).1.running.slots ≡ x.1.running.slots
go_on_keeps (answered r, w, db) k keeps = keeps r w db
go_on_keeps (unanswered e, w, db) k keeps = refl
go_on_keeps (no_result, w, db) k keeps = refl

pub query_keeps :
    (env : Env) (wire : Wire) (req : RequestInfo) (w : Worker) (db : Db)
    → (query_task_by env wire req w db).1.running.slots ≡ w.running.slots
unfolding query_task_by
query_keeps env wire req w db = ground arith

child_started_keeps :
    (c : Call) (t : TaskType) (r : DbTaskInfo) (session : String)
    → KeepsSlots (child_started c t r session)
child_started_keeps (done a) t r session v d = refl
child_started_keeps (fault e) t r session v d = refl

retry_here_keeps :
    (t : TaskType) (session : String) (r : DbTaskInfo) → KeepsSlots (retry_here t session r)
retry_here_keeps t session r v d = ground arith

module _ (env : Env) (t u : TaskType) (wire : Wire) (actor sector : ℤ) (session : String)
    (r : Refusal) (jobs : List Launch) (w w' : Worker) (db db' : Db)
    (b : IsBounded t w.running.slots) where
  -- A stage that could not be started in a child process, for want of a slot, a task or a process,
  -- leaves the counter of every stage as it was, if its own was in its range.
  pub process_task_declined :
      (c : Call)
      → process_task env t wire c actor sector session w db ≡ (declined r jobs, w', db')
      → w'.running.slots.task_run u ≡ w.running.slots.task_run u
  unfolding process_task
  process_task_declined c h =
      with_slot_declined t u
        (λ v d.
          go_on (query_task_by env wire (ask v t actor sector session) v d)
            (λ x v' d'. child_started c t x session v' d'))
        r jobs w w' db db' b
        (λ v d.
          go_on_keeps (query_task_by env wire (ask v t actor sector session) v d)
            (λ x v' d'. child_started c t x session v' d') (λ x. child_started_keeps c t x session)
          ∙ query_keeps env wire (ask v t actor sector session) v d)
        h

  -- And so does a retry in the worker's own process, also for a stage that it does not run.
  pub retry_task_here_declined :
      retry_task_here env t wire actor sector session w db ≡ (declined r jobs, w', db')
      → w'.running.slots.task_run u ≡ w.running.slots.task_run u
  unfolding retry_task_here
  retry_task_here_declined h =
      with_slot_declined t u
        (λ v d.
          go_on (query_task_by env wire (ask v t actor sector session) v d) (retry_here t session))
        r jobs w w' db db' b
        (λ v d.
          go_on_keeps (query_task_by env wire (ask v t actor sector session) v d)
            (retry_here t session) (λ x. retry_here_keeps t session x)
          ∙ query_keeps env wire (ask v t actor sector session) v d)
        h
