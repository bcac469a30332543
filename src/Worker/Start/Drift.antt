-- ===== src/Worker/Start/Drift.antt =====
-- What the end of a task that RetryTaskPID started does to the counters, and what is left behind
-- when the answer of the miner is lost.
use filecoin_sealer.Prelude.{
  ◌≡◌, refl, sym, ap, ◌∙◌, String, List, [], ◌∷◌, ◌++◌, Option, none, some, ℤ, pos, arith, Bool,
  true, ◌-ℤ◌, ◌≢◌, All,
}
use filecoin_sealer.Tables.{TaskType, DbTaskInfo, task_eq_refl}
use filecoin_sealer.Database.{Db, Env}
use filecoin_sealer.Worker.Slots.{unlimited, decrement_task, or_zero}
use filecoin_sealer.Worker.Process.{
  Running, Signal, beat, finished, cancelled, Ending, handle_proccess, wait_process, released,
}
use filecoin_sealer.Worker.Process.Wait.{Idle}
use filecoin_sealer.Worker.Process.Local.{open_channel, Handover}
use filecoin_sealer.Worker.Start.Defs.{
  Wire, Worker, Launch, started, ask, retry_task_pid, retry_pid, query_task_by,
}
use filecoin_sealer.Worker.Start.Child.{wait_child, report_of}
use filecoin_sealer.Worker.Start.Balance.{go_on_keeps, query_keeps}

report_of-some :
    (x : Option (Ending × Running)) (y : Option Handover) (final : Running)
    → report_of x ≡ some (y, final)
    → (e : Ending) × (x ≡ some (e, final))
report_of-some none y final h = cc
report_of-some (some (e, w)) y final h = (e, ground arith)

wait_child_slots :
    (r : DbTaskInfo) (session : String) (before : List Signal) (w final : Running)
    (report : Option Handover)
    → wait_child r session before w ≡ some (report, final)
    → final.slots ≡ (decrement_task r.task_type w.slots).1
unfolding wait_child handle_proccess
wait_child_slots r session before w final report h =
    let (e, ended) = report_of-some _ report final h in ground arith

module _ (env : Env) (t : TaskType) (wire : Wire) (actor sector : ℤ) (session : String) where
  retry_task_pid_keeps :
      (w : Worker) (db : Db)
      → (retry_task_pid env t wire actor sector session w db).1.running.slots ≡ w.running.slots
  unfolding retry_task_pid
  retry_task_pid_keeps w db =
      go_on_keeps (query_task_by env wire (ask w t actor sector session) w db)
        (λ r w' db'. (retry_pid t session r, w', db')) (λ r v d. refl)
      ∙ query_keeps env wire (ask w t actor sector session) w db

  -- A task that RetryTaskPID started in a child process gives back a slot at its end that it did
  -- not take: if its stage is limited and n other tasks of it are counted, not zero, n - 1 are
  -- counted after it.
  pub retry_task_pid_drifts :
      (r : DbTaskInfo) (jobs : List Launch) (w w' : Worker) (db db' : Db) (before : List Signal)
      (final : Running) (report : Option Handover) (limit n : ℤ)
      → retry_task_pid env t wire actor sector session w db ≡ (started jobs, w', db')
      → wait_child r session before (open_channel session w'.running) ≡ some (report, final)
      → w.running.slots.task_limit r.task_type ≡ some limit
      → limit ≢ unlimited
      → w.running.slots.task_run r.task_type ≡ some n
      → n ≢ pos 0
      → final.slots.task_run r.task_type ≡ some (n -ℤ pos 1)
  unfolding decrement_task
  retry_task_pid_drifts r jobs w w' db db' before final report limit n start ended limited counted
        some_n nonzero =
      let kept : w'.running.slots ≡ w.running.slots =
        sym (ap (λ x. x.1.running.slots) start) ∙ retry_task_pid_keeps w db in
      let freed =
        wait_child_slots r session before (open_channel session w'.running) final report ended in
      ap (λ x. x.task_run r.task_type) (freed ∙ ap (λ x. (decrement_task r.task_type x).1) kept)
      ∙ ground (arith, task_eq_refl r.task_type)

wait-Idle :
    (cbflg : Bool) (duration : ℤ) (before ss : List Signal)
    → All (Idle cbflg duration) before
    → wait_process cbflg duration (before ++ ss) ≡ wait_process cbflg duration ss
unfolding wait_process
wait-Idle cbflg duration [] ss h = refl
wait-Idle cbflg duration (beat seconds ∷ before) ss h =
    ground (arith, wait-Idle cbflg duration before ss h.1)
wait-Idle cbflg duration (finished e ∷ before) ss h = absurd h.0
wait-Idle cbflg duration (cancelled ∷ before) ss h = absurd h.0

-- A child that exits before its time is over is not reported by the worker, whether it had
-- reported itself or crashed; its slot is given back and its channel forgotten.
pub wait_child_silent :
    (r : DbTaskInfo) (session : String) (before : List Signal) (w : Running)
    → All (Idle true (or_zero (w.slots.task_time_out r.task_type))) before
    → wait_child r session before w ≡ some (none, released r.task_type session w)
unfolding wait_child handle_proccess wait_process
wait_child_silent r session before w idle = ground (
  arith,
  wait-Idle true (or_zero (w.slots.task_time_out r.task_type)) before (finished none ∷ []) idle,
)
