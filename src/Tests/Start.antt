-- ===== src/Tests/Start.antt =====
-- Tests of the starting of tasks, and its properties at concrete inputs.
use filecoin_sealer.Prelude.{
  ◌≢◌, ◌≡◌, refl, inr, true, [], ◌∷◌, ℤ, pos, none, some, arith, ◌+ℤ◌, ◌-ℤ◌,
}
use filecoin_sealer.Tables.{pc1, DbTaskInfo}
use filecoin_sealer.Database.{Db, AlwaysCommits}
use filecoin_sealer.Database.{memory_env}
use filecoin_sealer.Miner.{results}
use filecoin_sealer.Miner.Query.{query_task}
use filecoin_sealer.Worker.Slots.{Slots, put, returned, increment_task, decrement_task}
use filecoin_sealer.Worker.Slots.Balance.{IsBounded}
use filecoin_sealer.Worker.Process.{
  Running, released, wait_process, handle_proccess, delete_channel,
}
use filecoin_sealer.Worker.Process.Local.{done, fault, open_channel, commit1_output}
use filecoin_sealer.Worker.Report.{Link, rounds, defer_miner_recieve}
use filecoin_sealer.Worker.Start.{
  Wire, Worker, seal_here, seal_in_child, Start, started, declined, no_child, ask, with_slot,
  query_task_by, seal_task, process_task, retry_task_here, retry_task_pid,
}
use filecoin_sealer.Worker.Start.Child.{wait_child, ChildCalls, child_phase1, run_stage, task_run}
use filecoin_sealer.Worker.Start.Stages.{start_pre_commit_phase2, process_pre_phase1}
use filecoin_sealer.Worker.Start.{start_panicked}
use filecoin_sealer.Worker.Start.Balance.{process_task_declined}
use filecoin_sealer.Miner.Query.Shown.{IsShown}
use filecoin_sealer.Worker.Slots.Balance.{IsTaken}
use filecoin_sealer.Worker.Start.Drawn.{seal_task-IsShown}
use filecoin_sealer.Worker.Start.Honest.{IsSealed, task_run-IsSealed}
use filecoin_sealer.Tests.Data.{evaluated, fresh, start, any}

-- Unfolding this unfolds the starting of tasks, and with `evaluated` the miner.
ready : Unit {0}
unfolding increment_task decrement_task wait_process handle_proccess delete_channel commit1_output
    rounds defer_miner_recieve with_slot query_task_by seal_task process_task retry_task_here
    retry_task_pid wait_child child_phase1 run_stage task_run ◌+ℤ◌ ◌-ℤ◌
ready = tt

abbrev slots : ℤ → Slots
slots count = record {
  task_limit = put pc1 (pos 2) (λ t. none);
  task_run = put pc1 count (λ t. none);
  task_time_out = put pc1 (pos 100) (λ t. none);
}

abbrev worker : Worker
worker = record {
  worker_id = "w1";
  host_name = "h1";
  extr_listen = "127.0.0.1:3456";
  running = record { slots = slots (pos 1); task_close_chnl = "s0" ∷ [] };
  connected = true;
}

abbrev fine : Wire
fine = record { reached = true; lost = none; reconnected = true }

abbrev broken : Wire
broken = record { reached = true; lost = some "websocket closed"; reconnected = true }

bounded : IsBounded pc1 worker.running.slots
unfolding evaluated ready
bounded = record {
  limit = pos 2;
  count = pos 1;
  has_limit = refl;
  has_count = refl;
  not_below = omega arith;
  not_above = inr (omega arith);
}

commits : AlwaysCommits memory_env
commits t = refl

-- A PC1 of any sector.
abbrev sealing : Start × Worker × Db
sealing = seal_task memory_env pc1 fine (pos 1000) any "s9" worker start

sealing_started : sealing.0 ≡ started (seal_here pc1 fresh "s9" ∷ [])
unfolding evaluated ready
sealing_started = refl

sealing_counted : sealing.1.running.slots.task_run pc1 ≡ some (pos 2)
unfolding evaluated ready
sealing_counted = refl

sealing_all : sealing ≡ (started (seal_here pc1 fresh "s9" ∷ []), sealing.1, sealing.2)
unfolding evaluated ready
sealing_all = refl

seal_task-IsShown_example :
    (r : DbTaskInfo) × ((seal_here pc1 fresh "s9" ∷ []) ≡ seal_here pc1 r "s9" ∷ [])
    × IsShown memory_env (ask worker pc1 (pos 1000) any "s9") start r sealing.2
    × IsTaken pc1 worker.running.slots sealing.1.running.slots
seal_task-IsShown_example =
    seal_task-IsShown memory_env pc1 fine (pos 1000) any "s9" (seal_here pc1 fresh "s9" ∷ []) worker
      sealing.1 start sealing.2 commits sealing_all

took : (increment_task pc1 worker.running.slots).0 ≡ returned none
unfolding evaluated ready
took = refl

abbrev drawn_db : Db
drawn_db = (query_task memory_env (ask worker pc1 (pos 1000) any "s9") start).1

drawn :
    query_task memory_env (ask worker pc1 (pos 1000) any "s9") start
    ≡ (results (fresh ∷ []), drawn_db)
unfolding evaluated ready
drawn = refl

-- The child does not start.
abbrev childless : Start × Worker × Db
childless =
    process_task memory_env pc1 fine (fault "wait child pid time out") (pos 1000) any "s9" worker
      start

childless_declined :
    childless ≡ (declined (no_child fresh "wait child pid time out") [], childless.1, childless.2)
unfolding evaluated ready
childless_declined = refl

process_task_declined_example :
    childless.1.running.slots.task_run pc1 ≡ worker.running.slots.task_run pc1
process_task_declined_example =
    process_task_declined memory_env pc1 pc1 fine (pos 1000) any "s9"
      (no_child fresh "wait child pid time out") [] worker childless.1 start childless.2 bounded
      (fault "wait child pid time out") childless_declined

-- A retry of a running PC1, while another is counted.
abbrev retried : Start × Worker × Db
retried = retry_task_pid memory_env pc1 fine (pos 1000) (pos 5) "s9" worker start

retried_started : retried ≡ (started (seal_in_child pc1 fresh "s9" ∷ []), retried.1, retried.2)
unfolding evaluated ready
retried_started = refl

abbrev over : Running
over = released pc1 "s9" (open_channel "s9" retried.1.running)

exited : wait_child fresh "s9" [] (open_channel "s9" retried.1.running) ≡ some (none, over)
unfolding evaluated ready
exited = refl

abbrev child : ChildCalls
child = record {
  phase1 = record {
    ram_in_bytes = done tt;
    ticket_hex = "";
    get_ticket = done tt;
    decode_ticket = fault "odd length";
    piece_info = done tt;
    seal = done (1 ∷ 2 ∷ []);
  };
  phase2 = record { sealed_cid = "b1"; unsealed_cid = "b2"; failure = none };
  commit1 = record {
    ram_in_bytes = done tt;
    parse_comm_r = fault "bad cid";
    parse_comm_d = done tt;
    decode_ticket = done tt;
    decode_seed = done tt;
    piece_info = done tt;
    seal = done [];
  };
  commit2 = done (3 ∷ []);
  panic = none;
}

abbrev link : Link
link = record { receive = λ i. none; check_server = λ i. some true; dial = λ i. none }

ran_fine : (task_run link fresh child).handed.process_err ≡ none
unfolding evaluated ready
ran_fine = refl

ran_out : (task_run link fresh child).handed.result.comm_bytes ≡ 1 ∷ 2 ∷ []
unfolding evaluated ready
ran_out = refl

no_panic : child.panic ≢ some none
no_panic e = cc

task_run-IsSealed_example : IsSealed pc1 child (task_run link fresh child).handed.result
unfolding evaluated ready
task_run-IsSealed_example = task_run-IsSealed link fresh child refl no_panic ran_fine

-- PC2 has no slot here: its limit is not set, and its counter is nil.
no_counter :
    (start_pre_commit_phase2 memory_env fine (pos 1000) any "s9" worker start).0 ≡ start_panicked
unfolding evaluated ready
no_counter = refl

in_child :
    (process_pre_phase1 memory_env fine
      (pos 1000)
      any
      "s9"
      (done tt)
      worker
      start).1.running.task_close_chnl
    ≡ "s9" ∷ "s0" ∷ []
unfolding evaluated ready
in_child = refl
