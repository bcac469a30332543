-- ===== src/Tests/Tasks.antt =====
-- Tests of the other task methods and of the table of sectors to prove, and their properties at
-- concrete inputs.
use filecoin_sealer.Prelude.{◌≡◌, refl, true, false, [], ◌∷◌, pos, none, arith, Member, inl}
use filecoin_sealer.Tables.{pc1, pc2, seed, commit, init, runing, success, retry, DbTaskInfo}
use filecoin_sealer.Database.{Db, memory_env, ok}
use filecoin_sealer.Miner.{check_session}
use filecoin_sealer.Miner.Query.{query_only}
use filecoin_sealer.Miner.Tasks.{
  reset_loop, update_task, runs_in_miner, reset_aborted_session, moved_to, update_task_log,
  of_request, query_last_result, of_result,
}
use filecoin_sealer.Miner.Tasks.Reset.{UniqueSectors}
use filecoin_sealer.Miner.Post.{update_post_info_row, register_post_info, registered, query_to_post}
use filecoin_sealer.Miner.Post.Effect.{Posted, update_post_info_row-Posted}
use filecoin_sealer.Worker.Process.{check_channel}
use filecoin_sealer.Worker.Start.{Wire, Worker}
use filecoin_sealer.Worker.Reset.{runs_here, query_only_by, update_task_info, reset_aborted}
use filecoin_sealer.Tests.Query.{memory-Healthy}
use filecoin_sealer.Miner.Tasks.Cleared.{reset_aborted_session-Member}
use filecoin_sealer.Tests.Data.{evaluated, task, tables}

-- Unfolding this unfolds the methods tested here, and with `evaluated` the rest of the miner.
ready : Unit {0}
unfolding check_session query_only reset_loop update_task runs_in_miner reset_aborted_session
    update_post_info_row register_post_info query_to_post check_channel runs_here query_only_by
    update_task_info reset_aborted update_task_log of_request query_last_result of_result
ready = tt

-- A SEED whose session is alive, and one whose session is gone.
abbrev waiting : DbTaskInfo
waiting = task 1 5 seed runing "" "s1"

abbrev gone : DbTaskInfo
gone = task 2 6 seed runing "" "s2"

abbrev given : Db
given = tables (waiting ∷ gone ∷ [])

-- Both rows are reset, whether their session is alive or not.
reset_rows :
    (reset_aborted_session memory_env ("s1" ∷ []) (pos 1000) given).1.task_infos
    ≡ moved_to seed init waiting ∷ moved_to seed init gone ∷ []
unfolding evaluated ready
reset_rows = refl

given-UniqueSectors : UniqueSectors given.task_infos
given-UniqueSectors x y mx my same = ground arith

reset_answer :
    (reset_aborted_session memory_env ("s1" ∷ []) (pos 1000) given).0 ≡ ok (waiting ∷ gone ∷ [])
unfolding evaluated ready
reset_answer = refl

no_blank : check_session "" ("s1" ∷ []) ≡ false
unfolding evaluated ready
no_blank = refl

waiting_runs : runs_in_miner (pos 1000) waiting ≡ true
unfolding evaluated ready
waiting_runs = refl

-- The session "s1" is alive.
reset_aborted_session-Member_example :
    Member
      (record waiting { state = init })
      (reset_aborted_session memory_env ("s1" ∷ []) (pos 1000) given).1.task_infos
reset_aborted_session-Member_example =
    reset_aborted_session-Member memory_env ("s1" ∷ []) (pos 1000) waiting (waiting ∷ gone ∷ [])
      given (memory-Healthy DbTaskInfo) reset_answer given-UniqueSectors no_blank (inl refl)
      waiting_runs

-- A worker that runs session "s1", and has lost a PC2 that had begun its tree.
abbrev worker : Worker
worker = record {
  worker_id = "w1";
  host_name = "";
  extr_listen = "";
  running = record {
    slots = record { task_limit = λ t. none; task_run = λ t. none; task_time_out = λ t. none };
    task_close_chnl = "s1" ∷ [];
  };
  connected = true;
}

abbrev fine : Wire
fine = record { reached = true; lost = none; reconnected = true }

abbrev sealing : DbTaskInfo
sealing = task 1 5 pc1 runing "w1" "s1"

abbrev crashed : DbTaskInfo
crashed = task 2 6 pc2 runing "w1" "s2"

abbrev held : Db
held = tables (sealing ∷ crashed ∷ [])

held-UniqueSectors : UniqueSectors held.task_infos
held-UniqueSectors x y mx my same = ground arith

worker_rows :
    (reset_aborted memory_env worker (λ r. true) (λ r. fine) fine held).1.task_infos
    ≡ sealing ∷ moved_to pc1 retry crashed ∷ []
unfolding evaluated ready
worker_rows = refl

-- A sector that is registered, committed to deadline 3, and then entered for proving.
abbrev proving_task : DbTaskInfo
proving_task = record (task 1 5 commit init "w1" "s1") { deadline_inx = 3; partition_inx = 1 }

abbrev registered_db : Db
registered_db = register_post_info memory_env (pos 1000) (pos 5) "w1" (tables (proving_task ∷ []))

not_yet : (query_to_post memory_env (λ s n. true) (pos 1000) "5" registered_db).0 ≡ ok []
unfolding evaluated ready
not_yet = refl

entered :
    (update_post_info_row memory_env (pos 1000) (pos 5) registered_db).post_infos
    ≡ record (registered (pos 1000) (pos 5) "w1") {
      cache_dir_path = "/cache";
      sealed_sector_path = "/sealed";
      proof_type = pos 7;
      state = success;
    }
      ∷ []
unfolding evaluated ready
entered = refl

update_post_info_row-Posted_example :
    Posted memory_env
      (pos 1000)
      (pos 5)
      registered_db.post_infos
      (update_post_info_row memory_env (pos 1000) (pos 5) registered_db).post_infos
update_post_info_row-Posted_example =
    update_post_info_row-Posted memory_env (pos 1000) (pos 5) registered_db
