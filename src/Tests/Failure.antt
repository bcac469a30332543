-- ===== src/Tests/Failure.antt =====
-- Tests of the failure handling, and its properties at the small installation.
use filecoin_sealer.Prelude.{◌≡◌, refl, ◌≢◌, List, [], ◌∷◌, pos, none, arith, Pointwise, select}
use filecoin_sealer.Tables.{
  pc1, precommit, init, error, retry, success, DbTaskFailed, exec_retry, exec_next,
}
use filecoin_sealer.Database.{Db, memory, memory_env}
use filecoin_sealer.Miner.Failure.{
  leave, again, onward, decide, default_rules, rule, handle_failed_task, init_db_task_failed,
}
use filecoin_sealer.Miner.Failure.Rules.{by_first, applies, decide_lem, decide-UsedUp}
use filecoin_sealer.Miner.Failure.Handle.{Handled, handle_failed_task-Handled}
use filecoin_sealer.Miner.Failure.Defaults.{KeepsRules, same_rule_refl}
use filecoin_sealer.Tests.Data.{evaluated, task, tables, start}

-- A timeout of PC1 that is logged four times is retried; logged five times it is not.
abbrev timeouts : List DbTaskFailed
timeouts = rule pc1 "timeout" 5 exec_retry retry ∷ []

four : decide 4 "task run timeout" timeouts ≡ again retry
unfolding evaluated
four = refl

five : decide 5 "task run timeout" timeouts ≡ leave
unfolding evaluated
five = refl

allocated :
    decide 200 "already been allocated (RetCode=16)"
      (rule precommit "already been allocated (RetCode=16)" 99 exec_next success ∷ [])
    ≡ onward success
unfolding evaluated
allocated = refl

decide_lem_example :
    decide 4 "task run timeout" timeouts ≡ by_first (select (applies 4 "task run timeout") timeouts)
decide_lem_example = decide_lem 4 "task run timeout" timeouts

decide-UsedUp_example : decide 5 "task run timeout" timeouts ≢ again retry
decide-UsedUp_example = decide-UsedUp 5 "task run timeout" retry timeouts (omega arith, tt)

abbrev broken : Db
broken = record (tables (task 1 5 pc1 error "w1" "s1" ∷ task 2 6 pc1 init "" "" ∷ [])) {
  task_faileds = timeouts;
}

retried_row :
    (handle_failed_task memory_env (pos 1000) (pos 5) pc1 "task run timeout" broken).task_infos
    ≡ task 1 5 pc1 retry "w1" "s1" ∷ task 2 6 pc1 init "" "" ∷ []
unfolding evaluated
retried_row = refl

handle_failed_task-Handled_example :
    Pointwise
      (Handled (pos 1000) (pos 5) pc1)
      broken.task_infos
      (handle_failed_task memory_env (pos 1000) (pos 5) pc1 "task run timeout" broken).task_infos
handle_failed_task-Handled_example =
    handle_failed_task-Handled memory_env (pos 1000) (pos 5) pc1 "task run timeout" broken

abbrev installed : Db
installed = (init_db_task_failed memory_env start).1

installs : init_db_task_failed memory_env start ≡ (none, installed)
unfolding evaluated
installs = refl

installs_again :
    init_db_task_failed memory_env installed ≡ (none, (init_db_task_failed memory_env installed).1)
unfolding evaluated
installs_again = refl

eleven_rules : (init_db_task_failed memory_env installed).1.task_faileds ≡ default_rules
unfolding evaluated
eleven_rules = refl

memory-KeepsRules : KeepsRules (memory {Row = DbTaskFailed})
memory-KeepsRules t w = same_rule_refl w
