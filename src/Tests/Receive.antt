-- ===== src/Tests/Receive.antt =====
-- Tests of the deliveries, and their properties at the small installation.
use filecoin_sealer.Prelude.{
  ◌≡◌, refl, ◌≢◌, true, false, Bool, String, List, [], ◌∷◌, pos, none, some, arith, Member,
  Pointwise, Option,
}
use filecoin_sealer.Tables.{TaskType, pc1, pc2, precommit, commit, init, runing, DbTaskInfo}
use filecoin_sealer.Database.{Db, DbError, failed, Env, memory_env}
use text.Mathlib.TextEquality.{eq_iff}
use filecoin_sealer.Miner.{Job, results}
use filecoin_sealer.Miner.Query.{query_task, assign}
use filecoin_sealer.Miner.Receive.{Delivery, recieve_task_result}
use filecoin_sealer.Miner.Receive.Advance.{Moved, recieve_task_result-Moved}
use filecoin_sealer.Miner.Receive.{IsAlone}
use filecoin_sealer.Miner.Receive.Stale.{recieve_task_result_twice, late_result_ignored}
use filecoin_sealer.Miner.Query.Handout.{query_task_by_tables}
use filecoin_sealer.Tests.Data.{evaluated, task, fresh, tables, start, request, any, nothing}

abbrev delivery : TaskType → String → Bool → Delivery
delivery t session bad = record {
  actor_id = pos 1000;
  sector_num = pos 5;
  task_type = t;
  req_id = session;
  is_err = bad;
  result = nothing;
}

abbrev given : Db
given = tables (task 1 5 pc1 runing "w1" "s1" ∷ [])

abbrev done : Option DbError × List Job × Db
done = recieve_task_result memory_env (delivery pc1 "s1" false) given

abbrev again : Option DbError × List Job × Db
again = recieve_task_result memory_env (delivery pc1 "s1" true) done.2

accepted : recieve_task_result memory_env (delivery pc1 "s1" false) given ≡ (none, [], done.2)
unfolding evaluated
accepted = refl

-- PC1 leaves its output and moves on to PC2.
moved_on : done.2.task_infos ≡ record (task 1 5 pc2 init "w1" "s1") { phase1_output = 7 ∷ [] } ∷ []
unfolding evaluated
moved_on = refl

accepted_again :
    recieve_task_result memory_env (delivery pc1 "s1" true) done.2 ≡ (none, again.1, again.2)
unfolding evaluated
accepted_again = refl

named : ◌≢◌ {A = String} "s1" ""
named = ground (arith, eq_iff "s1" "")

late : ◌≢◌ {A = String} "s1" "s2"
late = ground (arith, eq_iff "s1" "s2")

recieve_task_result-Moved_example :
    Pointwise (Moved (delivery pc1 "s1" false)) given.task_infos done.2.task_infos
recieve_task_result-Moved_example =
    recieve_task_result-Moved memory_env (delivery pc1 "s1" false) [] given done.2 refl named
      accepted

abbrev before : DbTaskInfo
before = task 1 5 pc1 runing "w1" "s1"

abbrev behind : DbTaskInfo
behind = task 1 5 pc2 init "w1" "s1"

abbrev committing : Db
committing = tables (task 1 5 commit runing "w1" "s1" ∷ [])

abbrev spoiled : Option DbError × List Job × Db
spoiled = recieve_task_result memory_env (delivery commit "s1" true) committing

spoiled_accepted :
    recieve_task_result memory_env (delivery commit "s1" true) committing
    ≡ (none, spoiled.1, spoiled.2)
unfolding evaluated
spoiled_accepted = refl

abbrev lossy : Env
lossy = record memory_env { commit = λ t. some (failed "lost") }

abbrev lost : Option DbError × List Job × Db
lost = recieve_task_result lossy (delivery pc1 "s1" false) given

lost_answer :
    recieve_task_result lossy (delivery pc1 "s1" false) given ≡ (some (failed "lost"), [], lost.2)
unfolding evaluated
lost_answer = refl

-- A PRECOMMIT that succeeds, and is reported twice.
abbrev before_commit : Db
before_commit =
    tables (task 1 5 precommit runing "w1" "s1" ∷ task 2 6 precommit runing "w1" "s1" ∷ [])

abbrev committed_once : Option DbError × List Job × Db
committed_once = recieve_task_result memory_env (delivery precommit "s1" false) before_commit

abbrev committed_twice : Option DbError × List Job × Db
committed_twice = recieve_task_result memory_env (delivery precommit "s1" true) committed_once.2

accepted_commit :
    recieve_task_result memory_env (delivery precommit "s1" false) before_commit
    ≡ (none, committed_once.1, committed_once.2)
unfolding evaluated
accepted_commit = refl

accepted_commit_again :
    recieve_task_result memory_env (delivery precommit "s1" true) committed_once.2
    ≡ (none, committed_twice.1, committed_twice.2)
unfolding evaluated
accepted_commit_again = refl

before_commit-IsAlone : IsAlone (delivery precommit "s1" false) before_commit.task_infos
unfolding evaluated
before_commit-IsAlone x y mx my hx hy = ground (arith, mx, my)

recieve_task_result_twice_example : committed_twice.2.task_infos ≡ committed_once.2.task_infos
recieve_task_result_twice_example =
    recieve_task_result_twice memory_env (delivery precommit "s1" false)
      (delivery precommit "s1" true) committed_once.1 committed_twice.1 before_commit
      committed_once.2 committed_twice.2
      (record { actor_same = refl; sector_same = refl; type_same = refl; session_same = refl })
      (λ _ _. before_commit-IsAlone) accepted_commit accepted_commit_again

-- The first task, handed out to session s2; then session s1 reports.
abbrev lent : Db
lent = (query_task memory_env (request pc1 any "w2" "s2") start).1

abbrev reported : Option DbError × List Job × Db
reported = recieve_task_result memory_env (delivery pc1 "s1" false) lent

late_result :
    recieve_task_result memory_env (delivery pc1 "s1" false) lent ≡ (none, reported.1, reported.2)
unfolding evaluated
late_result = refl

lent_out : query_task memory_env (request pc1 any "w2" "s2") start ≡ (results (fresh ∷ []), lent)
unfolding evaluated
lent_out = refl

late_result_ignored_example :
    Member (assign (request pc1 any "w2" "s2") "w2" fresh) reported.2.task_infos
unfolding evaluated
late_result_ignored_example =
    late_result_ignored memory_env (request pc1 any "w2" "s2") (delivery pc1 "s1" false) reported.1
      fresh start lent reported.2
      (query_task_by_tables memory_env (request pc1 any "w2" "s2") start lent fresh (λ t. refl)
        lent_out)
      named late late_result
