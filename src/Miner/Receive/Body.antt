-- ===== src/Miner/Receive/Body.antt =====
-- What a delivery that was accepted has written in the task table.
use filecoin_sealer.Prelude.{
  suc, ◌≡◌, refl, sym, subst, ◌∙◌, Bool, true, false, ◌&&◌, and_true, List, [], ◌∷◌, Option, none,
  arith, map_if, Member,
}
use filecoin_sealer.Tables.{
  TaskType, pc1, precommit, DbTaskInfo, DbTaskLog, success, keyed_info, keyed_info_refl,
}
use filecoin_sealer.Database.{
  Db, ok, Env, Outcome, committed, uncommitted, aborted, transaction_committed, first_info,
  update_infos, update_logs, pure, ◌>>◌, >>=-eq-ok,
}
use filecoin_sealer.Miner.State.{Job, register_post}
use filecoin_sealer.Miner.Receive.Defs.{
  Delivery, awaits, awaits_log, fail_row, close_log, complete, receive_failure, receive_success,
  complete_stage, receive_by, receive_body, recieve_task_result, answer, first_or_init_log,
  without_bytes, marks, mark_log,
}

-- What a delivery does to each row that awaits it.
abbrev pub settle_by : Bool → Delivery → DbTaskInfo → DbTaskInfo
settle_by true d r = fail_row d r
settle_by false d r = complete d.task_type d r

abbrev pub settle : Delivery → DbTaskInfo → DbTaskInfo
settle d = settle_by d.is_err d

module _ (env : Env) (d : Delivery) (db : Db) where
  failure_statements :
      (jobs : List Job) (db' : Db)
      → receive_failure env d db ≡ (ok jobs, db')
      → env.infos.update db.clock (awaits d) (fail_row d) db.task_infos ≡ ok db'.task_infos
  unfolding receive_failure
  failure_statements jobs db' h = ground arith

  failure_infos :
      (jobs : List Job) (db' : Db)
      → receive_failure env d db ≡ (ok jobs, db')
      → db'.task_infos ≡ map_if (awaits d) (fail_row d) db.task_infos
  failure_infos jobs db' h = env.infos.update_sound _ _ _ _ _ (failure_statements jobs db' h)

-- No two rows await it.
abbrev pub IsAlone : Delivery → List DbTaskInfo → Type 0
IsAlone d xs =
    (x y : DbTaskInfo) → Member x xs → Member y xs → awaits d x ≡ true → awaits d y ≡ true → x ≡ y

-- A delivery settles rows that await it, and no other; all of them, except perhaps by the success of a
-- PRECOMMIT that two rows await.
pub record Settles (f : DbTaskInfo → DbTaskInfo) (d : Delivery) (xs ys : List DbTaskInfo)
    : Type 0 where
  pub hit : DbTaskInfo → Bool
  pub only : (x : DbTaskInfo) → hit x ≡ true → awaits d x ≡ true
  pub settled : ys ≡ map_if hit f xs
  pub whole :
      (d.task_type ≡ precommit → d.is_err ≡ false → IsAlone d xs)
      → (x : DbTaskInfo) → Member x xs
      → awaits d x ≡ true
      → hit x ≡ true

all-Settles :
    (f : DbTaskInfo → DbTaskInfo) (d : Delivery) (xs ys : List DbTaskInfo)
    → ys ≡ map_if (awaits d) f xs
    → Settles f d xs ys
all-Settles f d xs ys e = record {
  hit = awaits d;
  only = λ x h. h;
  settled = e;
  whole = λ _ x _ h. h;
}

stage_infos :
    (env : Env) (t : TaskType) (d : Delivery) (jobs : List Job) (db db' : Db)
    → d.is_err ≡ false
    → d.task_type ≡ t
    → complete_stage env t d db ≡ (ok jobs, db')
    → Settles (complete t d) d db.task_infos db'.task_infos
stage_infos env precommit d jobs db db' fine e h =
    let (r, db₁, found, rest) =
      >>=-eq-ok (first_info env (awaits d))
        (λ r.
          update_infos env (λ x. awaits d x && keyed_info r x) (complete precommit d)
          >> pure (register_post d.actor_id d.sector_num r.worker_id ∷ []))
        jobs db db' h in
    let (there, fits) = env.infos.first_sound db.clock (awaits d) db.task_infos r (ground arith) in
    record {
      hit = λ x. awaits d x && keyed_info r x;
      only = λ x b. (and_true _ _ b).0;
      settled =
          env.infos.update_sound (suc db.clock) (λ x. awaits d x && keyed_info r x)
            (complete precommit d) db.task_infos db'.task_infos (ground arith);
      whole = λ alone x mx b. rw (b, alone e fine x r mx there b fits) (keyed_info_refl r);
    }
stage_infos env pc1 d jobs db db' fine e h =
    all-Settles (complete pc1 d) d db.task_infos db'.task_infos (
      env.infos.update_sound db.clock (awaits d) (complete pc1 d) db.task_infos db'.task_infos
        (ground arith))
stage_infos env t d jobs db db' fine e h =
    all-Settles (complete t d) d db.task_infos db'.task_infos (
      env.infos.update_sound db.clock (awaits d) (complete t d) db.task_infos db'.task_infos
        (ground arith))

module _ (env : Env) (p : DbTaskLog → Bool) (f : DbTaskLog → DbTaskLog) where
  init_log_infos :
      (r : Option DbTaskLog) (db db' : Db)
      → first_or_init_log env p db ≡ (ok r, db')
      → db'.task_infos ≡ db.task_infos
  init_log_infos r db db' h = ground arith

  update_logs_infos :
      (db db' : Db) → update_logs env p f db ≡ (ok tt, db') → db'.task_infos ≡ db.task_infos
  update_logs_infos db db' h = ground arith

module _ (env : Env) (d : Delivery) (jobs : List Job) (db db' : Db) where
  success_infos :
      d.is_err ≡ false
      → receive_success env d db ≡ (ok jobs, db')
      → Settles (complete d.task_type d) d db.task_infos db'.task_infos
  unfolding receive_success
  success_infos fine h =
      let (found, db₁, looked, rest) =
        >>=-eq-ok (first_or_init_log env (awaits_log d))
          (λ r. mark_log env d r >> complete_stage env d.task_type d) jobs db db' h in
      let (_, db₂, logged, stage) =
        >>=-eq-ok (mark_log env d found) (λ _. complete_stage env d.task_type d) jobs db₁ db'
          rest in
      subst (λ xs. Settles (complete d.task_type d) d xs db'.task_infos)
        (update_logs_infos env (marks env d found)
            (close_log success (env.marshal (without_bytes d.result))) db₁ db₂ logged
          ∙ init_log_infos env (awaits_log d) (λ r. r) found db db₁ looked)
        (stage_infos env d.task_type d jobs db₂ db' fine refl stage)

  body_infos :
      (b : Bool)
      → d.is_err ≡ b
      → receive_by env b d db ≡ (ok jobs, db')
      → Settles (settle_by b d) d db.task_infos db'.task_infos
  body_infos true e h =
      all-Settles (fail_row d) d db.task_infos db'.task_infos (failure_infos env d db jobs db' h)
  body_infos false e h = success_infos e h

  answer_committed :
      (o : Outcome (List Job) × Db)
      → answer env d o ≡ (none, jobs, db')
      → (early : List Job) × (o ≡ (committed early, db'))
  answer_committed (committed early, x) h = (early, cc)
  answer_committed (uncommitted early e, x) h = cc
  answer_committed (aborted e, x) h = cc

-- A delivery that is answered without an error settles rows that await it, and no other.
pub recieve_task_result-Settles :
    (env : Env) (d : Delivery) (jobs : List Job) (db db' : Db)
    → recieve_task_result env d db ≡ (none, jobs, db')
    → Settles (settle d) d db.task_infos db'.task_infos
unfolding recieve_task_result
recieve_task_result-Settles env d jobs db db' h =
    let (early, done) = answer_committed env d jobs db db' _ h in
    let (ran, same) = transaction_committed env (receive_body env d) db db' early done in
    subst (Settles (settle d) d db.task_infos) (sym same.infos_same) (
      body_infos env d early db (receive_body env d db).1 d.is_err refl
        (λ i. (ran i, (receive_body env d db).1)))
