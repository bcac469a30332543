-- ===== src/Miner/Receive/Stale.antt =====
-- Results that come twice, or too late.
use filecoin_sealer.Prelude.{
  ◌≡◌, refl, sym, ap, ◌∙◌, inl, inr, Bool, true, false, if◌then◌else◌, List, [], ◌∷◌, none, arith,
  Member, map_if, map_if-none, map_if-hit, map_if-miss, select, Bool-cases, ◌≢◌,
}
use filecoin_sealer.Tables.{
  text_asks_named, text_asks, precommit, DbTaskInfo, RequestInfo, same_row, same_row_refl,
}
use filecoin_sealer.Database.{Db, Env}
use filecoin_sealer.Miner.State.{Job}
use filecoin_sealer.Miner.Query.{assign, owner, HandedOut}
use filecoin_sealer.Miner.Receive.Defs.{Delivery, awaits, complete, recieve_task_result}
use filecoin_sealer.Miner.Receive.Body.{
  settle, settle_by, IsAlone, Settles, recieve_task_result-Settles,
}

-- The same task, stage and session.
pub record SameTask (d d' : Delivery) : Type 0 where
  pub actor_same : d'.actor_id ≡ d.actor_id
  pub sector_same : d'.sector_num ≡ d.sector_num
  pub type_same : d'.task_type ≡ d.task_type
  pub session_same : d'.req_id ≡ d.req_id

settled_row : (b : Bool) (d d' : Delivery) (x : DbTaskInfo) → awaits d' (settle_by b d x) ≡ false
unfolding awaits complete
settled_row b d d' x = ground arith

same_awaits : (d d' : Delivery) (x : DbTaskInfo) → SameTask d d' → awaits d' x ≡ awaits d x
unfolding awaits
same_awaits d d' x s = rw (s.actor_same, s.sector_same, s.type_same, s.session_same)

module _ (hit : DbTaskInfo → Bool) (d d' : Delivery) (s : SameTask d d') where
  nobody_row :
      (x : DbTaskInfo)
      → (awaits d x ≡ true → hit x ≡ true)
      → awaits d' (if hit x then settle d x else x) ≡ false
  nobody_row x all = elim (Bool-cases (hit x)) [
    | inl e ↦ rw e (settled_row d.is_err d d' x)
    | inr e ↦ rw e (same_awaits d d' x s ∙ untouched x all e)
  ]
    where
      untouched :
          (y : DbTaskInfo) → (awaits d y ≡ true → hit y ≡ true) → hit y ≡ false → awaits d y ≡ false
      untouched y all e = elim (Bool-cases (awaits d y)) [
        | inl b ↦ absurd (cc (all b, e))
        | inr b ↦ b
      ]

  nobody_awaits :
      (xs : List DbTaskInfo)
      → ((x : DbTaskInfo) → Member x xs → awaits d x ≡ true → hit x ≡ true)
      → select (awaits d') (map_if hit (settle d) xs) ≡ []
  nobody_awaits [] all = refl
  nobody_awaits (x ∷ xs) all =
      rw (nobody_row x (all x (inl refl))) (nobody_awaits xs (λ y m. all y (inr m)))

nobody_hits :
    (p q : DbTaskInfo → Bool) (xs : List DbTaskInfo)
    → ((x : DbTaskInfo) → p x ≡ true → q x ≡ true)
    → select q xs ≡ []
    → select p xs ≡ []
nobody_hits p q [] sub h = refl
nobody_hits p q (x ∷ xs) sub h = elim (Bool-cases (q x)) [
  | inl e ↦ absurd (cc (rw e at h))
  | inr e ↦ elim (Bool-cases (p x)) [
    | inl b ↦ absurd (cc (sub x b, e))
    | inr b ↦ rw b (nobody_hits p q xs sub (rw e at h))
  ]
]

-- If two results for the same task, stage and session are accepted one after the other, the second
-- changes no task, whatever it says; when the first is the success of a PRECOMMIT, if no two rows
-- await it.
pub recieve_task_result_twice :
    (env : Env) (d d' : Delivery) (jobs jobs' : List Job) (db db' db'' : Db)
    → SameTask d d'
    → (d.task_type ≡ precommit → d.is_err ≡ false → IsAlone d db.task_infos)
    → recieve_task_result env d db ≡ (none, jobs, db')
    → recieve_task_result env d' db' ≡ (none, jobs', db'')
    → db''.task_infos ≡ db'.task_infos
recieve_task_result_twice env d d' jobs jobs' db db' db'' s alone h h' =
    let one = recieve_task_result-Settles env d jobs db db' h in
    let two = recieve_task_result-Settles env d' jobs' db' db'' h' in
    two.settled
    ∙ map_if-none two.hit (settle d') db'.task_infos (
        nobody_hits two.hit (awaits d') db'.task_infos two.only (
          ap (select (awaits d')) one.settled
          ∙ nobody_awaits one.hit d d' s db.task_infos (one.whole alone)))

other_session :
    (d : Delivery) (x : DbTaskInfo) → d.req_id ≢ "" → d.req_id ≢ x.last_req_id → awaits d x ≡ false
unfolding awaits
other_session d x named apart = elim (Bool-cases (text_asks d.req_id x.last_req_id)) [
  | inl e ↦ absurd (apart (sym (text_asks_named d.req_id x.last_req_id named e)))
  | inr e ↦ ground arith
]

-- After a task was handed out to a session, an accepted result of another session that is not blank
-- leaves the assigned row in the table.
pub late_result_ignored :
    (env : Env) (req : RequestInfo) (d : Delivery) (jobs : List Job) (r : DbTaskInfo)
    (db db' db'' : Db)
    → HandedOut env req db r db'
    → d.req_id ≢ ""
    → d.req_id ≢ req.session
    → recieve_task_result env d db' ≡ (none, jobs, db'')
    → Member (assign req (owner req r) r) db''.task_infos
unfolding assign
late_result_ignored env req d jobs r db db' db'' handed named apart h =
    let given = assign req (owner req r) r in
    let there : Member given db'.task_infos = rw handed.infos_after (
      map_if-hit (same_row r) (assign req (owner req r)) r db.task_infos (same_row_refl r)
        handed.was_there) in
    let s = recieve_task_result-Settles env d jobs db' db'' h in
    rw s.settled (map_if-miss s.hit (settle d) given db'.task_infos (not_hit s given apart) there)
  where
    not_hit :
        (s : Settles (settle d) d db'.task_infos db''.task_infos) (x : DbTaskInfo)
        → d.req_id ≢ x.last_req_id
        → s.hit x ≡ false
    not_hit s x other = elim (Bool-cases (s.hit x)) [
      | inl b ↦ absurd (cc (s.only x b, other_session d x named other))
      | inr b ↦ b
    ]
