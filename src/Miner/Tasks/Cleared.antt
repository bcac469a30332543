-- ===== src/Miner/Tasks/Cleared.antt =====
-- What ResetAbortedSession of the miner makes of the tasks of a running miner.
use filecoin_sealer.Prelude.{
  ◌≡◌, refl, sym, ap, subst, ◌∙◌, inl, inr, Bool, true, false, String, List, [], ◌∷◌, ℤ, arith,
  Member, map_if, map_if-hit, map_if-miss, Bool-cases, select, All, if◌then◌else◌, eq_ℤ_refl,
}
use filecoin_sealer.Tables.{DbTaskInfo, init}
use filecoin_sealer.Database.{Db, Env, Result, ok, err, tick}
use filecoin_sealer.Miner.State.{of_sector, check_session}
use filecoin_sealer.Miner.Query.Liveness.{Healthy}
use filecoin_sealer.Miner.Tasks.Defs.{
  list_if, reset_loop, reset_one, reset_found, update_task, reset_aborted_session, runs_in_miner,
  moved_to, selected_session,
}
use filecoin_sealer.Miner.Tasks.Reset.{UniqueSectors, Member-All, select-Member}

turned :
    (b : Bool) (skip go : List DbTaskInfo × Db)
    → b ≡ false
    → elim b as (λ c. List DbTaskInfo × Db) [ true ↦ skip | false ↦ go ] ≡ go
turned true skip go e = cc
turned false skip go e = refl

module _ (env : Env) (healthy : Healthy env.infos) (x : DbTaskInfo) where
  abbrev waits : DbTaskInfo
  waits = record x { state = init }

  -- The other rows of the list are of other sectors, or are this one.
  abbrev IsApart : DbTaskInfo → Type 0
  IsApart q = of_sector q.actor_id q.sector_num x ≡ true → x ≡ q

  one_infos :
      (q : DbTaskInfo) (db : Db)
      → (reset_one env q db).1.task_infos
        ≡ map_if (of_sector q.actor_id q.sector_num) (moved_to q.task_type init) db.task_infos
  unfolding update_task
  one_infos q db =
      let (rows, e) =
        healthy.updates db.clock (of_sector q.actor_id q.sector_num) (moved_to q.task_type init)
          db.task_infos in
      let sound = env.infos.update_sound _ _ _ _ _ e in ground arith

  one_keeps :
      (q : DbTaskInfo) (db : Db)
      → IsApart q
      → Member waits db.task_infos
      → Member waits (reset_one env q db).1.task_infos
  one_keeps q db apart there = elim (Bool-cases (of_sector q.actor_id q.sector_num x)) [
    | inl e ↦
        subst (λ r. Member r (reset_one env q db).1.task_infos)
          (λ i. moved_to (sym (apart e) i).task_type init waits)
          (rw (one_infos q db)
            (map_if-hit _ (moved_to q.task_type init) waits db.task_infos e there))
    | inr e ↦
        rw (one_infos q db) (map_if-miss _ (moved_to q.task_type init) waits db.task_infos e there)
  ]

  one_moves :
      (q : DbTaskInfo) (db : Db)
      → x ≡ q
      → Member x db.task_infos
      → Member waits (reset_one env q db).1.task_infos
  one_moves q db e there =
      subst (λ r. Member waits (reset_one env r db).1.task_infos) e
        (rw (one_infos x db) (
          map_if-hit (of_sector x.actor_id x.sector_num) (moved_to x.task_type init) x db.task_infos
            (rw (eq_ℤ_refl x.actor_id, eq_ℤ_refl x.sector_num)) there))

  one_passes :
      (q : DbTaskInfo) (db : Db)
      → of_sector q.actor_id q.sector_num x ≡ false
      → Member x db.task_infos
      → Member x (reset_one env q db).1.task_infos
  one_passes q db e there =
      rw (one_infos q db) (map_if-miss _ (moved_to q.task_type init) x db.task_infos e there)

  module _ (live : DbTaskInfo → Bool) (dead : (q : DbTaskInfo) → live q ≡ false) where
    loop_step :
        (q : DbTaskInfo) (qs : List DbTaskInfo) (db : Db)
        → (reset_loop live (reset_one env) (q ∷ qs) db).1
          ≡ (reset_loop live (reset_one env) qs (reset_one env q db).1).1
    unfolding reset_loop
    loop_step q qs db =
        ap (λ z. z.1)
          (turned (live q) (reset_loop live (reset_one env) qs db)
            (
              list_if (reset_one env q db).0 q
                  (reset_loop live (reset_one env) qs (reset_one env q db).1).0,
              (reset_loop live (reset_one env) qs (reset_one env q db).1).1,
            )
            (dead q))

    loop_keeps :
        (qs : List DbTaskInfo) (db : Db)
        → All IsApart qs
        → Member waits db.task_infos
        → Member waits (reset_loop live (reset_one env) qs db).1.task_infos
    unfolding reset_loop
    loop_keeps [] db apart there = there
    loop_keeps (q ∷ qs) db apart there =
        subst (λ z. Member waits z.task_infos) (sym (loop_step q qs db))
          (loop_keeps qs (reset_one env q db).1 apart.1 (one_keeps q db apart.0 there))

    loop_moves :
        (qs : List DbTaskInfo) (db : Db)
        → All IsApart qs
        → Member x qs
        → Member x db.task_infos
        → Member waits (reset_loop live (reset_one env) qs db).1.task_infos
    loop_moves [] db apart found there = absurd found
    loop_moves (q ∷ qs) db apart found there =
        subst (λ z. Member waits z.task_infos) (sym (loop_step q qs db))
          (elim (Bool-cases (of_sector q.actor_id q.sector_num x)) [
            | inl e ↦
                loop_keeps qs (reset_one env q db).1 apart.1 (one_moves q db (apart.0 e) there)
            | inr e ↦ elim found [
              | inl same ↦ loop_keeps qs (reset_one env q db).1 apart.1 (one_moves q db same there)
              | inr later ↦
                  loop_moves qs (reset_one env q db).1 apart.1 later (one_passes q db e there)
            ]
          ])

Member-select :
    (p : DbTaskInfo → Bool) (y : DbTaskInfo) (rows : List DbTaskInfo)
    → Member y rows
    → p y ≡ true
    → Member y (select p rows)
Member-select p y [] m e = m
Member-select p y (r ∷ rows) (inl same) e =
    subst (λ z. Member y (if z then r ∷ select p rows else select p rows))
      (sym (sym (ap p same) ∙ e)) (inl same)
Member-select p y (r ∷ rows) (inr m) e = elim (Bool-cases (p r)) [
  | inl fits ↦ rw fits (inr (Member-select p y rows m e))
  | inr unfit ↦ rw unfit (Member-select p y rows m e)
]

-- If ResetAbortedSession of the miner is answered with a list, no other statement on the task table fails,
-- no two rows are of one sector, and no session is stored under the blank text, it puts every PRECOMMIT,
-- SEED and COMMIT of the actor that is RUNING back to INIT, also one whose session is alive.
pub reset_aborted_session-Member :
    (env : Env) (sessions : List String) (actor : ℤ) (x : DbTaskInfo) (rows : List DbTaskInfo)
    (db : Db)
    → Healthy env.infos
    → (reset_aborted_session env sessions actor db).0 ≡ ok rows
    → UniqueSectors db.task_infos
    → check_session "" sessions ≡ false
    → Member x db.task_infos
    → runs_in_miner actor x ≡ true
    → Member (record x { state = init }) (reset_aborted_session env sessions actor db).1.task_infos
unfolding reset_aborted_session
reset_aborted_session-Member env sessions actor x rows db healthy answered unique blank there fits =
    by_found (env.infos.find db.clock (runs_in_miner actor) db.task_infos) refl answered
  where
    by_found :
        (found : Result (List DbTaskInfo))
        → env.infos.find db.clock (runs_in_miner actor) db.task_infos ≡ found
        → (reset_found env sessions (found, tick db)).0 ≡ ok rows
        → Member
            (record x { state = init })
            (reset_found env sessions (found, tick db)).1.task_infos
    by_found (err e) ef h = cc
    by_found (ok qs) ef h =
        let same : qs ≡ select (runs_in_miner actor) db.task_infos =
          env.infos.find_sound db.clock (runs_in_miner actor) db.task_infos qs ef in
        loop_moves env healthy x (λ q. check_session (selected_session q) sessions) (λ q. blank) qs
          (tick db)
          (Member-All (IsApart env healthy x) qs (λ y m e.
            unique x y there
              (select-Member (runs_in_miner actor) y db.task_infos (subst (Member y) same m)) e))
          (subst (Member x) (sym same)
            (Member-select (runs_in_miner actor) x db.task_infos there fits))
          there
