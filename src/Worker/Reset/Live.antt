-- ===== src/Worker/Reset/Live.antt =====
-- The worker's reset touches no task that it still runs.
use filecoin_sealer.Prelude.{
  ◌≡◌, refl, sym, subst, ap, ◌∙◌, ◌⊎◌, inl, inr, Bool, true, false, String, List, Option, none,
  some, ℤ, Member, map_if, select, All,
}
use filecoin_sealer.Tables.{TaskType, retry, DbTaskInfo}
use filecoin_sealer.Database.{Db, Env, Result, ok, err, tick}
use filecoin_sealer.Miner.{of_sector, Reply, results, refused}
use filecoin_sealer.Miner.Query.{query_only}
use filecoin_sealer.Miner.Tasks.{update_task, moved_to}
use filecoin_sealer.Miner.Tasks.Reset.{
  UniqueSectors, TouchesSector, reset_loop-Member, update_task_infos, Apart, select-Apart,
}
use filecoin_sealer.Worker.Process.{check_channel}
use filecoin_sealer.Worker.Process.Local.{Step, done, fault}
use filecoin_sealer.Worker.Start.{Wire, Worker}
use filecoin_sealer.Worker.Reset.{
  over, row_of, rows_of, query_only_by, update_task_info, reset_row, reset_rows, reset_aborted,
  runs_here, back_to,
}

over_cases :
    {A : Type 0} (l : Option String) (reached : Bool) (x : Step A × Db) (db : Db)
    → ((over l reached x db).1 ≡ x.1) ⊎ ((over l reached x db).1 ≡ db)
over_cases none reached x db = inl refl
over_cases (some e) true x db = inl refl
over_cases (some e) false x db = inr refl

row_of_db : (x : Result DbTaskInfo × Db) → (row_of x).1 ≡ x.1
row_of_db (ok r, db) = refl
row_of_db (err e, db) = refl

done_injective : {A : Type 0} (x y : A) → done x ≡ done y → y ≡ x
done_injective x y h = cc

abbrev reply_to : Result (List DbTaskInfo) → Db → Reply × Db
reply_to f db = elim f [ ok rows ↦ (results rows, db) | err e ↦ (refused e, db) ]

module _ (env : Env) where
  update_task_info_infos :
      (b : Bool) (wire : Wire) (actor sector : ℤ) (t : TaskType) (s : ℤ) (db : Db)
      → ((update_task_info env b wire actor sector t s db).1.task_infos ≡ db.task_infos)
        ⊎ ((update_task_info env b wire actor sector t s db).1.task_infos
            ≡ map_if (of_sector actor sector) (moved_to t s) db.task_infos)
  unfolding update_task_info
  update_task_info_infos false wire actor sector t s db = inl refl
  update_task_info_infos true wire actor sector t s db =
      let updated = row_of (update_task env actor sector t s db) in
      elim (over_cases wire.lost wire.reached updated db) [
        | inr lost ↦ inl (ap (λ d. d.task_infos) lost)
        | inl kept ↦
            let e =
              ap (λ d. d.task_infos) (kept ∙ row_of_db (update_task env actor sector t s db)) in
            elim (update_task_infos env actor sector t s db) [
              | inl same ↦ inl (e ∙ same)
              | inr changed ↦ inr (e ∙ changed)
            ]
      ]

  shown :
      (p : DbTaskInfo → Bool) (db : Db) (f : Result (List DbTaskInfo)) (l : Option String)
      (reached : Bool)
      → env.infos.find db.clock p db.task_infos ≡ f
      → ((over l reached
            (rows_of (reply_to f (tick db)).0, (reply_to f (tick db)).1)
            db).1.task_infos
          ≡ db.task_infos)
        × ((qs : List DbTaskInfo)
            → (over l reached (rows_of (reply_to f (tick db)).0, (reply_to f (tick db)).1) db).0
              ≡ done qs
            → qs ≡ select p db.task_infos)
  shown p db (ok rows) none reached e = (
    refl,
    λ qs h. done_injective rows qs h ∙ env.infos.find_sound db.clock p db.task_infos rows e,
  )
  shown p db (err d) none reached e = (refl, λ qs h. absurd (cc h))
  shown p db (ok rows) (some s) true e = (refl, λ qs h. absurd (cc h))
  shown p db (ok rows) (some s) false e = (refl, λ qs h. absurd (cc h))
  shown p db (err d) (some s) true e = (refl, λ qs h. absurd (cc h))
  shown p db (err d) (some s) false e = (refl, λ qs h. absurd (cc h))

  -- What the query returns are rows of the table, which stays as it was.
  query_only_by_rows :
      (b : Bool) (wire : Wire) (p : DbTaskInfo → Bool) (db : Db)
      → ((query_only_by env b wire p db).1.task_infos ≡ db.task_infos)
        × ((qs : List DbTaskInfo)
            → (query_only_by env b wire p db).0 ≡ done qs
            → qs ≡ select p db.task_infos)
  unfolding query_only_by query_only
  query_only_by_rows false wire p db = (refl, λ qs h. absurd (cc h))
  query_only_by_rows true wire p db =
      shown p db (env.infos.find db.clock p db.task_infos) wire.lost wire.reached refl

  module _ (w : Worker) (has_tree : DbTaskInfo → Bool) (wires : DbTaskInfo → Wire) where
    reset_row_touches : TouchesSector (reset_row env w has_tree wires)
    reset_row_touches q db =
        elim (update_task_info_infos w.connected (wires q) q.actor_id q.sector_num
          (back_to has_tree q) retry db) [
            | inl same ↦ inl same
            | inr changed ↦ inr (moved_to (back_to has_tree q) retry, changed)
          ]

    rows-Member :
        (p : DbTaskInfo → Bool) (x : DbTaskInfo) (rows : List DbTaskInfo)
        (found : Step (List DbTaskInfo) × Db)
        → UniqueSectors rows
        → Member x rows
        → check_channel x.last_req_id w.running.task_close_chnl ≡ true
        → found.1.task_infos ≡ rows
        → ((qs : List DbTaskInfo) → found.0 ≡ done qs → qs ≡ select p rows)
        → Member x (reset_rows env w has_tree wires found).1.task_infos
    rows-Member p x rows (done qs, db) unique there alive same these =
        let live = λ (q : DbTaskInfo). check_channel q.last_req_id w.running.task_close_chnl in
        let one = reset_row env w has_tree wires in
        reset_loop-Member live one reset_row_touches x alive qs db
          (subst (λ l. All (Apart live one reset_row_touches x alive) l) (sym (these qs refl))
            (select-Apart live one reset_row_touches x alive p rows unique there))
          (subst (λ l. Member x l) (sym same) there)
    rows-Member p x rows (fault e, db) unique there alive same these =
        subst (λ l. Member x l) (sym same) there

    -- If no two rows are of one sector, ResetAbortedSession of the worker leaves a row whose session
    -- has a channel in the table as it is, whichever of its calls are lost.
    pub reset_aborted-Member :
        (wire : Wire) (x : DbTaskInfo) (db : Db)
        → UniqueSectors db.task_infos
        → Member x db.task_infos
        → check_channel x.last_req_id w.running.task_close_chnl ≡ true
        → Member x (reset_aborted env w has_tree wires wire db).1.task_infos
    unfolding reset_aborted
    reset_aborted-Member wire x db unique there alive =
        let (same, these) = query_only_by_rows w.connected wire (runs_here w) db in
        rows-Member (runs_here w) x db.task_infos
          (query_only_by env w.connected wire (runs_here w) db) unique there alive same these
