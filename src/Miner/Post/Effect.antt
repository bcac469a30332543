-- ===== src/Miner/Post/Effect.antt =====
-- What UpdatePoStInfo leaves in the table of the sectors to prove.
use filecoin_sealer.Prelude.{◌≡◌, refl, sym, subst, ℕ, ℤ, List, [], ◌∷◌, ◌++◌, arith, map_if}
use filecoin_sealer.Tables.{DbTaskInfo, DbPostInfo, success}
use filecoin_sealer.Database.{
  Db, Env, Result, ok, err, not_found, failed, first_info, tick, first_post, update_posts,
  insert_post,
}
use filecoin_sealer.Miner.State.{of_sector}
use filecoin_sealer.Miner.Post.Defs.{
  of_post, created, completed, read_columns, write_post, cleared, posted, update_post_info_row,
}

-- How the table of the sectors to prove may come out: as it was, with a new row that names no
-- worker and the deadline 0, or with the rows of the sector changed, their deadline now 0.
pub data Posted (env : Env) (actor sector : ℤ) (rows rows' : List DbPostInfo) : Type 0 where
  unchanged : rows' ≡ rows → Posted env actor sector rows rows'
  added :
      (t : ℕ) (r : DbPostInfo)
      → rows' ≡ rows ++ env.posts.fill t r ∷ []
      → r.worker_id ≡ ""
      → r.deadline_inx ≡ 0
      → r.partition_inx ≡ 0
      → r.state ≡ success
      → Posted env actor sector rows rows'
  changed :
      (f : DbPostInfo → DbPostInfo)
      → rows' ≡ map_if (of_post actor sector) f rows
      → ((r : DbPostInfo) → (f r).deadline_inx ≡ 0)
      → ((r : DbPostInfo) → (f r).partition_inx ≡ 0)
      → ((r : DbPostInfo) → (f r).state ≡ success)
      → Posted env actor sector rows rows'

module _ (env : Env) (actor sector : ℤ) where
  stored-Posted :
      (f : DbPostInfo → DbPostInfo) (db : Db) (r : Result (List DbPostInfo))
      → ((x : DbPostInfo) → (f x).deadline_inx ≡ 0)
      → ((x : DbPostInfo) → (f x).partition_inx ≡ 0)
      → ((x : DbPostInfo) → (f x).state ≡ success)
      → env.posts.update db.clock (of_post actor sector) f db.post_infos ≡ r
      → Posted env actor sector db.post_infos
          (update_posts env (of_post actor sector) f db).1.post_infos
  stored-Posted f db (ok rows) a b c e =
      let sound = env.posts.update_sound db.clock (of_post actor sector) f db.post_infos rows e in
      changed f (ground arith) a b c
  stored-Posted f db (err x) a b c e = unchanged (ground arith)

  inserted-Posted :
      (t : DbTaskInfo) (db : Db) (r : Result (List DbPostInfo))
      → env.posts.insert db.clock (created actor sector (read_columns t)) db.post_infos ≡ r
      → Posted env actor sector db.post_infos
          (insert_post env (created actor sector (read_columns t)) db).1.post_infos
  inserted-Posted t db (ok rows) e =
      let sound =
        env.posts.insert_sound db.clock (created actor sector (read_columns t)) db.post_infos rows
          e in
      added db.clock (created actor sector (read_columns t)) (ground arith) refl refl refl refl
  inserted-Posted t db (err x) e = unchanged (ground arith)

  write_post-Posted :
      (t : DbTaskInfo) (x : Result DbPostInfo) (db : Db)
      → Posted env actor sector db.post_infos
          (write_post env actor sector (read_columns t) (x, db)).post_infos
  write_post-Posted t (ok r) db =
      stored-Posted (completed (read_columns t)) db _ (λ r. refl) (λ r. refl) (λ r. refl) refl
  write_post-Posted t (err not_found) db = inserted-Posted t db _ refl
  write_post-Posted t (err (failed s)) db =
      stored-Posted (completed (read_columns t)) db _ (λ r. refl) (λ r. refl) (λ r. refl) refl

  cleared_posts :
      (x : Result DbTaskInfo) (db : Db)
      → (cleared env actor sector (x, db)).post_infos ≡ db.post_infos
  cleared_posts (ok r) db = ground arith
  cleared_posts (err e) db = refl

  posted-Posted :
      (x : Result DbTaskInfo) (db : Db)
      → Posted env actor sector db.post_infos (posted env actor sector (x, db)).post_infos
  posted-Posted (err e) db = unchanged refl
  posted-Posted (ok r) db =
      let written =
        write_post env actor sector (read_columns r) (first_post env (of_post actor sector) db) in
      subst (Posted env actor sector db.post_infos)
        (sym (cleared_posts (first_info env (of_sector actor sector) written).0 (tick written)))
        (write_post-Posted r (first_post env (of_post actor sector) db).0 (tick db))

  -- UpdatePoStInfo leaves the table of the sectors to prove as it was, or adds a row in the state
  -- SUCCESS that names no worker and the deadline and partition 0, or changes the rows of the sector
  -- to SUCCESS and to the deadline and partition 0: the ones of the task are lost on every path.
  pub update_post_info_row-Posted :
      (db : Db)
      → Posted env actor sector db.post_infos (update_post_info_row env actor sector db).post_infos
  unfolding update_post_info_row
  update_post_info_row-Posted db =
      posted-Posted (first_info env (of_sector actor sector) db).0 (tick db)
