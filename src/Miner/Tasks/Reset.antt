-- ===== src/Miner/Tasks/Reset.antt =====
-- What the loop of a reset leaves alone, and what UpdateTask writes: the two resets share both.
use filecoin_sealer.Prelude.{
  ◌≡◌, refl, ◌⊎◌, inl, inr, Bool, true, false, List, [], ◌∷◌, ℤ, arith, Member, map_if, map_if-miss,
  Bool-cases, select, if◌then◌else◌, All,
}
use filecoin_sealer.Tables.{DbTaskInfo, TaskType}
use filecoin_sealer.Database.{Db, Env, Result, ok, err, update_infos}
use filecoin_sealer.Miner.State.{of_sector}
use filecoin_sealer.Miner.Tasks.Defs.{list_if, reset_loop, update_task, moved_to}

-- No two rows of the table are of one sector.
abbrev pub UniqueSectors : List DbTaskInfo → Type 0
UniqueSectors rows =
    (x y : DbTaskInfo)
    → Member x rows
    → Member y rows
    → of_sector y.actor_id y.sector_num x ≡ true
    → x ≡ y

-- One turn of the loop writes at most the rows of its sector.
abbrev pub TouchesSector : (DbTaskInfo → Db → Bool × Db) → Type 0
TouchesSector one =
    (q : DbTaskInfo) (db : Db)
    → ((one q db).1.task_infos ≡ db.task_infos)
      ⊎ ((f : DbTaskInfo → DbTaskInfo) × ((one q db).1.task_infos
            ≡ map_if (of_sector q.actor_id q.sector_num) f db.task_infos))

module _ (live : DbTaskInfo → Bool) (one : DbTaskInfo → Db → Bool × Db)
    (touches : TouchesSector one) (x : DbTaskInfo) (alive : live x ≡ true) where
  -- The other rows of the list are of other sectors, or are this one.
  abbrev pub Apart : DbTaskInfo → Type 0
  Apart q = of_sector q.actor_id q.sector_num x ≡ true → x ≡ q

  one-Member :
      (q : DbTaskInfo) (db : Db)
      → Apart q
      → live q ≡ false
      → Member x db.task_infos
      → Member x (one q db).1.task_infos
  one-Member q db apart dead there = elim (touches q db) [
    | inl same ↦ rw same there
    | inr (f, changed) ↦ elim (Bool-cases (of_sector q.actor_id q.sector_num x)) [
      | inl same ↦ absurd (cc (apart same))
      | inr other ↦ rw changed (map_if-miss _ f x db.task_infos other there)
    ]
  ]

  branch-Member :
      (b : Bool) (skip go : List DbTaskInfo × Db)
      → (b ≡ true → Member x skip.1.task_infos)
      → (b ≡ false → Member x go.1.task_infos)
      → Member x (elim b as (λ c. List DbTaskInfo × Db) [ true ↦ skip | false ↦ go ]).1.task_infos
  branch-Member true skip go h k = h refl
  branch-Member false skip go h k = k refl

  pub reset_loop-Member :
      (qs : List DbTaskInfo) (db : Db)
      → All Apart qs
      → Member x db.task_infos
      → Member x (reset_loop live one qs db).1.task_infos
  unfolding reset_loop
  reset_loop-Member [] db apart there = there
  reset_loop-Member (q ∷ qs) db apart there =
      branch-Member (live q) (reset_loop live one qs db)
        (
          list_if (one q db).0 q (reset_loop live one qs (one q db).1).0,
          (reset_loop live one qs (one q db).1).1,
        )
        (λ l. reset_loop-Member qs db apart.1 there)
        (λ dead. reset_loop-Member qs (one q db).1 apart.1 (one-Member q db apart.0 dead there))

pub select-Member :
    (p : DbTaskInfo → Bool) (y : DbTaskInfo) (rows : List DbTaskInfo)
    → Member y (select p rows)
    → Member y rows
select-Member p y [] m = m
select-Member p y (r ∷ rows) m =
    let m' : Member y (if p r then r ∷ select p rows else select p rows) = m in
    elim (Bool-cases (p r)) [
      | inl fits ↦
          let n : Member y (r ∷ select p rows) = rw fits at m' in
          elim n [ inl e ↦ inl e | inr k ↦ inr (select-Member p y rows k) ]
      | inr unfit ↦ inr (select-Member p y rows (rw unfit at m'))
    ]

pub Member-All :
    (P : DbTaskInfo → Type 0) (rows : List DbTaskInfo)
    → ((y : DbTaskInfo) → Member y rows → P y)
    → All P rows
Member-All P [] h = tt
Member-All P (r ∷ rows) h = (h r (inl refl), Member-All P rows (λ y m. h y (inr m)))

-- The rows that a reset finds are apart from each other.
pub select-Apart :
    (live : DbTaskInfo → Bool) (one : DbTaskInfo → Db → Bool × Db) (touches : TouchesSector one)
    (x : DbTaskInfo) (alive : live x ≡ true) (p : DbTaskInfo → Bool) (rows : List DbTaskInfo)
    → UniqueSectors rows
    → Member x rows
    → All (Apart live one touches x alive) (select p rows)
select-Apart live one touches x alive p rows unique there =
    Member-All (Apart live one touches x alive) (select p rows)
      (λ y m same. unique x y there (select-Member p y rows m) same)

module _ (env : Env) where
  update_infos_touches :
      (p : DbTaskInfo → Bool) (f : DbTaskInfo → DbTaskInfo) (db : Db) (r : Result (List DbTaskInfo))
      → env.infos.update db.clock p f db.task_infos ≡ r
      → ((update_infos env p f db).1.task_infos ≡ db.task_infos)
        ⊎ ((update_infos env p f db).1.task_infos ≡ map_if p f db.task_infos)
  update_infos_touches p f db (ok rows) e =
      let changed = env.infos.update_sound db.clock p f db.task_infos rows e in inr (ground arith)
  update_infos_touches p f db (err x) e = inl (ground arith)

  -- UpdateTask writes at most the rows of its sector.
  pub update_task_infos :
      (actor sector : ℤ) (t : TaskType) (s : ℤ) (db : Db)
      → ((update_task env actor sector t s db).1.task_infos ≡ db.task_infos)
        ⊎ ((update_task env actor sector t s db).1.task_infos
            ≡ map_if (of_sector actor sector) (moved_to t s) db.task_infos)
  unfolding update_task
  update_task_infos actor sector t s db =
      elim (update_infos_touches (of_sector actor sector) (moved_to t s) db
        (env.infos.update db.clock (of_sector actor sector) (moved_to t s) db.task_infos) refl) [
          | inl same ↦ inl (ground arith)
          | inr changed ↦ inr (ground arith)
        ]
