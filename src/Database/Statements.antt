-- ===== src/Database/Statements.antt =====
-- What the program relies on of gorm and MySQL, statement by statement.
use filecoin_sealer.Prelude.{
  ℕ, ◌≡◌, Bool, true, false, String, List, [], ◌∷◌, ◌++◌, Option, All, Member, select, map_if,
}
use filecoin_sealer.Tables.{DbTaskInfo, DbTaskLog, DbTaskFailed, DbPostInfo, TaskResult}

-- `gorm.ErrRecordNotFound`, and any other error with its text.
pub data DbError : Type 0 where
  not_found : DbError
  failed : String → DbError

pub data Result {ℓ} (A : Type ℓ) : Type ℓ where
  ok : A → Result A
  err : DbError → Result A

-- The statements on one table, each at a moment, with their documented behaviour.
pub record Engine (Row : Type 0) : Type 0 where
  -- `Where(…).First(&r)`
  pub first : ℕ → (Row → Bool) → List Row → Result Row
  -- `Where(…).Find(&rs)`
  pub find : ℕ → (Row → Bool) → List Row → Result (List Row)
  -- `Where(…).Model(…).Updates(…)`
  pub update : ℕ → (Row → Bool) → (Row → Row) → List Row → Result (List Row)
  -- `Create(&r)`
  pub insert : ℕ → Row → List Row → Result (List Row)
  -- What the database fills in of a new row: its id, and the defaults of blank columns.
  pub fill : ℕ → Row → Row
  pub first_sound :
      (t : ℕ) (p : Row → Bool) (rows : List Row) (r : Row)
      → first t p rows ≡ ok r
      → Member r rows × (p r ≡ true)
  pub first_missing :
      (t : ℕ) (p : Row → Bool) (rows : List Row)
      → first t p rows ≡ err not_found
      → All (λ r. p r ≡ false) rows
  pub find_sound :
      (t : ℕ) (p : Row → Bool) (rows rs : List Row) → find t p rows ≡ ok rs → rs ≡ select p rows
  pub update_sound :
      (t : ℕ) (p : Row → Bool) (f : Row → Row) (rows rows' : List Row)
      → update t p f rows ≡ ok rows'
      → rows' ≡ map_if p f rows
  pub insert_sound :
      (t : ℕ) (r : Row) (rows rows' : List Row)
      → insert t r rows ≡ ok rows'
      → rows' ≡ rows ++ fill t r ∷ []

-- The tables of the program, the end of a transaction, and the text that `fmt` prints of a result.
pub record Env : Type 0 where
  pub infos : Engine DbTaskInfo
  pub logs : Engine DbTaskLog
  pub fails : Engine DbTaskFailed
  pub posts : Engine DbPostInfo
  -- `tx.Commit().Error`
  pub commit : ℕ → Option DbError
  pub marshal : TaskResult → String

-- The state of the database.
pub record Db : Type 0 where
  pub task_infos : List DbTaskInfo
  pub task_logs : List DbTaskLog
  pub task_faileds : List DbTaskFailed
  pub post_infos : List DbPostInfo
  pub clock : ℕ
