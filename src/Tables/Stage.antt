-- ===== src/Tables/Stage.antt =====
-- util/mysql.go: the stages of the sealing pipeline, and the states of a task in a stage.
use filecoin_sealer.Prelude.{
  ℕ, ◌≡◌, refl, Bool, true, false, String, arith, ℤ, pos, str_eq, str_eq_iff,
}

-- The Go constants are texts; `other` stands for any text that is none of them.
pub data TaskType : Type 0 where
  pc1 pc2 precommit seed c1 c2 commit proving : TaskType
  other : String → TaskType

abbrev pub init : ℤ
init = pos 0

abbrev pub runing : ℤ
runing = pos 1

abbrev pub success : ℤ
success = pos 2

abbrev pub error : ℤ
error = pos 3

abbrev pub retry : ℤ
retry = pos 4

-- `NextTask[t]`: a missing key reads as the empty text.
abbrev pub next_task : TaskType → TaskType
next_task pc1 = pc2
next_task pc2 = precommit
next_task precommit = seed
next_task seed = c1
next_task c1 = c2
next_task c2 = commit
next_task commit = proving
next_task _ = other ""

-- `==` on the texts.
unfoldable pub task_eq : TaskType → TaskType → Bool
task_eq pc1 pc1 = true
task_eq pc2 pc2 = true
task_eq precommit precommit = true
task_eq seed seed = true
task_eq c1 c1 = true
task_eq c2 c2 = true
task_eq commit commit = true
task_eq proving proving = true
task_eq (other s) (other t) = str_eq s t
task_eq _ _ = false

pub task_eq_refl : (t : TaskType) → task_eq t t ≡ true
unfolding task_eq
task_eq_refl (other s) = (str_eq_iff s s).1 refl
task_eq_refl pc1 = refl
task_eq_refl _ = refl

pub task_eq→eq : (s t : TaskType) → task_eq s t ≡ true → s ≡ t
unfolding task_eq
task_eq→eq (other s) (other t) h = cc ((str_eq_iff s t).0 h)
task_eq→eq pc1 t h = ground arith
task_eq→eq _ t h = ground arith

-- How far along the pipeline a stage stands.
abbrev pub rank : TaskType → ℕ
rank pc1 = 1
rank pc2 = 2
rank precommit = 3
rank seed = 4
rank c1 = 5
rank c2 = 6
rank commit = 7
rank proving = 8
rank (other s) = 0

-- The stages that `NextTask` has a successor for.
abbrev pub is_stage : TaskType → Bool
is_stage proving = false
is_stage (other s) = false
is_stage _ = true
