-- ===== src/Worker/Slots/Defs.antt =====
-- worker/worker.go: IncrementTask, DecrementTask, MotifyTaskLimit and MotifyTaskTimeOut.
use filecoin_sealer.Prelude.{
  Bool, true, false, Option, none, some, ℤ, pos, negsuc, eq_ℤ, leb_ℤ, ◌+ℤ◌, ◌-ℤ◌, if◌then◌else◌,
}
use filecoin_sealer.Tables.{TaskType, task_eq}

-- `TaskLimit`, `TaskRun` and `TaskTimeOut`; `none` is a key that is not there.
pub record Slots : Type 0 where
  pub task_limit : TaskType → Option ℤ
  pub task_run : TaskType → Option ℤ
  pub task_time_out : TaskType → Option ℤ

pub data SlotError : Type 0 where
  greater_than_limit : ℤ → ℤ → SlotError
  type_not_found : TaskType → SlotError

-- How a call ended: with an error or none, or in a panic on the nil `TaskRun[taskType]`.
pub data Ended : Type 0 where
  returned : Option SlotError → Ended
  panicked : Ended

abbrev pub unlimited : ℤ
unlimited = negsuc 0

abbrev pub put : TaskType → ℤ → (TaskType → Option ℤ) → TaskType → Option ℤ
put t v m u = if task_eq t u then some v else m u

-- A missing key reads as zero.
abbrev pub or_zero : Option ℤ → ℤ
or_zero none = pos 0
or_zero (some v) = v

abbrev pub set_running : TaskType → ℤ → Slots → Slots
set_running t v s = record s { task_run = put t v s.task_run }

-- The test is made twice, outside and under the lock; in one thread the second agrees.
abbrev pub take_slot : TaskType → ℤ → Option ℤ → Slots → Ended × Slots
take_slot t limit none s = (panicked, s)
take_slot t limit (some n) s =
    if leb_ℤ limit n
    then (returned (some (greater_than_limit limit n)), s)
    else (returned none, set_running t (n +ℤ pos 1) s)

unfoldable pub increment_task : TaskType → Slots → Ended × Slots
increment_task t s =
    let limit = or_zero (s.task_limit t) in
    if eq_ℤ limit unlimited then (returned none, s) else take_slot t limit (s.task_run t) s

abbrev pub give_slot : TaskType → Option ℤ → Slots → Ended × Slots
give_slot t none s = (panicked, s)
give_slot t (some n) s =
    if eq_ℤ (pos 0) n then (returned none, s) else (returned none, set_running t (n -ℤ pos 1) s)

abbrev pub give_limited : TaskType → Option ℤ → Slots → Ended × Slots
give_limited t none s = (returned none, s)
give_limited t (some limit) s =
    if eq_ℤ limit unlimited then (returned none, s) else give_slot t (s.task_run t) s

unfoldable pub decrement_task : TaskType → Slots → Ended × Slots
decrement_task t s = give_limited t (s.task_limit t) s

abbrev pub motified : TaskType → Option ℤ → Option SlotError × Bool
motified t none = (some (type_not_found t), false)
motified t (some _) = (none, true)

unfoldable pub motify_task_limit : TaskType → ℤ → Slots → Option SlotError × Slots
motify_task_limit t count s =
    let (e, known) = motified t (s.task_limit t) in
    (e, if known then record s { task_limit = put t count s.task_limit } else s)

unfoldable pub motify_task_time_out : TaskType → ℤ → Slots → Option SlotError × Slots
motify_task_time_out t count s =
    let (e, known) = motified t (s.task_time_out t) in
    (e, if known then record s { task_time_out = put t count s.task_time_out } else s)
