-- ===== src/Worker/Process/Defs.antt =====
-- worker/util.go: handleProccess and ShutdownReq. An `error` is `Option String`, its text.
use filecoin_sealer.Prelude.{
  Bool, true, false, ◌&&◌, String, List, [], ◌∷◌, Option, none, some, ℤ, ltb_ℤ, str_eq,
  if◌then◌else◌,
}
use filecoin_sealer.Tables.{TaskType}
use filecoin_sealer.Worker.Slots.{Slots, or_zero, decrement_task}

-- What the `select` receives: a beat with the seconds since the start, the end of the task with
-- what it left in the caller's error variable, or a request to shut down.
pub data Signal : Type 0 where
  beat : ℤ → Signal
  finished : Option String → Signal
  cancelled : Signal

-- What the loop leaves: the error variable, and whether the callbacks were called.
pub record Ending : Type 0 where
  pub process_err : Option String
  pub called_back : Bool

-- The loop; `none` while no signal has ended it. `cbflg` says that there are callbacks.
unfoldable pub wait_process : Bool → ℤ → List Signal → Option Ending
wait_process cbflg duration [] = none
wait_process cbflg duration (beat seconds ∷ ss) =
    let rest = wait_process cbflg duration ss in
    if ltb_ℤ duration seconds && cbflg
    then some (record { process_err = some "task run timeout"; called_back = true })
    else rest
wait_process cbflg duration (finished e ∷ ss) =
    some (record { process_err = e; called_back = false })
wait_process cbflg duration (cancelled ∷ ss) =
    some (record { process_err = some "shutdown"; called_back = cbflg })

-- The part of the worker that a running task holds: its slot, and its session's channel.
pub record Running : Type 0 where
  pub slots : Slots
  pub task_close_chnl : List String

unfoldable pub delete_channel : String → List String → List String
delete_channel s [] = []
delete_channel s (x ∷ xs) = if str_eq x s then delete_channel s xs else x ∷ delete_channel s xs

-- `w.CheckSession`
unfoldable pub check_channel : String → List String → Bool
check_channel s [] = false
check_channel s (x ∷ xs) = if str_eq x s then true else check_channel s xs

-- After the loop the channel is forgotten and the slot given back.
abbrev pub released : TaskType → String → Running → Running
released t session r = record {
  slots = (decrement_task t r.slots).1;
  task_close_chnl = delete_channel session r.task_close_chnl;
}

abbrev pub ended : TaskType → String → Running → Option Ending → Option (Ending × Running)
ended t session r none = none
ended t session r (some e) = some (e, released t session r)

unfoldable pub handle_proccess :
    Bool → TaskType → String → List Signal → Running → Option (Ending × Running)
handle_proccess cbflg t session ss r =
    ended t session r (wait_process cbflg (or_zero (r.slots.task_time_out t)) ss)

-- `ShutdownReq`
unfoldable pub shutdown_req : String → List String → Option String
shutdown_req session xs = if check_channel session xs then none else some "request session no found"
