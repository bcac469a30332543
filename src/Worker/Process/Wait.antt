-- ===== src/Worker/Process/Wait.antt =====
-- How the wait for a task ends.
use filecoin_sealer.Prelude.{
  ◌≡◌, refl, inl, inr, Bool, true, false, ◌&&◌, String, List, [], ◌∷◌, ◌++◌, some, ℤ, ltb_ℤ, ◌<ℤ◌,
  arith, All, Bool-cases,
}
use filecoin_sealer.Tables.{TaskType}
use filecoin_sealer.Worker.Slots.{or_zero, decrement_task}
use filecoin_sealer.Worker.Process.Defs.{
  Signal, beat, finished, cancelled, Ending, wait_process, Running, delete_channel, check_channel,
  handle_proccess,
}

-- A signal that leaves the loop waiting.
abbrev pub Idle : Bool → ℤ → Signal → Type 0
Idle cbflg duration (beat seconds) = (ltb_ℤ duration seconds && cbflg) ≡ false
Idle cbflg duration (finished e) = ⊥
Idle cbflg duration cancelled = ⊥

-- What a signal that ends the loop makes of it.
abbrev pub EndsIn : Bool → ℤ → Signal → Ending → Type 0
EndsIn cbflg duration (beat seconds) e =
    (duration <ℤ seconds)
    × (cbflg ≡ true)
    × (e ≡ record { process_err = some "task run timeout"; called_back = true })
EndsIn cbflg duration (finished err) e = e ≡ record { process_err = err; called_back = false }
EndsIn cbflg duration cancelled e =
    e ≡ record { process_err = some "shutdown"; called_back = cbflg }

-- A wait that ended did so at the first signal that is not idle, and with what that signal means.
pub wait_process_ends :
    (cbflg : Bool) (duration : ℤ) (ss : List Signal) (e : Ending)
    → wait_process cbflg duration ss ≡ some e
    → (before : List Signal) × (s : Signal) × (after : List Signal) × (ss ≡ before ++ s ∷ after)
      × All (Idle cbflg duration) before
      × EndsIn cbflg duration s e
unfolding wait_process
wait_process_ends cbflg duration [] e h = cc
wait_process_ends cbflg duration (beat seconds ∷ ss) e h =
    elim (Bool-cases (ltb_ℤ duration seconds && cbflg)) [
      | inl late ↦ ([], beat seconds, ss, refl, tt, ground arith)
      | inr idle ↦
          let (before, s, after, split, idles, ends) =
            wait_process_ends cbflg duration ss e (ground arith) in
          (beat seconds ∷ before, s, after, cc, (idle, idles), ends)
    ]
wait_process_ends cbflg duration (finished err ∷ ss) e h = ([], finished err, ss, refl, tt, cc)
wait_process_ends cbflg duration (cancelled ∷ ss) e h = ([], cancelled, ss, refl, tt, cc)

-- Nothing but beats.
abbrev pub Beats : List Signal → Type 0
Beats = All (λ s. (seconds : ℤ) × (s ≡ beat seconds))

-- Without callbacks no time is too long: beats in front of other signals change nothing.
pub wait_process_patient :
    (duration : ℤ) (before ss : List Signal)
    → Beats before
    → wait_process false duration (before ++ ss) ≡ wait_process false duration ss
unfolding wait_process
wait_process_patient duration [] ss h = refl
wait_process_patient duration (beat seconds ∷ before) ss h =
    ground (arith, wait_process_patient duration before ss h.1)
wait_process_patient duration (finished e ∷ before) ss h = absurd (ground (arith, h.0.1))
wait_process_patient duration (cancelled ∷ before) ss h = absurd (ground (arith, h.0.1))

check-delete_channel :
    (s : String) (xs : List String) → check_channel s (delete_channel s xs) ≡ false
unfolding check_channel delete_channel
check-delete_channel s [] = refl
check-delete_channel s (x ∷ xs) = ground (arith, check-delete_channel s xs)

-- However a task ends, its wait had ended so, its slot is given back once, and its session's
-- channel is forgotten.
pub handle_proccess_releases :
    (cbflg : Bool) (t : TaskType) (session : String) (ss : List Signal) (r r' : Running)
    (e : Ending)
    → handle_proccess cbflg t session ss r ≡ some (e, r')
    → (wait_process cbflg (or_zero (r.slots.task_time_out t)) ss ≡ some e)
      × (r'.slots ≡ (decrement_task t r.slots).1)
      × (check_channel session r'.task_close_chnl ≡ false)
unfolding handle_proccess
handle_proccess_releases cbflg t session ss r r' e h =
    ground (arith, check-delete_channel session r.task_close_chnl)
