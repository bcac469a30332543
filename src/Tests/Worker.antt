-- ===== src/Tests/Worker.antt =====
-- Tests of the worker, and its properties at concrete inputs.
use filecoin_sealer.Prelude.{
  ℕ, ◌<◌, ◌≡◌, refl, inr, true, false, String, List, [], ◌∷◌, ℤ, pos, none, some, arith, zero, suc,
  Option, ◌≤ℤ◌, ◌+ℤ◌, ◌-ℤ◌, str_eq,
}
use filecoin_sealer.Tables.{pc1, task_eq}
use filecoin_sealer.Worker.Slots.{Slots, put, returned, increment_task, decrement_task}
use filecoin_sealer.Worker.Slots.Gate.{
  Gate, Event, take_checks, take_locks, give_checks, give_locks, run, run-le_limit, AllEarned,
}
use filecoin_sealer.Worker.Slots.Balance.{IsBounded}
use filecoin_sealer.Worker.Process.{
  Signal, beat, finished, Ending, wait_process, Running, check_channel, delete_channel,
  handle_proccess, released,
}
use filecoin_sealer.Worker.Process.Local.{
  done, fault, Phase1Calls, phase1_output, seal_pre_commit_phase1, Phase2Call,
  seal_pre_commit_phase2, Commit1Calls, commit1_output, seal_commit_phase1, seal_commit_phase2,
}
use filecoin_sealer.Worker.Report.{
  Link, defer_miner_recieve, miner_api_err, calls, get_failed, keep_failed, put_failed, rounds,
}
use filecoin_sealer.Worker.Report.Delivery.{defer_miner_recieve_delivers}

-- Unfolding this unfolds the model of the worker.
evaluated : Unit {0}
unfolding str_eq task_eq increment_task decrement_task run wait_process check_channel delete_channel
    handle_proccess phase1_output seal_pre_commit_phase1 seal_pre_commit_phase2 commit1_output
    seal_commit_phase1 seal_commit_phase2 rounds defer_miner_recieve put_failed get_failed
    keep_failed ◌+ℤ◌ ◌-ℤ◌
evaluated = tt

abbrev slots : ℤ → ℤ → Slots
slots limit count = record {
  task_limit = put pc1 limit (λ t. none);
  task_run = put pc1 count (λ t. none);
  task_time_out = put pc1 (pos 100) (λ t. none);
}

slots-IsBounded : IsBounded pc1 (slots (pos 2) (pos 1))
unfolding evaluated
slots-IsBounded = record {
  limit = pos 2;
  count = pos 1;
  has_limit = refl;
  has_count = refl;
  not_below = omega arith;
  not_above = inr (omega arith);
}

taken : (increment_task pc1 (slots (pos 2) (pos 1))).0 ≡ returned none
unfolding evaluated
taken = refl

counted : (increment_task pc1 (slots (pos 2) (pos 1))).1.task_run pc1 ≡ some (pos 2)
unfolding evaluated
counted = refl

abbrev gate : Gate
gate = record { running = pos 1; taking = 0; giving = 0 }

abbrev two_takers : List Event
two_takers = take_checks ∷ take_checks ∷ take_locks ∷ take_locks ∷ []

run-le_limit_example : (run (pos 2) two_takers gate).running ≤ℤ pos 2
run-le_limit_example = run-le_limit (pos 2) two_takers gate (omega arith)

earned : AllEarned (pos 2) (give_checks ∷ give_locks ∷ []) gate
unfolding evaluated
earned = (omega arith, (tt, tt))

abbrev timed_out : Ending
timed_out = record { process_err = some "task run timeout"; called_back = true }

abbrev signals : List Signal
signals = beat (pos 30) ∷ beat (pos 120) ∷ finished none ∷ []

times_out : wait_process true (pos 100) signals ≡ some timed_out
unfolding evaluated
times_out = refl

abbrev worker : Running
worker = record { slots = slots (pos 2) (pos 1); task_close_chnl = "s1" ∷ [] }

released-worker :
    handle_proccess true pc1 "s1" signals worker ≡ some (timed_out, released pc1 "s1" worker)
unfolding evaluated
released-worker = refl

-- The sealing call of a PC1 fails.
abbrev phase1 : Phase1Calls
phase1 = record {
  ram_in_bytes = done tt;
  ticket_hex = "";
  get_ticket = done tt;
  decode_ticket = done tt;
  piece_info = done tt;
  mkdir_sealed = fault "exists";
  sealed_exists = true;
  mkdir_again = done tt;
  open_sealed = done tt;
  close_sealed = done tt;
  mkdir_cache = done tt;
  cache_exists = false;
  seal = fault "bad piece";
}

phase1_fails : phase1_output phase1 ≡ fault "bad piece"
unfolding evaluated
phase1_fails = refl

abbrev phase2 : Phase2Call
phase2 = record { sealed_cid = "b"; unsealed_cid = "b"; failure = some "bad piece" }

abbrev commit1 : Commit1Calls
commit1 = record {
  ram_in_bytes = done tt;
  parse_comm_r = fault "bad piece";
  parse_comm_d = done tt;
  decode_ticket = done tt;
  decode_seed = done tt;
  piece_info = done tt;
  seal = done [];
}

commit1_fails : commit1_output commit1 ≡ fault "bad piece"
unfolding evaluated
commit1_fails = refl

-- The first call fails, and the miner does not answer until it is dialled anew.
abbrev slow : ℕ → Option String
slow zero = some "timeout"
slow (suc i) = none

abbrev link : Link
link = record { receive = slow; check_server = λ i. some false; dial = λ i. none }

delivered : miner_api_err (defer_miner_recieve link true) ≡ none
unfolding evaluated
delivered = refl

defer_miner_recieve_delivers_example : (i : ℕ) × (i < 6) × (slow i ≡ none)
defer_miner_recieve_delivers_example = defer_miner_recieve_delivers link (λ i e. cc) delivered

-- No call gets through.
abbrev cut : Link
cut = record {
  receive = λ i. some "closed";
  check_server = λ i. some false;
  dial = λ i. some "refused";
}

-- After a dial that failed no further call is made.
one_call : calls (defer_miner_recieve cut true) ≡ 1
unfolding evaluated
one_call = refl
