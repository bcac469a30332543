-- ===== src/Tests/Send.antt =====
-- Tests of the messages to the chain, and their properties at concrete inputs.
use filecoin_sealer.Prelude.{
  Called, got, lost, none, ◌≡◌, refl, true, false, String, [], ◌∷◌, pos, zero, suc, ℕ, ◌<◌,
}
use filecoin_sealer.Tables.{commit, init, DbTaskInfo}
use filecoin_sealer.Database.{memory_env}
use filecoin_sealer.Miner.{Miner, check_session, store_session, delete_session}
use filecoin_sealer.Miner.Query.{assign}
use filecoin_sealer.Miner.Tasks.{
  reset_loop, update_task, runs_in_miner, reset_aborted_session, update_task_log, of_request,
}
use filecoin_sealer.Miner.Send.{
  prove_commit, SendCalls, Sent, waiting, params_of, settle_session, send_by_privat_key,
  send_request,
}
use filecoin_sealer.Miner.Send.Receipt.{
  Answer, failed, no_receipt, receipt, exit_ok, out_of_gas, await_receipt, callback_of,
  callback_of-ok,
}
use filecoin_sealer.Miner.Send.Session.{IsOpen, send_alive, call_back}
use filecoin_sealer.Miner.Message.{StageCalls, send_msg, told, send_stage, answer_stage}
use filecoin_sealer.Tests.Data.{evaluated, task, tables, any}

-- Unfolding this unfolds the sending of messages, and with `evaluated` the rest of the miner.
ready : Unit {0}
unfolding check_session store_session delete_session reset_loop update_task runs_in_miner
    reset_aborted_session update_task_log of_request settle_session send_by_privat_key await_receipt
    callback_of send_msg told send_stage answer_stage
ready = tt

abbrev ready_to_commit : DbTaskInfo
ready_to_commit = task 1 5 commit init "w1" "s0"

abbrev miner : Miner
miner = record {
  db = tables (ready_to_commit ∷ []);
  wait_seed_epoch = pos 150;
  sector_expiration = pos 1555200;
  req_session = [];
}

abbrev calls : SendCalls
calls = record {
  parse = got tt;
  nonce = got 7;
  sealed_cid = got tt;
  marshal = got tt;
  push = got "bafy";
}

abbrev sent : Sent × Miner
sent = send_by_privat_key memory_env prove_commit (pos 1000) "s9" calls any miner

sent_waits : sent.0 ≡ waiting "bafy" 7 (params_of prove_commit (pos 1555200) ready_to_commit)
unfolding evaluated ready
sent_waits = refl

sent_alive : check_session "s9" sent.1.req_session ≡ true
unfolding evaluated ready
sent_alive = refl

send_alive_example : IsOpen memory_env prove_commit (pos 1000) "s9" sent.0
unfolding ready
send_alive_example =
    send_alive memory_env prove_commit (pos 1000) "s9" calls any miner refl sent_alive

-- The receipt is there at the third call.
abbrev later : ℕ → Answer
later zero = failed "connection refused"
later (suc zero) = no_receipt
later (suc (suc i)) = receipt exit_ok

abbrev exit_text : ℕ → String
exit_text n = "submitting sector proof failed"

receipt_fine : (callback_of "bafy" exit_text "nil" later).0 ≡ false
unfolding ready
receipt_fine = refl

callback_of-ok_example :
    ((callback_of "bafy" exit_text "nil" later).1 ≡ "bafy")
    × ((i : ℕ) × (i < 11) × (later i ≡ receipt exit_ok))
callback_of-ok_example = callback_of-ok "bafy" exit_text "nil" later receipt_fine

-- The callback closes the session, and the COMMIT moves on.
proved :
    (call_back memory_env prove_commit
      (pos 1000)
      "s9"
      (got (3, 1))
      (pos 5)
      (false, "bafy")
      sent.1).1.req_session
    ≡ []
unfolding evaluated ready
proved = refl

out_of_gas_fails : (callback_of "bafy" exit_text "nil" (λ i. receipt out_of_gas)).0 ≡ true
unfolding ready
out_of_gas_fails = refl

-- A message that cannot be encoded.
abbrev unencodable : SendCalls
unencodable = record calls { marshal = lost "value too large" }

abbrev stuck : Sent × Miner
stuck = send_by_privat_key memory_env prove_commit (pos 1000) "s9" unencodable any miner

still_open : stuck.1.req_session ≡ "s9" ∷ []
unfolding evaluated ready
still_open = refl

-- Its session is alive, and the task is put back to INIT.
stuck_reset :
    (reset_aborted_session memory_env stuck.1.req_session (pos 1000) stuck.1.db).1.task_infos
    ≡ record (assign (send_request prove_commit (pos 1000) any "s9") "w1" ready_to_commit) {
      state = init;
    }
      ∷ []
unfolding evaluated ready
stuck_reset = refl

-- The same message by a key of the node.
abbrev node_calls : StageCalls String
node_calls = record {
  head = got tt;
  miner_addr = got "f01000";
  worker_addr = got "f3key";
  sealed_cid = got tt;
  marshal = λ p. got [];
  method_of = λ k. 7;
  msg = record {
    new_from_string = λ s. got s;
    parse_fil = λ s. got 1;
    push_message = λ m fee. got m.from;
  };
}

abbrev by_node : Called String → Sent × Miner
by_node pushed =
    send_stage memory_env prove_commit (pos 1000) "s9"
      (record node_calls { msg = record node_calls.msg { push_message = λ m fee. pushed } }) any "0"
      "1" miner

node_waits :
    (by_node (got "bafy")).0
    ≡ waiting "bafy" 0 (params_of prove_commit (pos 1555200) ready_to_commit)
unfolding evaluated ready
node_waits = refl

-- A message that the node refuses fails the task and closes the session.
node_refuses : (by_node (lost "not enough funds")).1.req_session ≡ []
unfolding evaluated ready
node_refuses = refl

-- The callback of a message that has landed panics.
landed :
    answer_stage memory_env prove_commit
      (pos 1000)
      "s9"
      (got (3, 1))
      (pos 5)
      (told "bafy" exit_text (got exit_ok))
      (by_node (got "bafy")).1
    ≡ none
unfolding ready
landed = refl
