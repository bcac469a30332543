-- ===== src/Miner/Message/Defs.antt =====
-- miner/sendmsg.go: SendMsg, SendPreCommit and SendCommit.
use filecoin_sealer.Prelude.{
  ℕ, Bool, true, false, String, List, [], ◌∷◌, Option, some, none, ℤ, Called, got, lost, ◌>>=◌,
}
use filecoin_sealer.Tables.{DbTaskInfo}
use filecoin_sealer.Database.{Db, Env}
use filecoin_sealer.Miner.State.{Miner, Job, Reply, results, refused, store_session}
use filecoin_sealer.Miner.Query.{query_task}
use filecoin_sealer.Miner.Tasks.{update_task_log}
use filecoin_sealer.Miner.Send.{
  Kind, pre_commit, prove_commit, Params, params_of, Sent, no_task, no_result, unreported, waiting,
  text_result, log_request, send_request, settle_session, give_up,
}
use filecoin_sealer.Miner.Send.Receipt.{
  ExitCode, exit_ok, insufficient_funds, out_of_gas, other_exit,
}

-- `NsMessage`, as SendMsg fills it; `A` is the type of addresses.
pub record ChainMessage (A : Type 0) : Type 0 where
  pub to : A
  pub from : A
  pub value : ℕ
  pub method : ℕ
  pub params : List ℕ

-- What SendMsg calls, up to `MpoolPushMessage`, which takes the highest fee and answers the CID.
pub record MsgCalls (A : Type 0) : Type 0 where
  pub new_from_string : String → Called A
  pub parse_fil : String → Called ℕ
  pub push_message : ChainMessage A → ℕ → Called String

unfoldable pub send_msg :
    {A : Type 0} → MsgCalls A → String → String → ℕ → String → String → List ℕ → Called String
send_msg calls from to method deposit fee params = do
  to_addr ← calls.new_from_string to
  from_addr ← calls.new_from_string from
  deposit_fil ← calls.parse_fil deposit
  fee_fil ← calls.parse_fil fee
  calls.push_message
      (record {
        to = to_addr;
        from = from_addr;
        value = deposit_fil;
        method = method;
        params = params;
      })
      fee_fil

-- What the goroutine of SendMsg calls the callback with, by the answer of `StateWaitMsg`.
unfoldable pub told : String → (ℕ → String) → Called ExitCode → Bool × String
told cid exit_text (lost e) = (true, e)
told cid exit_text (got exit_ok) = (false, cid)
told cid exit_text (got insufficient_funds) = (true, "SysErrOutOfGas")
told cid exit_text (got out_of_gas) = (true, "SysErrOutOfGas")
told cid exit_text (got (other_exit n)) = (true, exit_text n)

-- The outcomes of the calls of one send, in order: the head, the miner's address, the worker's
-- address in its state there, the CID of the sealed sector (a PRECOMMIT alone), and the encoding.
pub record StageCalls (A : Type 0) : Type 0 where
  pub head : Called (Unit {0})
  pub miner_addr : Called String
  pub worker_addr : Called String
  pub sealed_cid : Called (Unit {0})
  pub marshal : Params → Called (List ℕ)
  pub method_of : Kind → ℕ
  pub msg : MsgCalls A

abbrev pub with_session : String → Miner → Miner
with_session s m = record m { req_session = store_session s m.req_session }

module _ (env : Env) (k : Kind) (actor : ℤ) (session : String) where
  -- The row of the log is written whether SendMsg failed or not, with a blank CID if it did.
  abbrev pub logged : DbTaskInfo → String → Miner → Miner
  logged r cid m = record m { db = (update_task_log env (log_request actor session r) cid m.db).1 }

  -- The nonce is the node's affair, so none is in the answer.
  abbrev pub sent_off : DbTaskInfo → Called String → Miner → Sent × Miner
  sent_off r (lost e) m = give_up env k actor session r e (logged r "" m)
  sent_off r (got cid) m = (waiting cid 0 (params_of k m.sector_expiration r), logged r cid m)

-- The callback, where `none` is a panic of its goroutine: the one of a COMMIT reads the text of the
-- error of StateSectorPartition, also when there is none.
unfoldable pub answer_stage :
    Env → Kind → ℤ → String → Called (ℕ × ℕ) → ℤ → Bool × String → Miner → Option (List Job × Miner)
answer_stage env pre_commit actor session place sector (bad, text) m =
    some (settle_session env pre_commit actor session sector bad (text_result text) m)
answer_stage env prove_commit actor session (got place) sector (bad, text) m = none
answer_stage env prove_commit actor session (lost e) sector (bad, text) m =
    some (settle_session env prove_commit actor session sector bad (text_result text) m)

module _ {A : Type 0} (env : Env) (k : Kind) (actor : ℤ) (session : String) where
  -- The error of `MarshalCBOR` is a variable of its own, which the deferred function does not see.
  abbrev pub pushed_by :
      StageCalls A
      → String
      → String
      → String
      → String
      → DbTaskInfo
      → Called (List ℕ)
      → Miner
      → Sent × Miner
  pushed_by c to from deposit fee r (lost e) m = (unreported e, m)
  pushed_by c to from deposit fee r (got enc) m =
      sent_off env k actor session r (send_msg c.msg from to (c.method_of k) deposit fee enc) m

  abbrev pub filled :
      StageCalls A
      → String
      → String
      → String
      → String
      → DbTaskInfo
      → Called (Unit {0})
      → Miner
      → Sent × Miner
  filled c to from deposit fee r (lost e) m = give_up env k actor session r e m
  filled c to from deposit fee r (got _) m =
      pushed_by c to from deposit fee r (c.marshal (params_of k m.sector_expiration r)) m

  abbrev pub cid_parsed : Kind → StageCalls A → Called (Unit {0})
  cid_parsed pre_commit c = c.sealed_cid
  cid_parsed prove_commit c = got tt

  abbrev pub addressed :
      StageCalls A → String → String → DbTaskInfo → Called (String × String) → Miner → Sent × Miner
  addressed c deposit fee r (lost e) m = give_up env k actor session r e m
  addressed c deposit fee r (got (to, from)) m = filled c to from deposit fee r (cid_parsed k c) m

  abbrev pub addresses : StageCalls A → Called (String × String)
  addresses c = do to ← c.miner_addr; from ← c.worker_addr; got (to, from)

  -- SendPreCommit stores the session before it asks for the head, SendCommit after.
  abbrev pub on_head :
      Kind → StageCalls A → String → String → DbTaskInfo → Called (Unit {0}) → Miner → Sent × Miner
  on_head pre_commit c deposit fee r (lost e) m =
      give_up env k actor session r e (with_session session m)
  on_head prove_commit c deposit fee r (lost e) m = (unreported e, m)
  on_head _ c deposit fee r (got _) m =
      addressed c deposit fee r (addresses c) (with_session session m)

  abbrev pub task_drawn : StageCalls A → String → String → Miner → Reply × Db → Sent × Miner
  task_drawn c deposit fee m (refused e, db) = (no_task e, record m { db = db })
  task_drawn c deposit fee m (results [], db) = (no_result, record m { db = db })
  task_drawn c deposit fee m (results (r ∷ rs), db) =
      on_head k c deposit fee r c.head (record m { db = db })

  -- SendPreCommit and SendCommit
  unfoldable pub send_stage : StageCalls A → ℤ → String → String → Miner → Sent × Miner
  send_stage c sector deposit fee m =
      task_drawn c deposit fee m (query_task env (send_request k actor sector session) m.db)
