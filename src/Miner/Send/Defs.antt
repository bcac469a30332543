-- ===== src/Miner/Send/Defs.antt =====
-- miner/sendmsgbypri.go: SendPreCommitByPrivatKey, SendCommitByPrivatKey and sendMsgByPrivatKey.
use filecoin_sealer.Prelude.{ℕ, Bool, true, String, List, [], ◌∷◌, ℤ, pos, ◌+ℤ◌, Called, got, lost}
use filecoin_sealer.Tables.{TaskType, precommit, commit, RequestInfo, DbTaskInfo, TaskResult}
use filecoin_sealer.Database.{Db, DbError, Env}
use filecoin_sealer.Miner.State.{Miner, Job, Reply, results, refused, store_session, delete_session}
use filecoin_sealer.Miner.Query.{query_task}
use filecoin_sealer.Miner.Receive.{Delivery, recieve_task_result}
use filecoin_sealer.Miner.Tasks.{update_task_log}

-- The two kinds of message.
pub data Kind : Type 0 where
  pre_commit prove_commit : Kind

abbrev pub stage_of : Kind → TaskType
stage_of pre_commit = precommit
stage_of prove_commit = commit

-- `NsSectorPreCommitInfo` and `NsProveCommitSectorParams`
pub data Params : Type 0 where
  pre_commit_info : ℤ → ℤ → ℤ → String → ℤ → Params
  prove_commit_params : ℤ → List ℕ → Params

abbrev pub params_of : Kind → ℤ → DbTaskInfo → Params
params_of pre_commit expiration r =
    pre_commit_info (r.ticket_epoch +ℤ expiration) r.sector_num r.proof_type r.comm_r r.ticket_epoch
params_of prove_commit expiration r = prove_commit_params r.sector_num r.proof

-- The outcomes of the calls of one send, in order: the deposit and the addresses, the nonce, the
-- CID of the sealed sector (a PRECOMMIT alone), the encoding, and `sendMsgByPrivatKey` with the
-- text of the message's CID.
pub record SendCalls : Type 0 where
  pub parse : Called (Unit {0})
  pub nonce : Called ℕ
  pub sealed_cid : Called (Unit {0})
  pub marshal : Called (Unit {0})
  pub push : Called String

-- How a send ends; `waiting` leaves the goroutine that waits for the receipt.
pub data Sent : Type 0 where
  turned_away : String → Sent
  no_task : DbError → Sent
  no_result : Sent
  reported : String → List Job → Sent
  unreported : String → Sent
  waiting : String → ℕ → Params → Sent

abbrev pub text_result : String → TaskResult
text_result text = record {
  sealed_cid = "";
  unsealed_cid = "";
  seed_epoch = pos 0;
  seed_hex = "";
  dealine_inx = 0;
  partition_inx = 0;
  comm_string = text;
  comm_bytes = [];
}

abbrev pub delivery_of : Kind → ℤ → ℤ → String → Bool → TaskResult → Delivery
delivery_of k actor sector session bad result = record {
  actor_id = actor;
  sector_num = sector;
  task_type = stage_of k;
  req_id = session;
  is_err = bad;
  result = result;
}

abbrev pub log_request : ℤ → String → DbTaskInfo → RequestInfo
log_request actor session r = record {
  actor_id = r.actor_id;
  sector_num = r.sector_num;
  task_type = r.task_type;
  session = session;
  worker_id = "";
  host_name = "";
  worker_listen = "";
  sectors = "";
}

abbrev pub send_request : Kind → ℤ → ℤ → String → RequestInfo
send_request k actor sector session = record {
  actor_id = actor;
  sector_num = sector;
  task_type = stage_of k;
  session = session;
  worker_id = "";
  host_name = "";
  worker_listen = "";
  sectors = "";
}

abbrev pub sealed_cid_if : Kind → SendCalls → Called (Unit {0})
sealed_cid_if pre_commit c = c.sealed_cid
sealed_cid_if prove_commit c = got tt

module _ (env : Env) (k : Kind) (actor : ℤ) (session : String) where
  -- RecieveTaskResult, and `m.ReqSession.Delete(session)` whatever it answered.
  unfoldable pub settle_session : ℤ → Bool → TaskResult → Miner → List Job × Miner
  settle_session sector bad result m =
      let (e, jobs, db) =
        recieve_task_result env (delivery_of k actor sector session bad result) m.db in
      (jobs, record m { db = db; req_session = delete_session session m.req_session })

  -- The deferred function, when the function's own `err` is set.
  abbrev pub give_up : DbTaskInfo → String → Miner → Sent × Miner
  give_up r text m =
      let (jobs, m') = settle_session r.sector_num true (text_result text) m in
      (reported text jobs, m')

  abbrev pub pushed : DbTaskInfo → ℕ → Called String → Miner → Sent × Miner
  pushed r nonce (lost e) m = give_up r e m
  pushed r nonce (got cid) m = (
    waiting cid nonce (params_of k m.sector_expiration r),
    record m { db = (update_task_log env (log_request actor session r) cid m.db).1 },
  )

  -- The error of `MarshalCBOR` is a variable of its own, which the deferred function does not see.
  abbrev pub encoded : DbTaskInfo → ℕ → SendCalls → Called (Unit {0}) → Miner → Sent × Miner
  encoded r nonce c (lost e) m = (unreported e, m)
  encoded r nonce c (got _) m = pushed r nonce c.push m

  abbrev pub parsed : DbTaskInfo → ℕ → SendCalls → Called (Unit {0}) → Miner → Sent × Miner
  parsed r nonce c (lost e) m = give_up r e m
  parsed r nonce c (got _) m = encoded r nonce c c.marshal m

  abbrev pub with_nonce : DbTaskInfo → SendCalls → Called ℕ → Miner → Sent × Miner
  with_nonce r c (lost e) m = give_up r e m
  with_nonce r c (got n) m = parsed r n c (sealed_cid_if k c) m

  abbrev pub drawn : SendCalls → Miner → Reply × Db → Sent × Miner
  drawn c m (refused e, db) = (no_task e, record m { db = db })
  drawn c m (results [], db) = (no_result, record m { db = db })
  drawn c m (results (r ∷ rs), db) =
      with_nonce r c c.nonce
        (record m { db = db; req_session = store_session session m.req_session })

  abbrev pub send_if : Called (Unit {0}) → SendCalls → ℤ → Miner → Sent × Miner
  send_if (lost e) c sector m = (turned_away e, m)
  send_if (got _) c sector m = drawn c m (query_task env (send_request k actor sector session) m.db)

  -- SendPreCommitByPrivatKey and SendCommitByPrivatKey
  unfoldable pub send_by_privat_key : SendCalls → ℤ → Miner → Sent × Miner
  send_by_privat_key c sector m = send_if c.parse c sector m
