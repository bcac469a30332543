-- ===== src/Miner/Send/Session.antt =====
-- The session of a send: it is alive only while its message waits for a receipt, unless the message
-- could not be encoded.
use filecoin_sealer.Prelude.{
  Called, got, lost, ◌≡◌, refl, Bool, true, false, String, List, [], ◌∷◌, ℤ, arith, ◌⊎◌, inl, inr,
  ℕ,
}
use Prim.Native.String.{◌++◌}
use filecoin_sealer.Tables.{DbTaskInfo, TaskResult}
use filecoin_sealer.Database.{Db, Env}
use filecoin_sealer.Miner.State.{
  Miner, Job, Reply, results, refused, check_session, store_session, delete_session,
}
use filecoin_sealer.Miner.Query.{query_task}
use filecoin_sealer.Miner.Send.Defs.{
  Kind, pre_commit, prove_commit, Params, SendCalls, Sent, unreported, waiting, text_result,
  settle_session, pushed, encoded, parsed, with_nonce, drawn, send_if, send_by_privat_key,
  send_request, sealed_cid_if,
}

-- The result that the callback of a COMMIT delivers: where the sector is proved, or why that is not
-- known.
abbrev pub placed_result : Called (ℕ × ℕ) → String → TaskResult
placed_result (got (deadline, partition)) text = record (text_result text) {
  dealine_inx = deadline;
  partition_inx = partition;
}
placed_result (lost e) text = text_result (text ++ (";" ++ e))

-- The callback.
abbrev pub call_back :
    Env → Kind → ℤ → String → Called (ℕ × ℕ) → ℤ → Bool × String → Miner → List Job × Miner
call_back env pre_commit actor session place sector (bad, text) m =
    settle_session env pre_commit actor session sector bad (text_result text) m
call_back env prove_commit actor session place sector (bad, text) m =
    settle_session env prove_commit actor session sector bad (placed_result place text) m

check-delete_session :
    (s : String) (xs : List String) → check_session s (delete_session s xs) ≡ false
unfolding check_session delete_session
check-delete_session s [] = refl
check-delete_session s (x ∷ xs) = ground (arith, check-delete_session s xs)

module _ (env : Env) (k : Kind) (actor : ℤ) (session : String) where
  pub settle_session-closed :
      (sector : ℤ) (bad : Bool) (result : TaskResult) (m : Miner)
      → check_session session (settle_session env k actor session sector bad result m).1.req_session
        ≡ false
  unfolding settle_session
  settle_session-closed sector bad result m = check-delete_session session m.req_session

  -- Every end of a send but the two that leave the session to somebody else.
  abbrev pub IsOver : Sent → Type 0
  IsOver (waiting cid nonce params) = ⊥
  IsOver (unreported e) = ⊥
  IsOver _ = Unit

  pushed-closed :
      (r : DbTaskInfo) (nonce : ℕ) (push : Called String) (m : Miner)
      → IsOver (pushed env k actor session r nonce push m).0
      → check_session session (pushed env k actor session r nonce push m).1.req_session ≡ false
  pushed-closed r nonce (lost e) m h = settle_session-closed r.sector_num true (text_result e) m
  pushed-closed r nonce (got cid) m h = absurd h

  encoded-closed :
      (r : DbTaskInfo) (nonce : ℕ) (c : SendCalls) (x : Called (Unit {0})) (m : Miner)
      → IsOver (encoded env k actor session r nonce c x m).0
      → check_session session (encoded env k actor session r nonce c x m).1.req_session ≡ false
  encoded-closed r nonce c (lost e) m h = absurd h
  encoded-closed r nonce c (got x) m h = pushed-closed r nonce c.push m h

  parsed-closed :
      (r : DbTaskInfo) (nonce : ℕ) (c : SendCalls) (x : Called (Unit {0})) (m : Miner)
      → IsOver (parsed env k actor session r nonce c x m).0
      → check_session session (parsed env k actor session r nonce c x m).1.req_session ≡ false
  parsed-closed r nonce c (lost e) m h = settle_session-closed r.sector_num true (text_result e) m
  parsed-closed r nonce c (got x) m h = encoded-closed r nonce c c.marshal m h

  with_nonce-closed :
      (r : DbTaskInfo) (c : SendCalls) (x : Called ℕ) (m : Miner)
      → IsOver (with_nonce env k actor session r c x m).0
      → check_session session (with_nonce env k actor session r c x m).1.req_session ≡ false
  with_nonce-closed r c (lost e) m h = settle_session-closed r.sector_num true (text_result e) m
  with_nonce-closed r c (got n) m h = parsed-closed r n c (sealed_cid_if k c) m h

  drawn-closed :
      (c : SendCalls) (m : Miner) (x : Reply × Db)
      → check_session session m.req_session ≡ false
      → IsOver (drawn env k actor session c m x).0
      → check_session session (drawn env k actor session c m x).1.req_session ≡ false
  drawn-closed c m (refused e, db) fresh h = fresh
  drawn-closed c m (results [], db) fresh h = fresh
  drawn-closed c m (results (r ∷ rs), db) fresh h =
      with_nonce-closed r c c.nonce
        (record m { db = db; req_session = store_session session m.req_session }) h

  send_if-closed :
      (x : Called (Unit {0})) (c : SendCalls) (sector : ℤ) (m : Miner)
      → check_session session m.req_session ≡ false
      → IsOver (send_if env k actor session x c sector m).0
      → check_session session (send_if env k actor session x c sector m).1.req_session ≡ false
  send_if-closed (lost e) c sector m fresh h = fresh
  send_if-closed (got x) c sector m fresh h =
      drawn-closed c m (query_task env (send_request k actor sector session) m.db) fresh h

  -- The two ends that leave the session alive: a message that waits for its receipt, or one that
  -- could not be encoded.
  abbrev pub IsOpen : Sent → Type 0
  IsOpen s =
      ((cid : String) × (nonce : ℕ) × (params : Params) × (s ≡ waiting cid nonce params))
      ⊎ ((text : String) × (s ≡ unreported text))

  pub IsOpen-or_IsOver : (s : Sent) → IsOpen s ⊎ IsOver s
  IsOpen-or_IsOver (waiting cid nonce params) = inl (inl (cid, nonce, params, refl))
  IsOpen-or_IsOver (unreported e) = inl (inr (e, refl))
  IsOpen-or_IsOver _ = inr tt

  -- If a fresh session is alive after a send, its message waits for the receipt, or could not be
  -- encoded.
  pub send_alive :
      (c : SendCalls) (sector : ℤ) (m : Miner)
      → check_session session m.req_session ≡ false
      → check_session session (send_by_privat_key env k actor session c sector m).1.req_session
        ≡ true
      → IsOpen (send_by_privat_key env k actor session c sector m).0
  unfolding send_by_privat_key
  send_alive c sector m fresh alive =
      elim (IsOpen-or_IsOver (send_by_privat_key env k actor session c sector m).0) [
        | inl o ↦ o
        | inr over ↦ absurd (cc (send_if-closed c.parse c sector m fresh over, alive))
      ]
