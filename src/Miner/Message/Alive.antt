-- ===== src/Miner/Message/Alive.antt =====
-- miner/sendmsg.go: the session of a send is alive only while its message waits for a receipt.
use filecoin_sealer.Prelude.{
  ℕ, ◌≡◌, refl, sym, ap, ◌∙◌, Bool, true, false, String, List, [], ◌∷◌, ℤ, Called, got, lost,
  Option, some, inl, inr,
}
use filecoin_sealer.Tables.{DbTaskInfo}
use filecoin_sealer.Database.{Db, Env}
use filecoin_sealer.Miner.State.{Miner, Job, Reply, results, refused, check_session}
use filecoin_sealer.Miner.Query.{query_task}
use filecoin_sealer.Miner.Send.{
  Kind, pre_commit, prove_commit, Sent, params_of, text_result, send_request,
}
use filecoin_sealer.Miner.Send.Session.{IsOver, IsOpen, IsOpen-or_IsOver, settle_session-closed}
use filecoin_sealer.Miner.Message.Defs.{
  StageCalls, logged, with_session, sent_off, pushed_by, filled, cid_parsed, addressed, addresses,
  on_head, task_drawn, send_stage, send_msg, answer_stage,
}

module _ {A : Type 0} (env : Env) (k : Kind) (actor : ℤ) (session : String) (c : StageCalls A)
    (deposit fee : String) where
  -- Where a function of the send leaves the session closed, if the send is over.
  abbrev Closes : Sent × Miner → Type 0
  Closes x = IsOver env k actor session x.0 → check_session session x.1.req_session ≡ false

  sent_off-closed :
      (r : DbTaskInfo) (x : Called String) (m : Miner) → Closes (sent_off env k actor session r x m)
  sent_off-closed r (lost e) m h =
      settle_session-closed env k actor session r.sector_num true (text_result e)
        (logged env k actor session r "" m)
  sent_off-closed r (got cid) m h = absurd h

  pushed_by-closed :
      (to from : String) (r : DbTaskInfo) (x : Called (List ℕ)) (m : Miner)
      → Closes (pushed_by env k actor session c to from deposit fee r x m)
  pushed_by-closed to from r (lost e) m h = absurd h
  pushed_by-closed to from r (got enc) m h =
      sent_off-closed r (send_msg c.msg from to (c.method_of k) deposit fee enc) m h

  filled-closed :
      (to from : String) (r : DbTaskInfo) (x : Called (Unit {0})) (m : Miner)
      → Closes (filled env k actor session c to from deposit fee r x m)
  filled-closed to from r (lost e) m h =
      settle_session-closed env k actor session r.sector_num true (text_result e) m
  filled-closed to from r (got x) m h =
      pushed_by-closed to from r (c.marshal (params_of k m.sector_expiration r)) m h

  addressed-closed :
      (r : DbTaskInfo) (x : Called (String × String)) (m : Miner)
      → Closes (addressed env k actor session c deposit fee r x m)
  addressed-closed r (lost e) m h =
      settle_session-closed env k actor session r.sector_num true (text_result e) m
  addressed-closed r (got (to, from)) m h =
      filled-closed to from r (cid_parsed env k actor session k c) m h

  on_head-closed :
      (j : Kind) (r : DbTaskInfo) (x : Called (Unit {0})) (m : Miner)
      → check_session session m.req_session ≡ false
      → Closes (on_head env k actor session j c deposit fee r x m)
  on_head-closed pre_commit r (lost e) m fresh h =
      settle_session-closed env k actor session r.sector_num true (text_result e)
        (with_session session m)
  on_head-closed prove_commit r (lost e) m fresh h = fresh
  on_head-closed pre_commit r (got x) m fresh h =
      addressed-closed r (addresses env k actor session c) (with_session session m) h
  on_head-closed prove_commit r (got x) m fresh h =
      addressed-closed r (addresses env k actor session c) (with_session session m) h

  task_drawn-closed :
      (x : Reply × Db) (m : Miner)
      → check_session session m.req_session ≡ false
      → Closes (task_drawn env k actor session c deposit fee m x)
  task_drawn-closed (refused e, db) m fresh h = fresh
  task_drawn-closed (results [], db) m fresh h = fresh
  task_drawn-closed (results (r ∷ rs), db) m fresh h =
      on_head-closed k r c.head (record m { db = db }) fresh h

  -- If a fresh session is alive after SendPreCommit or SendCommit, its message was pushed and waits
  -- for the receipt, or could not be encoded.
  pub send_stage_alive :
      (sector : ℤ) (m : Miner)
      → check_session session m.req_session ≡ false
      → check_session session (send_stage env k actor session c sector deposit fee m).1.req_session
        ≡ true
      → IsOpen env k actor session (send_stage env k actor session c sector deposit fee m).0
  unfolding send_stage
  send_stage_alive sector m fresh alive =
      elim (IsOpen-or_IsOver env k actor session
        (send_stage env k actor session c sector deposit fee m).0) [
          | inl o ↦ o
          | inr over ↦ absurd (
              cc (
                task_drawn-closed (query_task env (send_request k actor sector session) m.db) m
                    fresh over,
                alive,
              ))
        ]

closed_by :
    (session : String) {x : List Job × Miner} {jobs : List Job} {m : Miner}
    → ◌≡◌ {A = Option (List Job × Miner)} (some x) (some (jobs, m))
    → check_session session x.1.req_session ≡ false
    → check_session session m.req_session ≡ false
closed_by session {x} {jobs} {m} e h =
    let same : x ≡ (jobs, m) = cc in ap (λ y. check_session session y.1.req_session) (sym same) ∙ h

-- A callback that is answered closes its session; the one of a COMMIT is answered only when the
-- chain's node does not know where the sector is proved.
pub answer_stage_closes :
    (env : Env) (k : Kind) (actor : ℤ) (session : String) (place : Called (ℕ × ℕ)) (sector : ℤ)
    (told : Bool × String) (m m' : Miner) (jobs : List Job)
    → answer_stage env k actor session place sector told m ≡ some (jobs, m')
    → (check_session session m'.req_session ≡ false)
      × (k ≡ prove_commit → (text : String) × (place ≡ lost text))
unfolding answer_stage
answer_stage_closes env pre_commit actor session place sector (bad, text) m m' jobs e = (
  closed_by session e
      (settle_session-closed env pre_commit actor session sector bad (text_result text) m),
  λ h. absurd cc,
)
answer_stage_closes env prove_commit actor session (got p) sector (bad, text) m m' jobs e =
    absurd cc
answer_stage_closes env prove_commit actor session (lost x) sector (bad, text) m m' jobs e = (
  closed_by session e
      (settle_session-closed env prove_commit actor session sector bad (text_result text) m),
  λ h. (x, refl),
)
