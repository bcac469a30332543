-- ===== src/Miner/Failure/Rules.antt =====
-- The choice of a rule, against its description: the first rule that applies decides.
use filecoin_sealer.Prelude.{
  ℕ, ◌≡◌, refl, inl, inr, Bool, true, false, ◌&&◌, String, List, [], ◌∷◌, ℤ, pos, ltb_ℤ, arith,
  Member, select, subst, ◌<ℤ◌, ◌≤ℤ◌, Bool-cases, All, All-Member, ◌≢◌,
}
use filecoin_sealer.Tables.{DbTaskFailed, ExecType, exec_retry, exec_next, exec_other}
use filecoin_sealer.Miner.Failure.Defs.{contains, Decision, leave, again, onward, decide}

-- The rule's text occurs in the failure, and it is a rule to go on, or one to retry that is not
-- used up.
abbrev pub applies : ℕ → String → DbTaskFailed → Bool
applies count text f = contains text f.err_outline && elim f.exec_type [
  | exec_retry ↦ ltb_ℤ (pos count) f.retry_cnt
  | exec_next ↦ true
  | exec_other s ↦ false
]

abbrev pub verdict : ExecType → ℤ → Decision
verdict exec_retry s = again s
verdict exec_next s = onward s
verdict (exec_other t) s = leave

abbrev pub by_first : List DbTaskFailed → Decision
by_first [] = leave
by_first (f ∷ fs) = verdict f.exec_type f.update_state

-- The loop decides by the first rule that applies, in the order of the table: one whose text is in
-- the failure, and which is of the kind next, or of the kind retry with fewer failures so far than
-- its count.
pub decide_lem :
    (count : ℕ) (text : String) (fs : List DbTaskFailed)
    → decide count text fs ≡ by_first (select (applies count text) fs)
unfolding decide
decide_lem count text [] = refl
decide_lem count text (f ∷ fs) = ground (arith, decide_lem count text fs)

-- A retry is granted by a rule of the table of the kind retry whose text fits and whose count is not
-- reached.
pub decide-again :
    (count : ℕ) (text : String) (s : ℤ) (fs : List DbTaskFailed)
    → decide count text fs ≡ again s
    → (f : DbTaskFailed) × Member f fs
      × (contains text f.err_outline ≡ true)
      × (f.update_state ≡ s)
      × (f.exec_type ≡ exec_retry)
      × (pos count <ℤ f.retry_cnt)
unfolding decide
decide-again count text s [] h = cc
decide-again count text s (f ∷ fs) h = elim (Bool-cases (applies count text f)) [
  | inl fits ↦ (f, inl refl, ground arith, ground arith, ground arith, ground arith)
  | inr passed ↦
      let (x, there, fits, state, kind, below) = decide-again count text s fs (ground arith) in
      (x, inr there, fits, state, kind, below)
]

-- A rule that does not allow one more retry: one of another kind, or a used up one.
abbrev pub Reached : ℕ → ExecType → ℤ → Type 0
Reached count exec_retry n = n ≤ℤ pos count
Reached count exec_next n = Unit {0}
Reached count (exec_other s) n = Unit {0}

abbrev pub UsedUp : ℕ → List DbTaskFailed → Type 0
UsedUp count = All (λ f. Reached count f.exec_type f.retry_cnt)

-- Once the log holds as many of a failure as any rule of the kind retry allows, the decision is not
-- to retry.
pub decide-UsedUp :
    (count : ℕ) (text : String) (s : ℤ) (fs : List DbTaskFailed)
    → UsedUp count fs
    → decide count text fs ≢ again s
decide-UsedUp count text s fs used h =
    let (f, there, _, _, kind, below) = decide-again count text s fs h in
    let reached : f.retry_cnt ≤ℤ pos count =
      subst (λ k. Reached count k f.retry_cnt) kind
        (All-Member (λ r. Reached count r.exec_type r.retry_cnt) f fs used there) in
    absurd (omega arith)
