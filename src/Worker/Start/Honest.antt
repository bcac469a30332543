-- ===== src/Worker/Start/Honest.antt =====
-- What TaskRun hands over.
use filecoin_sealer.Prelude.{
  ◌≡◌, ◌≢◌, refl, sym, ap, ◌∙◌, List, Option, none, some, String, ℕ, true, str_eq, if◌then◌else◌,
}
use filecoin_sealer.Tables.{TaskType, pc1, pc2, c1, c2, DbTaskInfo, TaskResult, task_eq}
use filecoin_sealer.Worker.Process.Local.{
  Step, done, fault, commit1_output, ◌>>◌, Call, fault_of, bytes_of, blank_result,
}
use filecoin_sealer.Worker.Report.{Link}
use filecoin_sealer.Worker.Start.Defs.{is_sealing}
use filecoin_sealer.Worker.Start.Child.{
  with_cids, ChildCalls, child_phase1, recovered, run_stage, task_run,
}

-- The calls of a stage have all succeeded, and the result is what its last call returned.
abbrev pub IsSealed : TaskType → ChildCalls → TaskResult → Type 0
IsSealed pc1 c out =
    (c.phase1.ram_in_bytes ≡ done tt)
    × ((if str_eq c.phase1.ticket_hex "" then c.phase1.get_ticket else c.phase1.decode_ticket)
        ≡ done tt)
    × (c.phase1.piece_info ≡ done tt)
    × (c.phase1.seal ≡ done out.comm_bytes)
IsSealed pc2 c out =
    (c.phase2.failure ≡ none)
    × (out.sealed_cid ≡ c.phase2.sealed_cid)
    × (out.unsealed_cid ≡ c.phase2.unsealed_cid)
IsSealed c1 c out =
    (c.commit1.ram_in_bytes ≡ done tt)
    × (c.commit1.parse_comm_r ≡ done tt)
    × (c.commit1.parse_comm_d ≡ done tt)
    × (c.commit1.decode_ticket ≡ done tt)
    × (c.commit1.decode_seed ≡ done tt)
    × (c.commit1.piece_info ≡ done tt)
    × (c.commit1.seal ≡ done out.comm_bytes)
IsSealed c2 c out = c.commit2 ≡ done out.comm_bytes
IsSealed _ c out = ⊥

-- A sequence that succeeded: both parts did.
done_both :
    (a : Call) (k : Step (List ℕ))
    → fault_of (a >> k) ≡ none
    → (a ≡ done tt) × (fault_of k ≡ none) × ((a >> k) ≡ k)
done_both (done tt) k h = (refl, h, refl)
done_both (fault s) k h = cc

done_bytes : (k : Step (List ℕ)) → fault_of k ≡ none → k ≡ done (bytes_of k)
done_bytes (done b) h = refl
done_bytes (fault s) h = cc

run_stage-IsSealed :
    (t : TaskType) (c : ChildCalls)
    → is_sealing t ≡ true
    → (run_stage t c).1 ≡ none
    → IsSealed t c (run_stage t c).0
unfolding run_stage child_phase1 commit1_output task_eq
run_stage-IsSealed pc1 c s h =
    let p = c.phase1 in
    let ticket = if str_eq p.ticket_hex "" then p.get_ticket else p.decode_ticket in
    let (a, h1, e1) = done_both p.ram_in_bytes (ticket >> (p.piece_info >> p.seal)) h in
    let (b, h2, e2) = done_both ticket (p.piece_info >> p.seal) h1 in
    let (d, h3, e3) = done_both p.piece_info p.seal h2 in
    (a, b, d, done_bytes p.seal h3 ∙ ap (λ x. done (bytes_of x)) (sym (e1 ∙ e2 ∙ e3)))
run_stage-IsSealed pc2 c s h = (
  h,
  ap (λ x. (with_cids c.phase2 x).sealed_cid) h,
  ap (λ x. (with_cids c.phase2 x).unsealed_cid) h,
)
run_stage-IsSealed c1 c s h =
    let p = c.commit1 in
    let (a, h1, e1) = done_both p.ram_in_bytes _ h in
    let (b, h2, e2) = done_both p.parse_comm_r _ h1 in
    let (d, h3, e3) = done_both p.parse_comm_d _ h2 in
    let (f, h4, e4) = done_both p.decode_ticket _ h3 in
    let (g, h5, e5) = done_both p.decode_seed _ h4 in
    let (i, h6, e6) = done_both p.piece_info p.seal h5 in
    (
      a,
      b,
      d,
      f,
      g,
      i,
      done_bytes p.seal h6 ∙ ap (λ x. done (bytes_of x)) (sym (e1 ∙ e2 ∙ e3 ∙ e4 ∙ e5 ∙ e6)),
    )
run_stage-IsSealed c2 c s h = done_bytes c.commit2 h
run_stage-IsSealed _ c s h = absurd (cc s)

recovered-IsSealed :
    (t : TaskType) (c : ChildCalls) (p : Option (Option String))
    → is_sealing t ≡ true
    → p ≢ some none
    → (recovered p (run_stage t c)).1 ≡ none
    → IsSealed t c (recovered p (run_stage t c)).0
recovered-IsSealed t c none s n h = run_stage-IsSealed t c s h
recovered-IsSealed t c (some none) s n h = absurd (n refl)
recovered-IsSealed t c (some (some e)) s n h = cc

-- A call that panics with a value that is no error leaves no error: a blank result is handed over as
-- a success.
pub panic_handed :
    (link : Link) (r : DbTaskInfo) (c : ChildCalls)
    → c.panic ≡ some none
    → (task_run link r c).handed ≡ record { result = blank_result; process_err = none }
unfolding task_run
panic_handed link r c e = rw e refl

-- If no call of the stage panics with a value that is no error, a result that TaskRun hands over
-- without an error, of a stage that a child may run, is the output of the stage's last call, and every
-- call before that had succeeded.
pub task_run-IsSealed :
    (link : Link) (r : DbTaskInfo) (c : ChildCalls)
    → is_sealing r.task_type ≡ true
    → c.panic ≢ some none
    → (task_run link r c).handed.process_err ≡ none
    → IsSealed r.task_type c (task_run link r c).handed.result
unfolding task_run
task_run-IsSealed link r c s n h = recovered-IsSealed r.task_type c c.panic s n h
