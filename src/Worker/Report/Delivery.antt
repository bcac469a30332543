-- ===== src/Worker/Report/Delivery.antt =====
-- How often a result is sent, and what a nil error means.
use filecoin_sealer.Prelude.{
  ℕ, zero, suc, ◌+◌, ◌≤◌, ◌<◌, ◌≡◌, refl, sym, ap, ◌∙◌, ◌≢◌, inl, inr, Bool, true, false, String,
  Option, none, some, ℤ, arith, Option-cases,
}
use filecoin_sealer.Tables.{TaskType, TaskResult}
use filecoin_sealer.Worker.Report.Defs.{
  Link, Attempt, returned, check_round, send_round, rounds, first_attempt, defer_miner_recieve,
  miner_api_err, calls, FailedTask, Failures, get_failed, keep_failed,
}

round-sent :
    (link : Link) (i : ℕ) (a b : Attempt)
    → check_round link i a ≡ some b
    → (send_round link i b).sent ≤ suc a.sent
round-sent link i a b h = ground arith

rounds-calls : (link : Link) (n i : ℕ) (a : Attempt) → calls (rounds link n i a) ≤ a.sent + n
unfolding rounds
rounds-calls link zero i a = omega arith
rounds-calls link (suc n) i a = elim (Option-cases a.receive_err) [
  | inl fine ↦ ground arith
  | inr (e, failed) ↦ elim (Option-cases (check_round link i a)) [
    | inl panic ↦ rw (failed, rounds) (rw panic (omega arith))
    | inr (b, next) ↦
        rw (failed, rounds)
          (rw next (
            omega (
              arith,
              round-sent link i a b next,
              rounds-calls link n (suc i) (send_round link i b),
            )))
  ]
]

-- One report makes at most six calls of RecieveTaskResult.
pub defer_miner_recieve-calls :
    (link : Link) (connected : Bool) → calls (defer_miner_recieve link connected) ≤ 6
unfolding defer_miner_recieve
defer_miner_recieve-calls link false = omega arith
defer_miner_recieve-calls link true = omega (arith, rounds-calls link 5 1 (first_attempt link))

-- The error variable always holds the answer of a call that was made.
abbrev Answered : Link → ℕ → Attempt → Type 0
Answered link i a = (j : ℕ) × (j < i) × (a.receive_err ≡ link.receive j)

round-Answered :
    (link : Link) (i : ℕ) (a b : Attempt)
    → check_round link i a ≡ some b
    → Answered link i a
    → Answered link (suc i) (send_round link i b)
round-Answered link i a b h (j, below, e) = elim (Option-cases b.reconnect_err) [
  | inl sent ↦ (i, omega arith, ground arith)
  | inr (x, skipped) ↦ (j, omega arith, ground arith)
]

rounds-Answered :
    (link : Link) (n i : ℕ) (a : Attempt)
    → ((j : ℕ) → link.check_server j ≢ none)
    → Answered link i a
    → (b : Attempt) × (rounds link n i a ≡ returned b) × Answered link (i + n) b
unfolding rounds
rounds-Answered link zero i a alive (j, below, e) = (a, refl, (j, omega arith, e))
rounds-Answered link (suc n) i a alive (j, below, e) = elim (Option-cases a.receive_err) [
  | inl fine ↦ (a, ground arith, (j, omega arith, e))
  | inr (x, failed) ↦ elim (Option-cases (check_round link i a)) [
    | inl panic ↦ absurd (alive i (ground arith))
    | inr (b, next) ↦
        let (c, ran, (k, under, answer)) =
          rounds-Answered link n (suc i) (send_round link i b) alive
            (round-Answered link i a b next (j, below, e)) in
        (c, rw (failed, rounds) (rw next ran), (k, omega arith, answer))
  ]
]

-- If CheckServer never panics, a nil error from a connection means that one of the first six calls
-- was answered without an error.
pub defer_miner_recieve_delivers :
    (link : Link)
    → ((i : ℕ) → link.check_server i ≢ none)
    → miner_api_err (defer_miner_recieve link true) ≡ none
    → (i : ℕ) × (i < 6) × (link.receive i ≡ none)
unfolding defer_miner_recieve
defer_miner_recieve_delivers link alive h =
    let (b, ran, (j, below, answer)) =
      rounds-Answered link 5 1 (first_attempt link) alive (0, omega arith, refl) in
    (j, omega arith, sym answer ∙ sym (ap miner_api_err ran) ∙ h)

-- With a nil `minerApi` nothing is sent, and yet no error is seen and nothing is kept.
pub nil_api_loses :
    (link : Link) (actor sector : ℤ) (t : TaskType) (session : String) (r : TaskResult)
    (e : Option String) (m : Failures)
    → (calls (defer_miner_recieve link false) ≡ 0)
      × ((keep_failed actor sector t session r e (defer_miner_recieve link false) m).0 ≡ m)
unfolding defer_miner_recieve keep_failed
nil_api_loses link actor sector t session r e m = (refl, refl)

-- What is kept of a result: the process's error if it had one, and else the output.
abbrev pub IsOutcome : TaskResult → Option String → FailedTask → Type 0
IsOutcome r none f = (f.is_err ≡ false) × (f.bytes ≡ r.comm_bytes)
IsOutcome r (some e) f = (f.is_err ≡ true) × (f.text ≡ e)

-- What is kept of a result that was not delivered, and that nothing else is lost.
pub record IsKept (actor sector : ℤ) (t : TaskType) (session : String) (r : TaskResult)
    (e : Option String) (before after : Failures) : Type 0 where
  pub task : FailedTask
  pub found : get_failed session after ≡ some task
  pub actor_of : task.actor_id ≡ actor
  pub sector_of : task.sector_num ≡ sector
  pub type_of : task.task_type ≡ t
  pub outcome : IsOutcome r e task
  pub others : (k : String) → session ≢ k → get_failed k after ≡ get_failed k before
