-- ===== src/Miner/Send/Receipt.antt =====
-- miner/sendmsgbypri.go: how the goroutine of sendMsgByPrivatKey waits for the receipt of a message,
-- and what it tells the callback.
use filecoin_sealer.Prelude.{
  ℕ, zero, suc, ◌≡◌, refl, ◌∙◌, ◌<◌, ◌+◌, Bool, true, false, String, arith,
}

pub data ExitCode : Type 0 where
  exit_ok insufficient_funds out_of_gas : ExitCode
  other_exit : ℕ → ExitCode

-- `StateGetReceipt`: an error, no receipt yet, or a receipt.
pub data Answer : Type 0 where
  failed : String → Answer
  no_receipt : Answer
  receipt : ExitCode → Answer

-- The loop: at most n further calls, the next one the i-th, until there is a receipt.
unfoldable pub await_receipt : (ℕ → Answer) → ℕ → ℕ → Answer → Answer
await_receipt get zero i a = a
await_receipt get (suc n) i (receipt x) = receipt x
await_receipt get (suc n) i no_receipt = await_receipt get n (suc i) (get i)
await_receipt get (suc n) i (failed e) = await_receipt get n (suc i) (get i)

-- What the callback is called with; the texts with the CID and the exit code are functions of them.
abbrev pub verdict : String → (ℕ → String) → String → Answer → Bool × String
verdict cid exit_text nil_text (failed e) = (true, e)
verdict cid exit_text nil_text no_receipt = (true, nil_text)
verdict cid exit_text nil_text (receipt exit_ok) = (false, cid)
verdict cid exit_text nil_text (receipt insufficient_funds) = (true, "SysErrOutOfGas")
verdict cid exit_text nil_text (receipt out_of_gas) = (true, "SysErrOutOfGas")
verdict cid exit_text nil_text (receipt (other_exit n)) = (true, exit_text n)

unfoldable pub callback_of : String → (ℕ → String) → String → (ℕ → Answer) → Bool × String
callback_of cid exit_text nil_text get =
    verdict cid exit_text nil_text (await_receipt get 10 1 (get 0))

await_receipt-Answer :
    (get : ℕ → Answer) (n i j : ℕ) (a : Answer)
    → get j ≡ a
    → j < i
    → (l : ℕ) × (l < i + n) × (get l ≡ await_receipt get n i a)
unfolding await_receipt
await_receipt-Answer get zero i j a e below = (j, omega arith, e)
await_receipt-Answer get (suc n) i j (receipt x) e below = (j, omega arith, e)
await_receipt-Answer get (suc n) i j no_receipt e below =
    let (l, under, found) = await_receipt-Answer get n (suc i) i (get i) refl (omega arith) in
    (l, omega arith, found)
await_receipt-Answer get (suc n) i j (failed x) e below =
    let (l, under, found) = await_receipt-Answer get n (suc i) i (get i) refl (omega arith) in
    (l, omega arith, found)

verdict_ok :
    (cid : String) (exit_text : ℕ → String) (nil_text : String) (a : Answer)
    → (verdict cid exit_text nil_text a).0 ≡ false
    → (a ≡ receipt exit_ok) × ((verdict cid exit_text nil_text a).1 ≡ cid)
verdict_ok cid exit_text nil_text (failed e) h = cc
verdict_ok cid exit_text nil_text no_receipt h = cc
verdict_ok cid exit_text nil_text (receipt exit_ok) h = (refl, refl)
verdict_ok cid exit_text nil_text (receipt insufficient_funds) h = cc
verdict_ok cid exit_text nil_text (receipt out_of_gas) h = cc
verdict_ok cid exit_text nil_text (receipt (other_exit n)) h = cc

-- A message is reported as a success only when one of at most eleven calls returned a receipt with
-- the exit code Ok, and then with the CID of the message.
pub callback_of-ok :
    (cid : String) (exit_text : ℕ → String) (nil_text : String) (get : ℕ → Answer)
    → (callback_of cid exit_text nil_text get).0 ≡ false
    → ((callback_of cid exit_text nil_text get).1 ≡ cid)
      × ((i : ℕ) × (i < 11) × (get i ≡ receipt exit_ok))
unfolding callback_of
callback_of-ok cid exit_text nil_text get h =
    let (fine, text) = verdict_ok cid exit_text nil_text (await_receipt get 10 1 (get 0)) h in
    let (i, under, found) = await_receipt-Answer get 10 1 0 (get 0) refl (omega arith) in
    (text, (i, omega arith, found ∙ fine))
