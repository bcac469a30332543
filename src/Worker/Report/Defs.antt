-- ===== src/Worker/Report/Defs.antt =====
-- worker/util.go: deferMinerRecieve; worker/worker.go: DeferMinerRecieve.
use filecoin_sealer.Prelude.{
  ℕ, zero, suc, Bool, true, false, String, List, [], ◌∷◌, Option, none, some, ℤ, str_eq,
  if◌then◌else◌,
}
use filecoin_sealer.Tables.{TaskType, TaskResult, c1, task_eq}

-- What the connection answers in the i-th round: the call of RecieveTaskResult its error, the call
-- of CheckServer its value or a panic (`none`), and a new connection its error.
pub record Link : Type 0 where
  pub receive : ℕ → Option String
  pub check_server : ℕ → Option Bool
  pub dial : ℕ → Option String

-- The variables of the loop: whether `minerApi` is a connection or nil, and the two errors.
pub record Attempt : Type 0 where
  pub connected : Bool
  pub reconnect_err : Option String
  pub receive_err : Option String
  pub sent : ℕ

-- How the function ends: with the loop's variables, or in a panic that it recovers from, which
-- returns a nil error.
pub data Delivered : Type 0 where
  returned : Attempt → Delivered
  recovered : ℕ → Delivered

module _ (link : Link) where
  -- `minerApi.RecieveTaskResult(…)`; a nil `minerApi` panics.
  abbrev pub receive_at : ℕ → Attempt → Attempt
  receive_at i a = record a { receive_err = link.receive i; sent = suc a.sent }

  abbrev pub redialled : Option String → Attempt → Attempt
  redialled none a = record a { connected = true; reconnect_err = none }
  redialled (some e) a = record a { connected = false; reconnect_err = some e }

  abbrev pub checked : Option Bool → ℕ → Attempt → Option Attempt
  checked none i a = none
  checked (some true) i a = some a
  checked (some false) i a = some (redialled (link.dial i) a)

  -- The first half of a round: a connection that does not answer is dialled anew.
  abbrev pub check_round : ℕ → Attempt → Option Attempt
  check_round i a = if a.connected then checked (link.check_server i) i a else some a

  -- The second half: no call while the dial has failed.
  abbrev pub send_round : ℕ → Attempt → Attempt
  send_round i a = elim a.reconnect_err [ none ↦ receive_at i a | some e ↦ a ]

  -- The rounds that are left, from round i on.
  unfoldable pub rounds : ℕ → ℕ → Attempt → Delivered
  rounds zero i a = returned a
  rounds (suc n) i a = elim a.receive_err [
    | none ↦ returned a
    | some e ↦ elim (check_round i a) [
      | none ↦ recovered a.sent
      | some b ↦ rounds n (suc i) (send_round i b)
    ]
  ]

  abbrev pub first_attempt : Attempt
  first_attempt = record {
    connected = true;
    reconnect_err = none;
    receive_err = link.receive 0;
    sent = 1;
  }

  -- `deferMinerRecieve`, for a `minerApi` that is a connection or nil
  unfoldable pub defer_miner_recieve : Bool → Delivered
  defer_miner_recieve false = recovered 0
  defer_miner_recieve true = rounds 5 1 first_attempt

-- The error that the caller sees.
abbrev pub miner_api_err : Delivered → Option String
miner_api_err (returned a) = a.receive_err
miner_api_err (recovered n) = none

-- The calls of RecieveTaskResult that were made.
abbrev pub calls : Delivered → ℕ
calls (returned a) = a.sent
calls (recovered n) = n

pub record FailedTask : Type 0 where
  pub actor_id : ℤ
  pub sector_num : ℤ
  pub task_type : TaskType
  pub is_err : Bool
  pub text : String
  pub bytes : List ℕ

abbrev pub Failures : Type 0
Failures = List (String × FailedTask)

unfoldable pub put_failed : String → FailedTask → Failures → Failures
put_failed k v [] = (k, v) ∷ []
put_failed k v ((j, w) ∷ m) = if str_eq j k then (k, v) ∷ m else (j, w) ∷ put_failed k v m

unfoldable pub get_failed : String → Failures → Option FailedTask
get_failed k [] = none
get_failed k ((j, w) ∷ m) = if str_eq j k then some w else get_failed k m

-- `Result` holds the text of the process's error, or the output of the task.
abbrev pub failed_task : ℤ → ℤ → TaskType → TaskResult → Option String → FailedTask
failed_task actor sector t r none = record {
  actor_id = actor;
  sector_num = sector;
  task_type = t;
  is_err = false;
  text = "";
  bytes = r.comm_bytes;
}
failed_task actor sector t r (some e) = record {
  actor_id = actor;
  sector_num = sector;
  task_type = t;
  is_err = true;
  text = e;
  bytes = [];
}

-- `DeferMinerRecieve`: the failures that are kept, and the path that is cleaned, if any. The path
-- that it cleans after a Commit1 is the name of the stage.
unfoldable pub keep_failed :
    ℤ
    → ℤ
    → TaskType
    → String
    → TaskResult
    → Option String
    → Delivered
    → Failures
    → Failures × Option TaskType
keep_failed actor sector t session r process_err d m = elim (miner_api_err d) [
  | none ↦ (m, if task_eq t c1 then some t else none)
  | some e ↦ (put_failed session (failed_task actor sector t r process_err) m, none)
]
