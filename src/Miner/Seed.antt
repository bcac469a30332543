-- ===== src/Miner/Seed.antt =====
-- miner/miner.go: GetSeedRand, the stage SEED.
use filecoin_sealer.Prelude.{
  Called, got, lost, Bool, true, false, String, List, [], ◌∷◌, Option, none, some, ℤ, ◌+ℤ◌,
  wrap_int64, leb_ℤ, if◌then◌else◌,
}
use filecoin_sealer.Tables.{TaskType, seed, RequestInfo, DbTaskInfo, TaskResult}
use filecoin_sealer.Database.{Db, DbError, Env}
use filecoin_sealer.Miner.State.{Miner, Job, Reply, results, refused, store_session, delete_session}
use filecoin_sealer.Miner.Query.{query_task}
use filecoin_sealer.Miner.Receive.{Delivery, recieve_task_result}
use filecoin_sealer.Miner.Send.{text_result}
pub mod Wait

-- The outcomes of the chain's calls in the goroutine: the first head's height, the miner's address,
-- its encoding, the epoch of the sector's pre-commit, the heights of the heads that the loop asks
-- for, and the randomness as text.
pub record SeedCalls : Type 0 where
  pub head : Called ℤ
  pub address : Called (Unit {0})
  pub marshal : Called (Unit {0})
  pub pre_commit_epoch : Called ℤ
  pub heads : List (Called ℤ)
  pub randomness : Called String

-- The loop: the height at which it ended, or an error; `none` while it waits for another head.
unfoldable pub wait_seed : ℤ → ℤ → List (Called ℤ) → Option (Called ℤ)
wait_seed target height [] = if leb_ℤ target height then some (got height) else none
wait_seed target height (lost e ∷ hs) =
    if leb_ℤ target height then some (got height) else some (lost e)
wait_seed target height (got h ∷ hs) =
    let rest = wait_seed target h hs in if leb_ℤ target height then some (got height) else rest

-- What the goroutine leaves in `err` and `ret`; `none` while it waits.
abbrev pub Found : Type 0
Found = Option (Option String × TaskResult)

abbrev pub fails : String → Found
fails e = some (some e, text_result "")

abbrev pub seeded : ℤ → Called String → Found
seeded height (lost e) = fails e
seeded height (got r) = some (none, record (text_result "") { seed_epoch = height; seed_hex = r })

abbrev pub waited : Called String → Option (Called ℤ) → Found
waited rand none = none
waited rand (some (lost e)) = fails e
waited rand (some (got height)) = seeded height rand

abbrev pub from_epoch : ℤ → ℤ → SeedCalls → Called ℤ → Found
from_epoch wait height c (lost e) = fails e
from_epoch wait height c (got epoch) =
    waited c.randomness (wait_seed (wrap_int64 (epoch +ℤ wait)) height c.heads)

-- The error of `MarshalCBOR` is a variable of its own: `err` stays nil, and `ret` blank.
abbrev pub from_marshal : ℤ → ℤ → SeedCalls → Called (Unit {0}) → Found
from_marshal wait height c (lost e) = some (none, text_result "")
from_marshal wait height c (got _) = from_epoch wait height c c.pre_commit_epoch

abbrev pub from_address : ℤ → ℤ → SeedCalls → Called (Unit {0}) → Found
from_address wait height c (lost e) = fails e
from_address wait height c (got _) = from_marshal wait height c c.marshal

abbrev pub from_head : ℤ → SeedCalls → Called ℤ → Found
from_head wait c (lost e) = fails e
from_head wait c (got height) = from_address wait height c c.address

unfoldable pub seed_found : ℤ → SeedCalls → Found
seed_found wait c = from_head wait c c.head

abbrev pub seed_delivery : ℤ → ℤ → TaskType → String → Option String × TaskResult → Delivery
seed_delivery actor sector t session (e, ret) = record {
  actor_id = actor;
  sector_num = sector;
  task_type = t;
  req_id = session;
  is_err = elim e [ some x ↦ true | none ↦ false ];
  result = elim e [ some x ↦ text_result x | none ↦ ret ];
}

-- The session is stored once the epoch of the pre-commit is known.
abbrev pub stored_if : Called ℤ → String → Miner → Miner
stored_if (got epoch) session m = record m { req_session = store_session session m.req_session }
stored_if (lost e) session m = m

abbrev pub stored_after :
    Called ℤ → Called (Unit {0}) → Called (Unit {0}) → Called ℤ → String → Miner → Miner
stored_after (got h) (got a) (got b) epoch session m = stored_if epoch session m
stored_after _ _ _ epoch session m = m

-- The deferred function: one delivery, and the session is forgotten.
unfoldable pub seed_done :
    Env → ℤ → String → DbTaskInfo → Option String × TaskResult → Miner → List Job × Miner
seed_done env actor session r found m =
    let (e, jobs, db) =
      recieve_task_result env (seed_delivery actor r.sector_num r.task_type session found) m.db in
    (jobs, record m { db = db; req_session = delete_session session m.req_session })

-- The goroutine, for the task that was drawn; `none` while it waits.
abbrev pub finish : Env → ℤ → String → DbTaskInfo → Found → Miner → Option (List Job × Miner)
finish env actor session r none m = none
finish env actor session r (some found) m = some (seed_done env actor session r found m)

unfoldable pub run_seed :
    Env → ℤ → String → SeedCalls → DbTaskInfo → Miner → Option (List Job × Miner)
run_seed env actor session c r m =
    finish env actor session r (seed_found m.wait_seed_epoch c)
      (stored_after c.head c.address c.marshal c.pre_commit_epoch session m)

-- How the call of GetSeedRand ends: with an answer, or with the task that its goroutine takes on.
pub data SeedStart : Type 0 where
  seed_refused : DbError → SeedStart
  seed_no_result : SeedStart
  seed_started : DbTaskInfo → SeedStart

abbrev pub seed_drawn : Miner → Reply × Db → SeedStart × Miner
seed_drawn m (refused e, db) = (seed_refused e, record m { db = db })
seed_drawn m (results [], db) = (seed_no_result, record m { db = db })
seed_drawn m (results (r ∷ rs), db) = (seed_started r, record m { db = db })

abbrev pub seed_request : ℤ → ℤ → String → RequestInfo
seed_request actor sector session = record {
  actor_id = actor;
  sector_num = sector;
  task_type = seed;
  session = session;
  worker_id = "";
  host_name = "";
  worker_listen = "";
  sectors = "";
}

unfoldable pub get_seed_rand : Env → ℤ → ℤ → String → Miner → SeedStart × Miner
get_seed_rand env actor sector session m =
    seed_drawn m (query_task env (seed_request actor sector session) m.db)
