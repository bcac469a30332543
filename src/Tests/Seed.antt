-- ===== src/Tests/Seed.antt =====
-- Tests of the stage SEED, and its property at a concrete input.
use filecoin_sealer.Prelude.{
  arith, wrap_int64, subst, got_injective, negsuc, ◌≤ℤ◌, ◌<ℤ◌, ◌+ℤ◌, ℤ, got, lost, ◌≡◌, refl, [],
  ◌∷◌, none, some, pos,
}
use mathlib.Core.Option.{map}
use filecoin_sealer.Tables.{seed, c1, init, DbTaskInfo, TaskResult}
use filecoin_sealer.Database.{memory_env}
use filecoin_sealer.Miner.{Miner, check_session, store_session, delete_session}
use filecoin_sealer.Miner.Send.{text_result}
use filecoin_sealer.Miner.Seed.{
  SeedCalls, SeedStart, seed_started, wait_seed, seed_found, seed_done, run_seed, get_seed_rand,
}
use filecoin_sealer.Miner.Seed.Wait.{IsSound, InRange, seed_found-IsSound}
use filecoin_sealer.Tests.Data.{evaluated, task, tables, any}

ready : Unit {0}
unfolding check_session store_session delete_session wait_seed seed_found seed_done run_seed
    get_seed_rand ◌+ℤ◌ wrap_int64
ready = tt

abbrev pre_committed : DbTaskInfo
pre_committed = task 1 5 seed init "w1" "s0"

abbrev miner : Miner
miner = record {
  db = tables (pre_committed ∷ []);
  wait_seed_epoch = pos 150;
  sector_expiration = pos 0;
  req_session = [];
}

-- The pre-commit is in epoch 900; the heads come at 1000, 1040 and 1060.
abbrev calls : SeedCalls
calls = record {
  head = got (pos 1000);
  address = got tt;
  marshal = got tt;
  pre_commit_epoch = got (pos 900);
  heads = got (pos 1040) ∷ got (pos 1060) ∷ [];
  randomness = got "beef";
}

abbrev found : TaskResult
found = record (text_result "") { seed_epoch = pos 1060; seed_hex = "beef" }

ripe_found : seed_found (pos 150) calls ≡ some (none, found)
unfolding ready
ripe_found = refl

still_waits : seed_found (pos 150) (record calls { heads = got (pos 1040) ∷ [] }) ≡ none
unfolding ready
still_waits = refl

-- The epoch and the wait, added, are an `int64`.
in_range : InRange (pos 150) calls
unfolding ◌+ℤ◌
in_range epoch e =
    subst
      (λ (x : ℤ).
        (negsuc 9223372036854775807 ≤ℤ (x +ℤ pos 150))
        × ((x +ℤ pos 150) <ℤ pos 9223372036854775808))
      (got_injective e) (omega arith, omega arith)

seed_found-IsSound_example : IsSound (pos 150) calls found
seed_found-IsSound_example = seed_found-IsSound (pos 150) calls found in_range ripe_found

abbrev begun : SeedStart × Miner
begun = get_seed_rand memory_env (pos 1000) any "s9" miner

starts : begun.0 ≡ seed_started pre_committed
unfolding evaluated ready
starts = refl

-- The stage moves on with its seed, and its session is forgotten.
moves_on :
    map (λ p. p.1.db.task_infos) (run_seed memory_env (pos 1000) "s9" calls pre_committed begun.1)
    ≡ some (record (task 1 5 c1 init "w1" "s9") { seed_epoch = pos 1060; seed_hex = "beef" } ∷ [])
unfolding evaluated ready
moves_on = refl

-- So it does with a blank seed, when the address cannot be encoded.
moves_on_blank :
    map
      (λ p. p.1.db.task_infos)
      (run_seed memory_env
        (pos 1000)
        "s9"
        (record calls { marshal = lost "too large" })
        pre_committed
        begun.1)
    ≡ some (task 1 5 c1 init "w1" "s9" ∷ [])
unfolding evaluated ready
moves_on_blank = refl
