-- ===== src/Tests/Sealed.antt =====
-- Tests of the proof of a partition in the miner, and its property at a concrete input.
use filecoin_sealer.Prelude.{◌≡◌, refl, ℕ, List, [], ◌∷◌, some, none, got, pos}
use filecoin_sealer.Tables.{DbPostInfo}
use filecoin_sealer.Window.Listed.{listed}
use filecoin_sealer.Window.Data.{to_int64}
use filecoin_sealer.Window.Deadlines.{PartitionRun}
use filecoin_sealer.Window.Generate.{to_uint64}
use filecoin_sealer.Window.Message.{PostParams, PostCalls, check_nonce, submit_post_message}
use filecoin_sealer.Window.Sealed.{
  SealedCalls, private_sectors, partition_win_post_proof, run_partition,
}
use filecoin_sealer.Window.Sealed.Proved.{IsProved, run_partition-IsProved}
use filecoin_sealer.Tests.Window.{repeat}

ready : Unit {0}
unfolding check_nonce to_int64 to_uint64 submit_post_message private_sectors
    partition_win_post_proof run_partition
ready = tt

abbrev row : ℕ → DbPostInfo
row n = record {
  actor_id = pos 1000;
  sector_num = pos n;
  worker_id = "w1";
  comm_r = "cid";
  cache_dir_path = "/cache";
  sealed_sector_path = "/sealed";
  proof_type = pos 8;
  deadline_inx = 0;
  partition_inx = 0;
  state = pos 2;
}

-- The table has no row of sector 7.
abbrev calls : SealedCalls
calls = record {
  format = λ n. "n";
  query = λ s. got (row 5 ∷ row 6 ∷ []);
  decode = λ s. got s;
  window_type = λ t. some (pos 13);
  window_post = λ ps rand. got ((1 ∷ []) ∷ []);
}

abbrev post_calls : PostCalls
post_calls = record {
  tipset = got tt;
  ticket = got "rand";
  pushes = record {
    serialize = got "params";
    key_address = got "f3key";
    nonce = record { head = got tt; pool_nonce = got 4; actor_nonce = got 4 };
    gas = got tt;
    sign = got tt;
    push = got "bafy";
  };
}

abbrev run : PartitionRun (List ℕ)
run = record {
  di = record {
    current_epoch = pos 1000;
    index = 3;
    opens = pos 990;
    close = pos 1050;
    challenge = pos 970;
  };
  number = 1;
  partition = record {
    live_sectors = 5 ∷ 6 ∷ 7 ∷ [];
    faulty_sectors = [];
    recovering_sectors = [];
  };
  rand = some (repeat 32);
}

abbrev params : PostParams
params = record {
  deadline = pos 3;
  partition = pos 1;
  proofs = (1 ∷ []) ∷ [];
  chain_commit_epoch = pos 970;
  chain_commit_rand = "rand";
}

goes_out : run_partition calls listed post_calls run ≡ some (got (params, "bafy"))
unfolding ready
goes_out = refl

short_randomness :
    run_partition calls listed post_calls (record run { rand = some (repeat 31) }) ≡ none
unfolding ready
short_randomness = refl

run_partition-IsProved_example :
    IsProved calls listed run.partition run.rand params.proofs
    × (params.deadline ≡ to_int64 run.di.index)
    × (params.partition ≡ pos run.number)
    × (params.chain_commit_epoch ≡ run.di.challenge)
run_partition-IsProved_example =
    run_partition-IsProved calls listed post_calls run params "bafy" goes_out
