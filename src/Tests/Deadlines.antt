-- ===== src/Tests/Deadlines.antt =====
-- Tests of the deadlines, the windows and the recoveries, and their properties at concrete inputs.
use filecoin_sealer.Prelude.{
  ℕ, ◌+◌, ◌≡◌, refl, List, [], ◌∷◌, map, none, some, pos, str_eq, Called, got, lost, inl, inr,
  arith,
}
use filecoin_sealer.Window.Listed.{listed}
use filecoin_sealer.Window.Data.{Partition, MinerPostInfo}
use filecoin_sealer.Window.Message.{PushCalls, check_nonce}
use filecoin_sealer.Window.Recoveries.{RecoveryCalls, recoveries, check_recoveries}
use filecoin_sealer.Window.Recoveries.Declared.{Declared, check_recoveries-Declares}
use filecoin_sealer.Window.Deadlines.{
  ActorPostInfo, win_post_proofs, win_post_proofs_server, win_post_actor, win_post_server,
  retry_win_post, search_partitions,
}
use filecoin_sealer.Window.Deadlines.Rounds.{changes, all_runs, win_post_proofs_server-changes}
use filecoin_sealer.Window.Deadlines.Windows.{OncePerWindow, win_post_server-OncePerWindow}

ready : Unit {0}
unfolding str_eq check_nonce recoveries check_recoveries win_post_proofs win_post_proofs_server
    win_post_actor win_post_server retry_win_post search_partitions
ready = tt

abbrev faulty_partition : Partition (List ℕ)
faulty_partition = record {
  live_sectors = 1 ∷ 2 ∷ 3 ∷ [];
  faulty_sectors = 2 ∷ 3 ∷ [];
  recovering_sectors = 3 ∷ [];
}

abbrev sound_partition : Partition (List ℕ)
sound_partition = record { live_sectors = 4 ∷ []; faulty_sectors = []; recovering_sectors = [] }

abbrev pushes : PushCalls
pushes = record {
  serialize = got "params";
  key_address = got "f3key";
  nonce = record { head = got tt; pool_nonce = lost "no pool"; actor_nonce = got 7 };
  gas = got tt;
  sign = got tt;
  push = got "bafy";
}

abbrev recovery_calls : RecoveryCalls (List ℕ)
recovery_calls = record {
  address = got "f01000";
  head = got tt;
  partitions = got (sound_partition ∷ faulty_partition ∷ []);
  pushes = pushes;
  send = lost "no node";
}

declares_second : check_recoveries listed 3 "key" "pri" recovery_calls ≡ record {
  declared = some (record { deadline = 3; partition = 1; sectors = 2 ∷ [] } ∷ []);
  answer = got "bafy";
}
unfolding ready
declares_second = refl

nothing_faulty :
    check_recoveries listed 3 "key" "pri"
      (record recovery_calls { partitions = got (sound_partition ∷ []) })
    ≡ record { declared = none; answer = lost "len(params.Recoveries)==0" }
unfolding ready
nothing_faulty = refl

not_encoded :
    check_recoveries listed 3 "key" "pri"
      (record recovery_calls { pushes = record pushes { serialize = lost "too large" } })
    ≡ record { declared = none; answer = got "" }
unfolding ready
not_encoded = refl

answered_cid : (check_recoveries listed 3 "key" "pri" recovery_calls).answer ≡ got "bafy"
unfolding ready
answered_cid = refl

check_recoveries-Declares_example :
    Declared listed 3 recovery_calls "bafy"
      (check_recoveries listed 3 "key" "pri" recovery_calls).declared
check_recoveries-Declares_example =
    check_recoveries-Declares listed 3 "key" "pri" recovery_calls "bafy" answered_cid

abbrev window : ℕ → ℕ → MinerPostInfo (List ℕ)
window index opens = record {
  di = record {
    current_epoch = pos (10 + opens);
    index = index;
    opens = pos opens;
    close = pos (60 + opens);
    challenge = pos opens;
  };
  partitions = sound_partition ∷ [];
  rand = none;
}

abbrev period_end : List (Called (MinerPostInfo (List ℕ)))
period_end =
    got (window 46 2760)
    ∷ lost "timeout"
    ∷ got (window 47 2820)
    ∷ got (window 47 2820)
    ∷ got (window 0 2880)
    ∷ []

win_post_proofs_server-changes_example :
    win_post_proofs_server period_end (pos 46)
    ≡ map all_runs
        (changes 46 (window 46 2760 ∷ window 47 2820 ∷ window 47 2820 ∷ window 0 2880 ∷ []))
win_post_proofs_server-changes_example =
    win_post_proofs_server-changes period_end 46 (omega arith)
      (inl refl, (inr refl, (inl refl, (inr refl, tt))))

-- The loop misses deadline 0.
abbrev actor_info : ActorPostInfo
actor_info = record { addr_info = "key"; addr_type = "pri"; di_open = pos 0 }

searched_once :
    win_post_server period_end actor_info ≡ window 46 2760 ∷ window 47 2820 ∷ window 0 2880 ∷ []
unfolding ready
searched_once = refl

win_post_server-OncePerWindow_example :
    OncePerWindow (pos 0) (win_post_server period_end actor_info)
win_post_server-OncePerWindow_example =
    win_post_server-OncePerWindow period_end actor_info
      (omega arith, (omega arith, (omega arith, (omega arith, tt))))

retried : retry_win_post (got (window 5 300)) ≡ got (all_runs (window 5 300))
unfolding ready
retried = refl

too_late : retry_win_post {B = List ℕ} (lost "no miner") ≡ lost "di.CurrentEpoch"
unfolding ready
too_late = refl
