-- ===== src/Tests/Window.antt =====
-- Tests of the window proofs, and their properties at concrete inputs: a partition of the sectors 5, 6
-- and 7 of one actor, whose worker has no file of sector 7.
use filecoin_sealer.Prelude.{
  ℕ, zero, suc, ◌≡◌, refl, ◌==◌, ◌-ℤ◌, String, Bool, true, false, List, [], ◌∷◌, ◌++◌, map, some,
  pos, arith, str_eq, All, length, if◌then◌else◌, got, lost,
}
use filecoin_sealer.Tables.{DbPostInfo}
use filecoin_sealer.Window.Bits.{Reliable, has, Ascending}
use filecoin_sealer.Window.Listed.{listed, sorted}
use filecoin_sealer.Window.Data.{VanillaProof, DeadLineInfo, Partition, PostTransfer, to_int64}
use filecoin_sealer.Window.Collect.{
  PostSignal, transfer, timeout, Collected, Collection, complete, timed_out, collected_new,
  take_transfer, collect, sorted_proofs, vanilla_map, vanilla_from,
}
use filecoin_sealer.Window.Collect.Gathered.{Honest}
use filecoin_sealer.Window.Collect.Complete.{collect_lem}
use filecoin_sealer.Window.Collect.Progress.{collect_completes}
use filecoin_sealer.Window.Generate.{
  GenerateCalls, Assignment, Generated, submitted, blank_post, to_uint64, row_from, prove_sector,
  prove_sectors, generate_post_proof,
}
use filecoin_sealer.Window.Generate.Split.{Runs, names, attempt}
use filecoin_sealer.Window.Generate.Loop.{proof_or_blank}
use filecoin_sealer.Window.Generate.First.{first_message_completes}

ready : Unit {0}
unfolding str_eq to_int64 to_uint64 vanilla_map vanilla_from take_transfer collect sorted_proofs
    row_from prove_sector prove_sectors generate_post_proof ◌-ℤ◌
ready = tt

abbrev listed_sure : Reliable listed
listed_sure = record { merges = λ a b. (a ++ b, refl); counts = λ b. (length (sorted b), refl) }

abbrev pub repeat : ℕ → List ℕ
repeat zero = []
repeat (suc n) = 255 ∷ repeat n

abbrev deadline : DeadLineInfo
deadline = record {
  current_epoch = pos 1000;
  index = 3;
  opens = pos 990;
  close = pos 1050;
  challenge = pos 970;
}

abbrev partition : Partition (List ℕ)
partition = record { live_sectors = 7 ∷ 5 ∷ 6 ∷ []; faulty_sectors = []; recovering_sectors = [] }

abbrev assignment : Assignment (List ℕ)
assignment = record {
  worker_id = "w1";
  host_name = "h1";
  di = deadline;
  miner_id = 1000;
  partition = partition;
  randomness = some (repeat 32);
  addr_info = "key";
  addr_type = "pri";
  part_inx = pos 0;
}

abbrev post_row : ℕ → String → DbPostInfo
post_row sector worker = record blank_post {
  actor_id = pos 1000;
  sector_num = pos sector;
  worker_id = worker;
  comm_r = "r";
  proof_type = pos 8;
}

-- Sector 7 is another worker's.
abbrev answer : List DbPostInfo
answer = post_row 5 "w1" ∷ post_row 6 "w1" ∷ post_row 7 "w2" ∷ []

abbrev generate_calls : GenerateCalls
generate_calls = record {
  address = got "f01000";
  connected = true;
  format = λ n. "n";
  query = λ text. got answer;
  decode = λ text. got text;
  challenges = λ pt rand sset. got (λ z. z ∷ []);
  vanilla = λ p ch. if p.sector_number == 7 then lost "no such file" else got ch;
}

abbrev pub sectors : List ℕ
sectors = 7 ∷ 5 ∷ 6 ∷ []

-- The message has sector 7 as a fault.
abbrev message_parts : Generated (List ℕ) → List ℕ × List ℕ × List VanillaProof
message_parts (submitted t) = (sorted t.to_prove_bitfield, sorted t.fault_bitfield, t.proofs)
message_parts _ = ([], [], [])

splits : message_parts (generate_post_proof listed generate_calls assignment) ≡ (
  5 ∷ 6 ∷ [],
  7 ∷ [],
  record { sector_num = 5; proof = 5 ∷ [] } ∷ record { sector_num = 6; proof = 6 ∷ [] } ∷ [],
)
unfolding ready
splits = refl

-- The proof of sector z is z itself.
abbrev honest_proof : ℕ → List ℕ
honest_proof z = z ∷ []

abbrev pub message_of : String → List ℕ → List VanillaProof → PostTransfer (List ℕ)
message_of worker proven proofs = record {
  worker_id = worker;
  host_name = "h1";
  post_proof_type = pos 8;
  actor = "f01000";
  addr_info = "key";
  addr_type = "pri";
  miner_id = 1000;
  current_epoch = pos 1000;
  close_epoch = pos 1050;
  challenge = pos 970;
  dealine = 3;
  partition_index = pos 0;
  all_prove_bitfield = sectors;
  to_prove_bitfield = proven;
  fault_bitfield = [];
  proofs = proofs;
  randomness = some (repeat 32);
  err = "";
}

-- One worker has the sectors 7 and 5, another has 6.
abbrev messages : List (PostTransfer (List ℕ))
messages =
    message_of "w1" (7 ∷ 5 ∷ [])
      (record { sector_num = 7; proof = 7 ∷ [] } ∷ record { sector_num = 5; proof = 5 ∷ [] } ∷ [])
    ∷ message_of "w2" (6 ∷ []) (record { sector_num = 6; proof = 6 ∷ [] } ∷ [])
    ∷ []

abbrev collection : Collection (List ℕ) → Collected (List ℕ)
collection (complete s) = s
collection _ = collected_new listed

abbrev signals : List (PostSignal (List ℕ))
signals = map transfer messages

abbrev collected : Collected (List ℕ)
collected = collection (collect listed signals (collected_new listed))

-- The first message alone leaves the loop waiting, until its time is up.
half_waits :
    (elim (collect listed
        (transfer (message_of "w1" (5 ∷ []) []) ∷ timeout ∷ [])
        (collected_new listed))
      as (λ _. Bool) [ timed_out s ↦ true | _ ↦ false ])
    ≡ true
unfolding ready
half_waits = refl

messages-Honest : All (Honest listed honest_proof (5 ∷ 6 ∷ 7 ∷ [])) messages
messages-Honest = (
  record {
    all_sectors = refl;
    inside = λ z h. ground (arith, h);
    faultless = refl;
    genuine = (refl, (refl, tt));
    covered = λ z h. ground (arith, h);
  },
  (
    record {
      all_sectors = refl;
      inside = λ z h. ground (arith, h);
      faultless = refl;
      genuine = (refl, tt);
      covered = λ z h. ground (arith, h);
    },
    tt,
  ),
)

sorted_sectors-Ascending : Ascending (5 ∷ 6 ∷ 7 ∷ [])
sorted_sectors-Ascending = ground arith

collected_all : collect listed signals (collected_new listed) ≡ complete collected
unfolding ready
collected_all = refl

collect_lem_example : sorted_proofs listed collected ≡ map honest_proof (5 ∷ 6 ∷ 7 ∷ [])
collect_lem_example =
    collect_lem listed honest_proof (5 ∷ 6 ∷ 7 ∷ []) sorted_sectors-Ascending signals collected
      messages-Honest collected_all

collect_completes_example :
    (s : Collected (List ℕ)) × (collect listed signals (collected_new listed) ≡ complete s)
    × (sorted_proofs listed s ≡ map honest_proof (5 ∷ 6 ∷ 7 ∷ []))
collect_completes_example =
    collect_completes listed listed_sure honest_proof (5 ∷ 6 ∷ 7 ∷ []) sorted_sectors-Ascending
      messages 5 refl messages-Honest (λ y h. ground (arith, h))

runs :
    Runs listed generate_calls assignment "f01000" sectors
      (post_row 5 "w1")
      (post_row 6 "w1" ∷ post_row 7 "w2" ∷ [])
      (repeat 31 ++ 63 ∷ [])
      (λ z. z ∷ [])
      (pos 8)
unfolding ready
runs = record {
  address = refl;
  sectors = refl;
  answer = refl;
  random = refl;
  decodes = λ z n. (_, refl);
  kinds = λ z n. ground (arith, n);
  challenge = refl;
}

answer-known :
    (z : ℕ)
    → names z (post_row 5 "w1" ∷ post_row 6 "w1" ∷ post_row 7 "w2" ∷ []) ≡ has z (sorted sectors)
unfolding ready
answer-known z = ground arith

-- The proof of sector 7 is blank.
first_message_completes_example :
    (t : PostTransfer (List ℕ)) × (s : Collected (List ℕ)) × (generate_post_proof listed
        generate_calls assignment
      ≡ submitted t)
    × (collect listed (transfer t ∷ signals) (collected_new listed) ≡ complete s)
    × (sorted_proofs listed s
        ≡ map
            (λ z. proof_or_blank (
              attempt listed generate_calls assignment "f01000" sectors
                (post_row 5 "w1")
                (post_row 6 "w1" ∷ post_row 7 "w2" ∷ [])
                (repeat 31 ++ 63 ∷ [])
                (λ z. z ∷ [])
                (pos 8)
                z))
            (sorted sectors))
first_message_completes_example =
    first_message_completes listed listed_sure generate_calls assignment "f01000" sectors
      (post_row 5 "w1") (post_row 6 "w1" ∷ post_row 7 "w2" ∷ []) (repeat 31 ++ 63 ∷ [])
      (λ z. z ∷ []) (pos 8) answer-known signals runs
