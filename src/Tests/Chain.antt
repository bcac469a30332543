-- ===== src/Tests/Chain.antt =====
-- Tests of the heads that come over the network and of the blocks that are made on them, and their
-- properties at concrete inputs.
use filecoin_sealer.Prelude.{
  ◌≡◌, refl, true, String, List, [], ◌∷◌, Option, none, some, pos, str_eq, got, if◌then◌else◌,
}
use filecoin_sealer.Chain.Blocks.{
  Block, BlockEvent, tick, no_block, block, subscription_new, subscribe_block, Rising,
  subscribe_block-Rising,
}
use filecoin_sealer.Chain.Heads.{
  gather, subscribe_header, head_of, look_up_all, distinct, cids_of, subscribe_header_lem,
}
use filecoin_sealer.Mining.{
  CidMessage, BaseInfo, VrfCalls, MiningCalls, MiningResult, Mined, mined, vrf_proof,
  parent_messages, find_sealed_path, miner_mining,
}
use filecoin_sealer.Mining.Made.{IsMade, miner_mining-IsMade}

unfoldable pub chain_ready : Unit {0}
unfolding str_eq subscribe_block gather subscribe_header vrf_proof parent_messages find_sealed_path
    miner_mining
chain_ready = tt

abbrev first_block : Block
first_block = record { height = pos 7; bls_messages = "a" ∷ "b" ∷ []; secpk_messages = "c" ∷ [] }

abbrev second_block : Block
second_block = record { height = pos 7; bls_messages = "b" ∷ []; secpk_messages = "d" ∷ [] }

abbrev next_block : Block
next_block = record first_block { height = pos 8 }

-- The late block of height 7 is not sent.
abbrev events : List BlockEvent
events =
    block first_block 2
    ∷ no_block
    ∷ block second_block 3
    ∷ tick
    ∷ block second_block 4
    ∷ tick
    ∷ block next_block 1
    ∷ tick
    ∷ []

batches :
    subscribe_block events subscription_new
    ≡ (first_block ∷ second_block ∷ []) ∷ (next_block ∷ []) ∷ []
unfolding chain_ready
batches = refl

subscribe_block-Rising_example : Rising (pos 0) (subscribe_block events subscription_new)
subscribe_block-Rising_example = subscribe_block-Rising events

-- A message is its CID.
abbrev cache : String → Option String
cache cid = if str_eq cid "z" then none else some cid

head :
    subscribe_header cache true (first_block ∷ second_block ∷ [])
    ≡ some (record { height = pos 7; message = "a" ∷ "b" ∷ "c" ∷ "d" ∷ [] })
unfolding chain_ready
head = refl

no_head : subscribe_header cache true (record first_block { bls_messages = "z" ∷ [] } ∷ []) ≡ none
unfolding chain_ready
no_head = refl

subscribe_header_lem_example :
    subscribe_header cache true (first_block ∷ second_block ∷ [])
    ≡ head_of cache true
        (first_block ∷ second_block ∷ [])
        (look_up_all cache (distinct (cids_of (first_block ∷ second_block ∷ []))))
subscribe_header_lem_example = subscribe_header_lem cache true (first_block ∷ second_block ∷ [])

abbrev message : String → CidMessage
message cid = record { cid = cid; gas_limit = pos 10 }

abbrev vrf : VrfCalls
vrf = record { marshal = got tt; draw = got tt; vrf = got "proof" }

abbrev pub mining_calls : MiningCalls
mining_calls = record {
  base_info = got (some (record { sectors = 5 ∷ [] }));
  ticket = vrf;
  election = vrf;
  win_count = λ ep. pos 1;
  block_messages = got (message "a" ∷ [], message "b" ∷ []) ∷ got (message "a" ∷ [], []) ∷ [];
  state = λ ms.
      got (
        record { msg_cid = "a"; receipt = "ok" }
        ∷ record { msg_cid = "cron"; receipt = "ok" }
        ∷ []);
  set_receipts = λ rs. got tt;
  root = got "root";
  actor_id = got 1000;
  marshal = got tt;
  draw = got tt;
  is_there = λ p s. str_eq p "/second";
  winning_post = λ p. got "post";
}

abbrev pub paths : List String
paths = "/first" ∷ "/second" ∷ []

abbrev result : Mined → MiningResult
result (mined r) = r
result _ = record {
  ticket = "";
  election_proof = "";
  win_count = pos 0;
  parent_msg = [];
  receipts = [];
  receipts_root = "";
  sealed_path = "";
  win_post_proof = "";
}

abbrev block_made : MiningResult
block_made = result (miner_mining mining_calls paths)

parents : block_made.parent_msg ≡ message "a" ∷ message "b" ∷ []
unfolding chain_ready
parents = refl

is_mined : miner_mining mining_calls paths ≡ mined block_made
unfolding chain_ready
is_mined = refl

miner_mining-IsMade_example : (mbi : BaseInfo) × IsMade mining_calls paths mbi block_made
miner_mining-IsMade_example = miner_mining-IsMade mining_calls paths block_made is_mined
