-- ===== src/Tests/Publish.antt =====
-- Tests of the publishing of blocks, and its properties at concrete inputs.
use filecoin_sealer.Prelude.{
  wrap_int64, ℕ, ◌≡◌, refl, ◌≤ℤ◌, List, [], ◌∷◌, ◌++◌, Option, some, none, Called, got, pos, ◌+ℤ◌,
  arith, String,
}
use filecoin_sealer.Keys.{Key, sig_bls, sig_secp256k1, kt_bls, generate_key_by_hex_string}
use filecoin_sealer.Keys.Signs.{IsKey, by_hex-IsKey}
use filecoin_sealer.Mining.{MiningResult}
use filecoin_sealer.Mining.Parents.{Distinct}
use filecoin_sealer.Mining.Publish.{
  PoolMessage, ArrayLib, PublishCalls, BlockMsg, published, publish_panics, total_limit,
  select_messages, compute_msg_meta, aggregate_signatures, publish_block_msg, mine_and_publish,
}
use filecoin_sealer.Mining.Publish.Published.{IsPublished, publish_block_msg-IsPublished}
use filecoin_sealer.Mining.Publish.Fee.{mine_and_publish-fee}
use filecoin_sealer.Tests.Keys.{plain_keys, plain-IsSound, pri, keys_ready}
use filecoin_sealer.Tests.Chain.{mining_calls, paths, chain_ready}

ready : Unit {0}
unfolding wrap_int64 total_limit select_messages compute_msg_meta aggregate_signatures
    publish_block_msg mine_and_publish ◌+ℤ◌
ready = tt

abbrev key : Key (List ℕ)
key = record {
  key_info = record { key_type = kt_bls; private_key = 5 ∷ 7 ∷ [] };
  public_key = 5 ∷ 7 ∷ [];
  address = 3 ∷ 5 ∷ 7 ∷ [];
}

key_read : generate_key_by_hex_string plain_keys pri ≡ got key
unfolding keys_ready
key_read = refl

own : IsKey plain_keys key
own = by_hex-IsKey plain_keys pri key key_read

abbrev bls_message : PoolMessage
bls_message = record {
  cid = "m1";
  signature = record { sig_type = sig_bls; bytes = 1 ∷ 2 ∷ [] };
  storage = got "b1";
}

abbrev secpk_message : PoolMessage
secpk_message = record {
  cid = "m2";
  signature = record { sig_type = sig_secp256k1; bytes = 9 ∷ [] };
  storage = got "b2";
}

-- An array is the list of its elements, set in order, and its root the first one.
abbrev first_of : List String → Called String
first_of [] = got "empty"
first_of (c ∷ cs) = got c

abbrev arrays : ArrayLib (List String)
arrays = record {
  empty = [];
  set = λ i c cs. got (cs ++ c ∷ []);
  root = first_of;
  put = λ b s. got b;
}

abbrev aggregate : List (List ℕ) → Option (List ℕ)
aggregate [] = none
aggregate (b ∷ bs) = some b

abbrev calls : PublishCalls (List String)
calls = record {
  pool = got (secpk_message ∷ bls_message ∷ []);
  arrays = arrays;
  weight = got 70;
  next_base_fee = λ z. 100;
  aggregates = record { signature_bytes = 2; aggregate = aggregate; zero_signature = 0 ∷ 0 ∷ [] };
  serialize = λ h. got (h.parent_base_fee ∷ []);
  serialize_block = λ b. got b.block_sig.bytes;
  publish = λ b. got tt;
}

abbrev made : MiningResult
made = record {
  ticket = "proof";
  election_proof = "proof";
  win_count = pos 1;
  parent_msg =
      record { cid = "a"; gas_limit = pos 10 } ∷ record { cid = "b"; gas_limit = pos 10 } ∷ [];
  receipts = record { msg_cid = "a"; receipt = "ok" } ∷ [];
  receipts_root = "root";
  sealed_path = "/second";
  win_post_proof = "post";
}

abbrev block : BlockMsg
block = record {
  header = record {
    made = made;
    messages = "b1";
    parent_weight = 70;
    parent_base_fee = 100;
    bls_aggregate = record { sig_type = sig_bls; bytes = 1 ∷ 2 ∷ [] };
  };
  block_sig = record { sig_type = sig_bls; bytes = 5 ∷ 7 ∷ [] };
  bls_messages = "m1" ∷ [];
  secpk_messages = "m2" ∷ [];
}

publishes : publish_block_msg plain_keys key calls made ≡ published block
unfolding keys_ready ready
publishes = refl

publish_block_msg-IsPublished_example : IsPublished plain_keys key calls made block
publish_block_msg-IsPublished_example =
    publish_block_msg-IsPublished plain_keys key calls plain-IsSound own made block publishes

goes_out : mine_and_publish plain_keys key calls mining_calls paths ≡ published block
unfolding keys_ready chain_ready ready
goes_out = refl

mine_and_publish-fee_example :
    (pos 1 ≤ℤ pos 1)
    × Distinct ("a" ∷ "b" ∷ [])
    × (block.header.parent_base_fee ≡ calls.next_base_fee (pos 20))
mine_and_publish-fee_example =
    mine_and_publish-fee plain_keys key calls plain-IsSound own mining_calls paths block goes_out
      (omega arith) (omega arith)

-- A BLS signature that is too short ends the process.
short_signature :
    publish_block_msg plain_keys key
      (record calls {
        pool =
            got (
              record bls_message { signature = record { sig_type = sig_bls; bytes = 1 ∷ [] } }
              ∷ []);
      })
      made
    ≡ publish_panics
unfolding ready
short_signature = refl
