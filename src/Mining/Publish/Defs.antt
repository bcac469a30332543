-- ===== src/Mining/Publish/Defs.antt =====
-- mining/util.go: publishBlockMsg; mining/mining.go: the goroutine of MinerServerNotify; util/types.go:
-- NsaggregateSignatures and NsComputeMsgMeta.
use filecoin_sealer.Prelude.{
  ℕ, zero, suc, ltb, Bool, true, false, String, List, [], ◌∷◌, ◌++◌, length, Option, none, some, ℤ,
  pos, ◌+ℤ◌, wrap_int64, if◌then◌else◌, Called, got, lost, ◌>>=◌, ◌>>◌,
}
use filecoin_sealer.Keys.{Key, KeyLib, SigType, sig_bls, Signature, sign_msg}
use filecoin_sealer.Mining.Defs.{
  CidMessage, MiningCalls, MiningResult, Mined, mined, not_mined, panicked, miner_mining,
}

-- A message of the pool: its CID and its signature, and its block of storage: of the message alone when
-- its signature is BLS, and of the signed message otherwise.
pub record PoolMessage : Type 0 where
  pub cid : String
  pub signature : Signature
  pub storage : Called String

-- `blk.BlsMessages`, `blk.SecpkMessages`, `blsSigs`, `blkcids` and `secpkcids`
pub record Selected : Type 0 where
  pub bls_messages : List String
  pub secpk_messages : List String
  pub bls_sigs : List Signature
  pub blkcids : List String
  pub secpkcids : List String

abbrev pub is_bls : SigType → Bool
is_bls sig_bls = true
is_bls _ = false

abbrev pub with_message : PoolMessage → String → Selected → Selected
with_message m block s =
    if is_bls m.signature.sig_type
    then record s {
      bls_messages = s.bls_messages ++ m.cid ∷ [];
      bls_sigs = s.bls_sigs ++ m.signature ∷ [];
      blkcids = s.blkcids ++ block ∷ [];
    }
    else record s {
      secpk_messages = s.secpk_messages ++ m.cid ∷ [];
      secpkcids = s.secpkcids ++ block ∷ [];
    }

-- The loop over the messages of the pool.
unfoldable pub select_messages : List PoolMessage → Selected → Called Selected
select_messages [] s = got s
select_messages (m ∷ ms) s = m.storage >>= λ block. select_messages ms (with_message m block s)

-- `totalLimit`
unfoldable pub total_limit : ℤ → List CidMessage → ℤ
unfolding wrap_int64
total_limit total [] = total
total_limit total (m ∷ ms) = total_limit (wrap_int64 (total +ℤ m.gas_limit)) ms

abbrev pub take : ℕ → List ℕ → List ℕ
take zero bs = []
take (suc n) [] = []
take (suc n) (b ∷ bs) = b ∷ take n bs

-- `data[:n]`, which panics when there are fewer bytes; the data have no room behind their end.
abbrev pub slice : ℕ → List ℕ → Option (List ℕ)
slice n bs = if ltb (length bs) n then none else some (take n bs)

abbrev pub sliced : ℕ → List Signature → Option (List (List ℕ))
sliced n [] = some []
sliced n (s ∷ ss) = elim (slice n s.bytes) [
  | none ↦ none
  | some b ↦ elim (sliced n ss) [ none ↦ none | some bs ↦ some (b ∷ bs) ]
]

-- The library of aggregate signatures: the length of one, the aggregate, which may be nil, and the
-- signature of nothing.
pub record AggregateLib : Type 0 where
  pub signature_bytes : ℕ
  pub aggregate : List (List ℕ) → Option (List ℕ)
  pub zero_signature : List ℕ

abbrev pub bls_signature : List ℕ → Signature
bls_signature b = record { sig_type = sig_bls; bytes = b }

-- NsaggregateSignatures, where `none` is a panic.
unfoldable pub aggregate_signatures : AggregateLib → List Signature → Option (Called Signature)
aggregate_signatures lib sigs = elim (sliced lib.signature_bytes sigs) [
  | none ↦ none
  | some bs ↦ elim (lib.aggregate bs) [
    | some b ↦ some (got (bls_signature b))
    | none ↦ elim sigs [
      | [] ↦ some (got (bls_signature lib.zero_signature))
      | s ∷ ss ↦ some (lost "bls.Aggregate returned nil")
    ]
  ]
]

-- The arrays of the library that a header's root of messages is made of.
pub record ArrayLib (R : Type 0) : Type 0 where
  pub empty : R
  pub set : ℕ → String → R → Called R
  pub root : R → Called String
  -- The CID of the two roots, stored.
  pub put : String → String → Called String

module _ {R : Type 0} (lib : ArrayLib R) where
  abbrev pub set_all : ℕ → List String → R → Called R
  set_all i [] arr = got arr
  set_all i (c ∷ cs) arr = lib.set i c arr >>= λ arr'. set_all (suc i) cs arr'

  unfoldable pub compute_msg_meta : List String → List String → Called String
  compute_msg_meta bmsg_cids smsg_cids = do
    bm_arr ← set_all 0 bmsg_cids lib.empty
    sm_arr ← set_all 0 smsg_cids lib.empty
    bmroot ← lib.root bm_arr
    smroot ← lib.root sm_arr
    lib.put bmroot smroot

-- What publishBlockMsg writes into the header that MinerMining made.
pub record PublishedHeader : Type 0 where
  pub made : MiningResult
  pub messages : String
  pub parent_weight : ℕ
  pub parent_base_fee : ℕ
  pub bls_aggregate : Signature

-- `NsBlockMsg`
pub record BlockMsg : Type 0 where
  pub header : PublishedHeader
  pub block_sig : Signature
  pub bls_messages : List String
  pub secpk_messages : List String

-- The calls of one run, in their order. `next_base_fee` is ComputeNextBaseFee of the head's first block,
-- its number of blocks and its height.
pub record PublishCalls (R : Type 0) : Type 0 where
  pub pool : Called (List PoolMessage)
  pub arrays : ArrayLib R
  pub weight : Called ℕ
  pub next_base_fee : ℤ → ℕ
  pub aggregates : AggregateLib
  pub serialize : PublishedHeader → Called (List ℕ)
  pub serialize_block : BlockMsg → Called (List ℕ)
  pub publish : List ℕ → Called (Unit {0})

-- How a run ends.
pub data PublishResult : Type 0 where
  published : BlockMsg → PublishResult
  unpublished : String → PublishResult
  publish_panics : PublishResult

abbrev pub none_selected : Selected
none_selected = record {
  bls_messages = [];
  secpk_messages = [];
  bls_sigs = [];
  blkcids = [];
  secpkcids = [];
}

module _ {A R : Type 0} (keys : KeyLib A) (key : Key A) (c : PublishCalls R) where
  abbrev pub prepared : List PoolMessage → Called (Selected × String × ℕ)
  prepared msgs = do
    s ← select_messages msgs none_selected
    messages ← compute_msg_meta c.arrays s.blkcids s.secpkcids
    weight ← c.weight
    got (s, messages, weight)

  abbrev pub signed_block : Selected → PublishedHeader → Called BlockMsg
  signed_block s header = do
    hbuf ← c.serialize header
    signature ← sign_msg keys key.key_info hbuf
    let block : BlockMsg = record {
      header = header;
      block_sig = signature;
      bls_messages = s.bls_messages;
      secpk_messages = s.secpk_messages;
    }
    b ← c.serialize_block block
    c.publish b
    got block

  abbrev pub publish_ends : Called BlockMsg → PublishResult
  publish_ends (lost e) = unpublished e
  publish_ends (got b) = published b

  abbrev pub with_aggregate :
      MiningResult → Selected → String → ℕ → Option (Called Signature) → PublishResult
  with_aggregate r s messages weight none = publish_panics
  with_aggregate r s messages weight (some (lost e)) = unpublished e
  with_aggregate r s messages weight (some (got sig)) = publish_ends (
      signed_block s (record {
        made = r;
        messages = messages;
        parent_weight = weight;
        parent_base_fee = c.next_base_fee (total_limit (pos 0) r.parent_msg);
        bls_aggregate = sig;
      }))

  abbrev pub with_prepared : MiningResult → Called (Selected × String × ℕ) → PublishResult
  with_prepared r (lost e) = unpublished e
  with_prepared r (got (s, messages, weight)) =
      with_aggregate r s messages weight (aggregate_signatures c.aggregates s.bls_sigs)

  -- `publishBlockMsg`
  unfoldable pub publish_block_msg : MiningResult → PublishResult
  unfolding select_messages compute_msg_meta total_limit aggregate_signatures
  publish_block_msg r = with_prepared r (c.pool >>= prepared)

  abbrev pub publish_mined : Mined → PublishResult
  publish_mined (mined r) = publish_block_msg r
  publish_mined (not_mined e) = unpublished e
  publish_mined (panicked e) = publish_panics

  -- The goroutine that MinerServerNotify starts for a head.
  unfoldable pub mine_and_publish : MiningCalls → List String → PublishResult
  unfolding miner_mining
  mine_and_publish mining sealed_paths = publish_mined (miner_mining mining sealed_paths)
