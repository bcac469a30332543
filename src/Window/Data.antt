-- ===== src/Window/Data.antt =====
-- util/api.go: the messages of the window proofs, and what they take from the chain.
use filecoin_sealer.Prelude.{ℕ, ◌-◌, ltb, String, List, Option, ℤ, pos, negsuc, if◌then◌else◌}

pub record VanillaProof : Type 0 where
  pub sector_num : ℕ
  pub proof : List ℕ

-- `NsDeadLineInfo`, the fields that the program reads.
pub record DeadLineInfo : Type 0 where
  pub current_epoch : ℤ
  pub index : ℕ
  pub opens : ℤ
  pub close : ℤ
  pub challenge : ℤ

-- `NsPartition`, the fields that the program reads.
pub record Partition (B : Type 0) : Type 0 where
  pub live_sectors : B
  pub faulty_sectors : B
  pub recovering_sectors : B

-- `randomness` is `none` when it is nil.
pub record PostTransfer (B : Type 0) : Type 0 where
  pub worker_id : String
  pub host_name : String
  pub post_proof_type : ℤ
  pub actor : String
  pub addr_info : String
  pub addr_type : String
  pub miner_id : ℕ
  pub current_epoch : ℤ
  pub close_epoch : ℤ
  pub challenge : ℤ
  pub dealine : ℕ
  pub partition_index : ℤ
  pub all_prove_bitfield : B
  pub to_prove_bitfield : B
  pub fault_bitfield : B
  pub proofs : List VanillaProof
  pub randomness : Option (List ℕ)
  pub err : String

pub record MinerPostInfo (B : Type 0) : Type 0 where
  pub di : DeadLineInfo
  pub partitions : List (Partition B)
  pub rand : Option (List ℕ)

-- `int64(x)` of a `uint64`
unfoldable pub to_int64 : ℕ → ℤ
to_int64 n = if ltb n 9223372036854775808 then pos n else negsuc (18446744073709551615 - n)
