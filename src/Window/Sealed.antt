-- ===== src/Window/Sealed.antt =====
-- miner/wdpost.go: partitionWinPoStProof, the proof of a partition from the miner's own rows, and the
-- goroutine of winPoStProofs that submits it.
use filecoin_sealer.Prelude.{
  ℕ, ◌≡◌, refl, sym, ap, ◌∙◌, subst, String, List, [], ◌∷◌, Option, none, some, ℤ, pos, Called, got,
  lost, ◌>>=◌, bind_got, got_injective,
}
use filecoin_sealer.Tables.{DbPostInfo}
use filecoin_sealer.Window.Bits.{Bitfields}
use filecoin_sealer.Window.Data.{Partition, to_int64}
use filecoin_sealer.Window.Deadlines.{PartitionRun}
use filecoin_sealer.Window.Generate.{PrivateSector, sectors_text, masked, to_uint64}
use filecoin_sealer.Window.Message.{PostParams, PostCalls, submit_post_message}
pub mod Proved

-- The calls of one run: the text of a number, QueryToPoSt of a text of sectors, the reading of a CID,
-- the window proof's type of a seal proof, and the proof.
pub record SealedCalls : Type 0 where
  pub format : ℕ → String
  pub query : String → Called (List DbPostInfo)
  pub decode : String → Called String
  pub window_type : ℤ → Option ℤ
  pub window_post : List PrivateSector → List ℕ → Called (List (List ℕ))

-- `pii` of a row, with the type of proof that was found first.
abbrev pub sector_of : ℤ → String → DbPostInfo → PrivateSector
sector_of t cid r = record {
  cache_dir_path = r.cache_dir_path;
  post_proof_type = t;
  sealed_sector_path = r.sealed_sector_path;
  seal_proof = r.proof_type;
  sector_number = to_uint64 r.sector_num;
  sealed_cid = cid;
}

-- How a run ends; a randomness of fewer than 32 bytes panics.
pub data SealedPost : Type 0 where
  sealed_post : List (List ℕ) → SealedPost
  no_post : String → SealedPost
  post_panics : SealedPost

module _ (c : SealedCalls) where
  abbrev pub type_known : Option ℤ → DbPostInfo → Called ℤ
  type_known (some t) r = got t
  type_known none r = elim (c.window_type r.proof_type) [
    | some t ↦ got t
    | none ↦ lost "SealProofInfos"
  ]

  -- The loop over the rows, with `postType` so far.
  unfoldable pub private_sectors : Option ℤ → List DbPostInfo → Called (List PrivateSector)
  unfolding to_uint64
  private_sectors post_type [] = got []
  private_sectors post_type (r ∷ rs) = do
    cid ← c.decode r.comm_r
    t ← type_known post_type r
    rest ← private_sectors (some t) rs
    got (sector_of t cid r ∷ rest)

  abbrev pub post_ends : Called (List (List ℕ)) → SealedPost
  post_ends (lost e) = no_post e
  post_ends (got proof) = sealed_post proof

  abbrev pub with_mask : List PrivateSector → Option (List ℕ) → SealedPost
  with_mask pis none = post_panics
  with_mask pis (some rand) = post_ends (c.window_post pis rand)

  abbrev pub with_sealed : Option (List ℕ) → Called (List PrivateSector) → SealedPost
  with_sealed rand (lost e) = no_post e
  with_sealed rand (got pis) = with_mask pis (masked rand)

  module _ {B : Type 0} (bits : Bitfields B) where
    -- The faulty sectors of the partition are asked for with the others.
    unfoldable pub partition_win_post_proof : Partition B → Option (List ℕ) → SealedPost
    unfolding private_sectors
    partition_win_post_proof p rand =
        with_sealed rand
          (c.query (sectors_text c.format (bits.elements p.live_sectors)) >>= private_sectors none)

    -- The goroutine of a partition, where `none` is a panic.
    abbrev pub submitted_post :
        PostCalls → PartitionRun B → SealedPost → Option (Called (PostParams × String))
    submitted_post calls run post_panics = none
    submitted_post calls run (no_post e) = some (lost e)
    submitted_post calls run (sealed_post proofs) =
        some (
          submit_post_message calls run.di.challenge (to_int64 run.di.index) (pos run.number)
            proofs)

    unfoldable pub run_partition :
        PostCalls → PartitionRun B → Option (Called (PostParams × String))
    unfolding partition_win_post_proof submit_post_message to_int64
    run_partition calls run =
        submitted_post calls run (partition_win_post_proof run.partition run.rand)
