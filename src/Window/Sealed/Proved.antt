-- ===== src/Window/Sealed/Proved.antt =====
-- miner/wdpost.go: what the message of winPoStProofs for a partition is made of.
use filecoin_sealer.Prelude.{
  ℕ, ◌≡◌, refl, sym, ap, ◌∙◌, subst, String, List, [], ◌∷◌, Option, none, some, ℤ, pos, Called, got,
  lost, ◌>>=◌, bind_got, got_injective,
}
use filecoin_sealer.Tables.{DbPostInfo}
use filecoin_sealer.Window.Bits.{Bitfields}
use filecoin_sealer.Window.Data.{Partition, to_int64}
use filecoin_sealer.Window.Deadlines.{PartitionRun}
use filecoin_sealer.Window.Generate.{PrivateSector, to_uint64, sectors_text, masked}
use filecoin_sealer.Window.Message.{PostParams, PostCalls, push_message, submit_post_message}
use filecoin_sealer.Window.Sealed.{
  SealedCalls, sector_of, SealedPost, sealed_post, no_post, post_panics, type_known,
  private_sectors, post_ends, with_mask, with_sealed, partition_win_post_proof, submitted_post,
  run_partition,
}

module _ (c : SealedCalls) where
  -- What the proof is asked about a row's sector: its own number, paths, seal proof and CID, and the
  -- type of window proof.
  pub record IsSectorOf (t : ℤ) (r : DbPostInfo) (s : PrivateSector) : Type 0 where
    pub cid_of : c.decode r.comm_r ≡ got s.sealed_cid
    pub number_of : s.sector_number ≡ to_uint64 r.sector_num
    pub cache_of : s.cache_dir_path ≡ r.cache_dir_path
    pub sealed_of : s.sealed_sector_path ≡ r.sealed_sector_path
    pub seal_of : s.seal_proof ≡ r.proof_type
    pub type_of : s.post_proof_type ≡ t

  sector_of-IsSectorOf :
      (t : ℤ) (cid : String) (r : DbPostInfo)
      → c.decode r.comm_r ≡ got cid
      → IsSectorOf t r (sector_of t cid r)
  sector_of-IsSectorOf t cid r e = record {
    cid_of = e;
    number_of = refl;
    cache_of = refl;
    sealed_of = refl;
    seal_of = refl;
    type_of = refl;
  }

  -- Each row's sector, in the rows' order.
  abbrev pub OfRows : ℤ → List DbPostInfo → List PrivateSector → Type 0
  OfRows t [] ps = ps ≡ []
  OfRows t (r ∷ rs) ps =
      (s : PrivateSector) × (rest : List PrivateSector) × (ps ≡ s ∷ rest)
      × IsSectorOf t r s
      × OfRows t rs rest

  of_rows :
      (t : ℤ) (rs : List DbPostInfo) (ps : List PrivateSector)
      → private_sectors c (some t) rs ≡ got ps
      → OfRows t rs ps
  unfolding private_sectors
  of_rows t [] ps h = sym (got_injective h)
  of_rows t (r ∷ rs) ps h =
      let (cid, ec, h1) = bind_got (c.decode r.comm_r) _ h in
      let (rest, er, h2) = bind_got (private_sectors c (some t) rs) _ h1 in
      (
        sector_of t cid r,
        rest,
        sym (got_injective h2),
        sector_of-IsSectorOf t cid r ec,
        of_rows t rs rest er,
      )

  -- The first row gives the type.
  abbrev pub OfTable : List DbPostInfo → List PrivateSector → Type 0
  OfTable [] ps = ps ≡ []
  OfTable (r ∷ rs) ps = (t : ℤ) × (c.window_type r.proof_type ≡ some t) × OfRows t (r ∷ rs) ps

  type_from :
      (r : DbPostInfo) (o : Option ℤ) (t : ℤ)
      → c.window_type r.proof_type ≡ o
      → elim o as (λ _. Called ℤ) [ some t ↦ got t | none ↦ lost "SealProofInfos" ] ≡ got t
      → c.window_type r.proof_type ≡ some t
  type_from r none t e h = cc
  type_from r (some t') t e h = cc

  of_table :
      (rs : List DbPostInfo) (ps : List PrivateSector)
      → private_sectors c none rs ≡ got ps
      → OfTable rs ps
  unfolding private_sectors
  of_table [] ps h = sym (got_injective h)
  of_table (r ∷ rs) ps h =
      let (cid, ec, h1) = bind_got (c.decode r.comm_r) _ h in
      let (t, et, h2) = bind_got (type_known c none r) _ h1 in
      let (rest, er, h3) = bind_got (private_sectors c (some t) rs) _ h2 in
      (
        t,
        type_from r (c.window_type r.proof_type) t refl et,
        (
          sector_of t cid r,
          rest,
          sym (got_injective h3),
          sector_of-IsSectorOf t cid r ec,
          of_rows t rs rest er,
        ),
      )

  -- The proof of a partition is made from the rows that the miner's table has of its live sectors.
  pub record IsProved {B : Type 0} (bits : Bitfields B) (p : Partition B) (rand : Option (List ℕ))
      (proofs : List (List ℕ)) : Type 0 where
    pub rows : List DbPostInfo
    pub sectors : List PrivateSector
    pub challenge : List ℕ
    pub asked : c.query (sectors_text c.format (bits.elements p.live_sectors)) ≡ got rows
    pub of_rows_all : OfTable rows sectors
    pub challenge_is : masked rand ≡ some challenge
    pub proved : c.window_post sectors challenge ≡ got proofs

  module _ {B : Type 0} (bits : Bitfields B) (p : Partition B) (rand : Option (List ℕ)) where
    module _ (rows : List DbPostInfo)
        (asked : c.query (sectors_text c.format (bits.elements p.live_sectors)) ≡ got rows)
        (proofs : List (List ℕ)) where
      ends-IsProved :
          (ps : List PrivateSector) (r : List ℕ) (x : Called (List (List ℕ)))
          → OfTable rows ps
          → masked rand ≡ some r
          → c.window_post ps r ≡ x
          → post_ends c x ≡ sealed_post proofs
          → IsProved bits p rand proofs
      ends-IsProved ps r (lost e) t em ex h = cc
      ends-IsProved ps r (got proof) t em ex h =
          let same : proof ≡ proofs = cc in
          record {
            rows = rows;
            sectors = ps;
            challenge = r;
            asked = asked;
            of_rows_all = t;
            challenge_is = em;
            proved = ex ∙ ap got same;
          }

      mask-IsProved :
          (ps : List PrivateSector) (o : Option (List ℕ))
          → OfTable rows ps
          → masked rand ≡ o
          → with_mask c ps o ≡ sealed_post proofs
          → IsProved bits p rand proofs
      mask-IsProved ps none t em h = cc
      mask-IsProved ps (some r) t em h = ends-IsProved ps r (c.window_post ps r) t em refl h

      sealed-IsProved :
          (x : Called (List PrivateSector))
          → private_sectors c none rows ≡ x
          → with_sealed c rand x ≡ sealed_post proofs
          → IsProved bits p rand proofs
      sealed-IsProved (lost e) ex h = cc
      sealed-IsProved (got ps) ex h = mask-IsProved ps (masked rand) (of_table rows ps ex) refl h

    asked-IsProved :
        (x : Called (List DbPostInfo)) (proofs : List (List ℕ))
        → c.query (sectors_text c.format (bits.elements p.live_sectors)) ≡ x
        → with_sealed c rand (x >>= private_sectors c none) ≡ sealed_post proofs
        → IsProved bits p rand proofs
    asked-IsProved (lost e) proofs asked h = cc
    asked-IsProved (got rows) proofs asked h =
        sealed-IsProved rows asked proofs (private_sectors c none rows) refl h

    pub partition_win_post_proof-IsProved :
        (proofs : List (List ℕ))
        → partition_win_post_proof c bits p rand ≡ sealed_post proofs
        → IsProved bits p rand proofs
    unfolding partition_win_post_proof
    partition_win_post_proof-IsProved proofs h =
        asked-IsProved (c.query (sectors_text c.format (bits.elements p.live_sectors))) proofs refl
          h

  submitted_params :
      (calls : PostCalls) (epoch deadline index : ℤ) (proofs : List (List ℕ)) (params : PostParams)
      (cid : String)
      → submit_post_message calls epoch deadline index proofs ≡ got (params, cid)
      → (params.proofs ≡ proofs)
        × (params.deadline ≡ deadline)
        × (params.partition ≡ index)
        × (params.chain_commit_epoch ≡ epoch)
  unfolding submit_post_message
  submitted_params calls epoch deadline index proofs params cid h =
      let (_, _, h1) = bind_got calls.tipset _ h in
      let (rand, _, h2) = bind_got calls.ticket _ h1 in
      let (_, _, h3) = bind_got calls.pushes.serialize _ h2 in
      let (_, _, h4) = bind_got (push_message calls.pushes) _ h3 in
      let same = got_injective h4 in
      (
        sym (ap (λ x. x.0.proofs) same),
        sym (ap (λ x. x.0.deadline) same),
        sym (ap (λ x. x.0.partition) same),
        sym (ap (λ x. x.0.chain_commit_epoch) same),
      )

  -- What the message of a partition says: a proof from the rows that the miner's table has of the
  -- partition's live sectors, each with its own number, CID, paths and seal proof and all with the type of window proof of the
  -- first one, for the deadline's challenge; and the deadline, the partition and the challenge's epoch.
  pub run_partition-IsProved :
      {B : Type 0} (bits : Bitfields B) (calls : PostCalls) (run : PartitionRun B)
      (params : PostParams) (cid : String)
      → run_partition c bits calls run ≡ some (got (params, cid))
      → IsProved bits run.partition run.rand params.proofs
        × (params.deadline ≡ to_int64 run.di.index)
        × (params.partition ≡ pos run.number)
        × (params.chain_commit_epoch ≡ run.di.challenge)
  unfolding run_partition
  run_partition-IsProved {B} bits calls run params cid h =
      by_post (partition_win_post_proof c bits run.partition run.rand) refl h
    where
      by_post :
          (x : SealedPost)
          → partition_win_post_proof c bits run.partition run.rand ≡ x
          → submitted_post c bits calls run x ≡ some (got (params, cid))
          → IsProved bits run.partition run.rand params.proofs
            × (params.deadline ≡ to_int64 run.di.index)
            × (params.partition ≡ pos run.number)
            × (params.chain_commit_epoch ≡ run.di.challenge)
      by_post post_panics ex h = cc
      by_post (no_post e) ex h = cc
      by_post (sealed_post proofs) ex h =
          let (same, deadline, partition, epoch) =
            submitted_params calls run.di.challenge (to_int64 run.di.index) (pos run.number) proofs
              params cid (cc) in
          (
            subst (IsProved bits run.partition run.rand) (sym same)
                (partition_win_post_proof-IsProved bits run.partition run.rand proofs ex),
            deadline,
            partition,
            epoch,
          )
