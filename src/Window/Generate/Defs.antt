-- ===== src/Window/Generate/Defs.antt =====
-- worker/wdpost.go: GeneratePoStProof; worker/query.go: queryPoSt.
use filecoin_sealer.Prelude.{
  ℕ, suc, zero, ◌-◌, ◌%◌, ◌==◌, String, Bool, true, false, List, [], ◌∷◌, ◌++◌, Option, none, some,
  ℤ, pos, negsuc, if◌then◌else◌, Called, got, lost, ◌>>=◌,
}
use Prim.Native.String.{◌++◌ as append_text}
use filecoin_sealer.Tables.{DbPostInfo}
use filecoin_sealer.Window.Bits.{Bitfields}
use filecoin_sealer.Window.Data.{VanillaProof, DeadLineInfo, Partition, PostTransfer}

-- `NsPrivateSectorInfo`
pub record PrivateSector : Type 0 where
  pub cache_dir_path : String
  pub post_proof_type : ℤ
  pub sealed_sector_path : String
  pub seal_proof : ℤ
  pub sector_number : ℕ
  pub sealed_cid : String

-- The calls of one run.
pub record GenerateCalls : Type 0 where
  -- `NsNewIDAddress`
  pub address : Called String
  -- `MinerApi` is not nil after the five attempts.
  pub connected : Bool
  -- `fmt.Sprintf("%d", sid)`
  pub format : ℕ → String
  -- `MinerApi.QueryToPoSt`, of a text of sectors
  pub query : String → Called (List DbPostInfo)
  -- `NsCidDecode`
  pub decode : String → Called String
  -- `NsGeneratePoStFallbackSectorChallenges`, of a proof type, a randomness and the sectors
  pub challenges : ℤ → List ℕ → List ℕ → Called (ℕ → List ℕ)
  -- `NsGenerateSingleVanillaProof`
  pub vanilla : PrivateSector → List ℕ → Called (List ℕ)

-- The worker, and the arguments of the call.
pub record Assignment (B : Type 0) : Type 0 where
  pub worker_id : String
  pub host_name : String
  pub di : DeadLineInfo
  pub miner_id : ℕ
  pub partition : Partition B
  pub randomness : Option (List ℕ)
  pub addr_info : String
  pub addr_type : String
  pub part_inx : ℤ

-- The variables of the function that its deferred function sends.
pub record Work (B : Type 0) : Type 0 where
  pub to_prove : B
  pub repo_prove : B
  pub fault : B
  pub proofs : List VanillaProof
  pub post_proof_type : ℤ
  pub fcs : Option (ℕ → List ℕ)

-- How a run ends: without an address there is no message, after a panic the message is sent first, and
-- without a connection it is not sent.
pub data Generated (B : Type 0) : Type 0 where
  no_address : String → Generated B
  submitted : PostTransfer B → Generated B
  unsent : PostTransfer B → Generated B
  panicked : PostTransfer B → Generated B

-- `uint64(x)` of an `int64`
unfoldable pub to_uint64 : ℤ → ℕ
to_uint64 (pos n) = n
to_uint64 (negsuc n) = 18446744073709551615 - n

-- `randomness[31] &= 0x3f`, which panics when there are fewer bytes.
abbrev pub masked_at : ℕ → List ℕ → Option (List ℕ)
masked_at k [] = none
masked_at zero (x ∷ xs) = some (x % 64 ∷ xs)
masked_at (suc k) (x ∷ xs) = elim (masked_at k xs) [ none ↦ none | some ys ↦ some (x ∷ ys) ]

abbrev pub masked : Option (List ℕ) → Option (List ℕ)
masked none = none
masked (some xs) = masked_at 31 xs

-- The sectors as a text, with commas.
abbrev pub sectors_text : (ℕ → String) → List ℕ → String
sectors_text format [] = ""
sectors_text format (x ∷ []) = format x
sectors_text format (x ∷ y ∷ ys) =
    append_text (format x) (append_text "," (sectors_text format (y ∷ ys)))

abbrev pub blank_post : DbPostInfo
blank_post = record {
  actor_id = pos 0;
  sector_num = pos 0;
  worker_id = "";
  comm_r = "";
  cache_dir_path = "";
  sealed_sector_path = "";
  proof_type = pos 0;
  deadline_inx = 0;
  partition_inx = 0;
  state = pos 0;
}

-- `tMap[sid]`: the last row of the sector.
unfoldable pub row_from : DbPostInfo → List DbPostInfo → ℕ → DbPostInfo
unfolding to_uint64
row_from found [] sid = found
row_from found (r ∷ rows) sid =
    row_from (if to_uint64 r.sector_num == sid then r else found) rows sid

abbrev pub row : List DbPostInfo → ℕ → DbPostInfo
row rows sid = row_from blank_post rows sid

abbrev pub private_of : ℤ → DbPostInfo → String → PrivateSector
private_of post_proof_type r cid = record {
  cache_dir_path = r.cache_dir_path;
  post_proof_type = post_proof_type;
  sealed_sector_path = r.sealed_sector_path;
  seal_proof = r.proof_type;
  sector_number = to_uint64 r.sector_num;
  sealed_cid = cid;
}

abbrev pub query_post : GenerateCalls → String → Called (List DbPostInfo)
query_post c text = if c.connected then c.query text else lost "websocket routine exiting"

module _ {B : Type 0} where
  -- The message of the deferred function.
  abbrev pub message : Assignment B → String → Work B → Option (List ℕ) → String → PostTransfer B
  message w actor g randomness err = record {
    worker_id = w.worker_id;
    host_name = w.host_name;
    post_proof_type = g.post_proof_type;
    actor = actor;
    addr_info = w.addr_info;
    addr_type = w.addr_type;
    miner_id = w.miner_id;
    current_epoch = w.di.current_epoch;
    close_epoch = w.di.close;
    challenge = w.di.challenge;
    dealine = w.di.index;
    partition_index = w.part_inx;
    all_prove_bitfield = g.to_prove;
    to_prove_bitfield = g.repo_prove;
    fault_bitfield = g.fault;
    proofs = g.proofs;
    randomness = randomness;
    err = err;
  }

module _ {B : Type 0} (bits : Bitfields B) (c : GenerateCalls) where
  abbrev pub work_new : Work B
  work_new = record {
    to_prove = bits.new;
    repo_prove = bits.new;
    fault = bits.new;
    proofs = [];
    post_proof_type = pos 0;
    fcs = none;
  }

  -- `repoProve`, the sectors that the miner answered.
  abbrev pub listed_rows : List DbPostInfo → B → B
  listed_rows [] b = b
  listed_rows (r ∷ rows) b = listed_rows rows (bits.set (to_uint64 r.sector_num) b)

  -- `toProve`: the live sectors without the faulty ones, and the recovering ones.
  abbrev pub sectors_to_prove : Partition B → Called B
  sectors_to_prove p = do
    b ← bits.subtract p.live_sectors p.faulty_sectors
    bits.merge b p.recovering_sectors

  module _ (rows : List DbPostInfo) (rand : List ℕ) (sset : List ℕ) where
    -- The sector's proof; a sector without one is a fault.
    abbrev pub proved_or_fault : ℕ → Work B → Called (List ℕ) → Work B
    proved_or_fault sid g (got p) = record g {
      proofs = g.proofs ++ record { sector_num = sid; proof = p } ∷ [];
    }
    proved_or_fault sid g (lost e) = record g {
      repo_prove = bits.unset sid g.repo_prove;
      fault = bits.set sid g.fault;
    }

    abbrev pub challenged : ℕ → String → Work B → Option (ℕ → List ℕ) → Work B × Option String
    challenged sid cid g (some f) = (
      proved_or_fault sid g (c.vanilla (private_of g.post_proof_type (row rows sid) cid) (f sid)),
      none,
    )
    challenged sid cid g none = elim (c.challenges (row rows sid).proof_type rand sset) [
      | lost e ↦ (record g { post_proof_type = (row rows sid).proof_type }, some e)
      | got f ↦ (
        proved_or_fault sid (record g { post_proof_type = (row rows sid).proof_type; fcs = some f })
            (c.vanilla (private_of (row rows sid).proof_type (row rows sid) cid) (f sid)),
        none,
      )
    ]

    -- The function that `ForEach` calls, with its error.
    abbrev pub decoded : ℕ → Work B → Called String → Work B × Option String
    decoded sid g (lost e) = (g, some e)
    decoded sid g (got cid) = challenged sid cid g g.fcs

    unfoldable pub prove_sector : ℕ → Work B → Work B × Option String
    unfolding row_from to_uint64
    prove_sector sid g = decoded sid g (c.decode (row rows sid).comm_r)

    -- `ForEach`, which stops at an error.
    unfoldable pub prove_sectors : List ℕ → Work B → Work B × Option String
    unfolding prove_sector
    prove_sectors [] g = (g, none)
    prove_sectors (sid ∷ sids) g = elim (prove_sector sid g).1 [
      | some e ↦ ((prove_sector sid g).0, some e)
      | none ↦ prove_sectors sids (prove_sector sid g).0
    ]

  abbrev pub foreach_error : Option String → String
  foreach_error none = ""
  foreach_error (some e) = append_text "PostErr repoProve.ForEach " e

  module _ (w : Assignment B) (actor : String) where
    abbrev pub fail : String → Work B → Generated B
    fail e g = submitted (message w actor g w.randomness e)

    abbrev pub proven_message : Work B × Option String → List ℕ → Generated B
    proven_message (g, e) rand = submitted (message w actor g (some rand) (foreach_error e))

    abbrev pub with_randomness : List DbPostInfo → Work B → Option (List ℕ) → Generated B
    with_randomness rows g none = panicked (message w actor g w.randomness "")
    with_randomness rows g (some rand) =
        proven_message
          (prove_sectors rows rand (bits.elements g.to_prove) (bits.elements g.repo_prove) g) rand

    abbrev pub with_count : List DbPostInfo → Work B → Called ℕ → Generated B
    with_count rows g (lost e) = fail (append_text "PostErr repoProve.Count " e) g
    with_count rows g (got n) = with_randomness rows g (masked w.randomness)

    abbrev pub with_rows : B → Called (List DbPostInfo) → Generated B
    with_rows all (lost e) =
        fail (append_text "PoStInfo QueryToPoSt " e) (record work_new { to_prove = all })
    with_rows all (got []) = fail "PoStInfo QueryToPoSt" (record work_new { to_prove = all })
    with_rows all (got (r ∷ rows)) =
        let g : Work B = record work_new {
          to_prove = all;
          repo_prove = listed_rows (r ∷ rows) bits.new;
        } in
        with_count (r ∷ rows) g (bits.count g.repo_prove)

    abbrev pub with_sectors : Called B → Generated B
    with_sectors (lost e) = fail (append_text "PoStErr " e) work_new
    with_sectors (got all) =
        with_rows all (query_post c (sectors_text c.format (bits.elements all)))

  abbrev pub with_address : Assignment B → Called String → Generated B
  with_address w (lost e) = no_address e
  with_address w (got actor) = with_sectors w actor (sectors_to_prove w.partition)

  -- The deferred function sends to a `MinerApi` that is not nil; the code that may panic needs the rows
  -- that came over it.
  abbrev pub sent_if : Bool → Generated B → Generated B
  sent_if true g = g
  sent_if false (submitted t) = unsent t
  sent_if false g = g

  -- `GeneratePoStProof`, up to the message of its deferred function.
  unfoldable pub generate_post_proof : Assignment B → Generated B
  unfolding prove_sectors to_uint64
  generate_post_proof w = sent_if c.connected (with_address w c.address)
