-- ===== src/Mining/Defs.antt =====
-- mining/util.go: MinerMining, getTicketProof and getElectionProof.
use filecoin_sealer.Prelude.{
  ℕ, String, Bool, false, ◌||◌, List, [], ◌∷◌, ◌++◌, Option, none, some, ℤ, pos, ltb_ℤ, str_eq,
  if◌then◌else◌, Called, got, lost, ◌>>=◌, ◌>>◌, select,
}
use filecoin_sealer.Chain.Heads.{is_seen}

-- A message with its CID.
pub record CidMessage : Type 0 where
  pub cid : String
  pub gas_limit : ℤ

-- A receipt of the trace, with its message's CID.
pub record Receipt : Type 0 where
  pub msg_cid : String
  pub receipt : String

-- `NsMiningBaseInfo`, the fields that are read.
pub record BaseInfo : Type 0 where
  pub sectors : List ℕ

-- The calls of getTicketProof and getElectionProof: the address, the randomness, the signature.
pub record VrfCalls : Type 0 where
  pub marshal : Called (Unit {0})
  pub draw : Called (Unit {0})
  pub vrf : Called String

-- The calls of one run, in their order. `win_count` is ComputeWinCount of a proof, `block_messages`
-- the messages of each block of the head, by their two kinds of signature, `state` the trace of the
-- head's messages, and `is_there` whether a path has the sealed file of a sector.
pub record MiningCalls : Type 0 where
  pub base_info : Called (Option BaseInfo)
  pub ticket : VrfCalls
  pub election : VrfCalls
  pub win_count : String → ℤ
  pub block_messages : List (Called (List CidMessage × List CidMessage))
  pub state : List CidMessage → Called (List Receipt)
  pub set_receipts : List Receipt → Called (Unit {0})
  pub root : Called String
  pub actor_id : Called ℕ
  pub marshal : Called (Unit {0})
  pub draw : Called (Unit {0})
  pub is_there : String → ℕ → Bool
  pub winning_post : String → Called String

-- `MiningResult`, and what the block's header says of messages and proofs.
pub record MiningResult : Type 0 where
  pub ticket : String
  pub election_proof : String
  pub win_count : ℤ
  pub parent_msg : List CidMessage
  pub receipts : List Receipt
  pub receipts_root : String
  pub sealed_path : String
  pub win_post_proof : String

-- How a run ends; an election proof that fails is read for the error's text, which panics.
pub data Mined : Type 0 where
  mined : MiningResult → Mined
  not_mined : String → Mined
  panicked : String → Mined

-- `getTicketProof` and `getElectionProof`, up to their randomness
unfoldable pub vrf_proof : VrfCalls → Called String
vrf_proof c = c.marshal >> (c.draw >> c.vrf)

-- `parentMsg` and the keys of `mapMsg`
pub record ParentMessages : Type 0 where
  pub parent_msg : List CidMessage
  pub map_msg : List String

-- A message of a block, unless it has come before.
abbrev pub add_message : CidMessage → ParentMessages → ParentMessages
add_message m p =
    if is_seen m.cid p.map_msg
    then p
    else record { parent_msg = p.parent_msg ++ m ∷ []; map_msg = m.cid ∷ p.map_msg }

abbrev pub add_messages : List CidMessage → ParentMessages → ParentMessages
add_messages [] p = p
add_messages (m ∷ ms) p = add_messages ms (add_message m p)

unfoldable pub parent_messages :
    List (Called (List CidMessage × List CidMessage)) → ParentMessages → Called ParentMessages
parent_messages [] p = got p
parent_messages (lost e ∷ bs) p = lost e
parent_messages (got (bls, secpk) ∷ bs) p =
    parent_messages bs (add_messages secpk (add_messages bls p))

abbrev pub any_there : (ℕ → Bool) → List ℕ → Bool
any_there there [] = false
any_there there (s ∷ ss) = there s || any_there there ss

-- The first path that has the file of a sector, and a blank text if none has.
unfoldable pub find_sealed_path : (String → ℕ → Bool) → List ℕ → List String → String
find_sealed_path is_there sectors [] = ""
find_sealed_path is_there sectors (p ∷ ps) =
    if any_there (is_there p) sectors then p else find_sealed_path is_there sectors ps

module _ (c : MiningCalls) (sealed_paths : List String) where
  abbrev pub with_path : BaseInfo → String → Called String
  with_path mbi path = if str_eq path "" then lost "MinerMining path" else c.winning_post path

  -- `mbi.Sectors[0]`, which panics when there is none.
  abbrev pub with_first_sector : List ℕ → Called MiningResult → Called (Option MiningResult)
  with_first_sector [] rest = got none
  with_first_sector (s ∷ ss) rest = rest >>= λ r. got (some r)

  -- From the miner's address on, with what is known of the block.
  abbrev pub prove_block : BaseInfo → MiningResult → Called MiningResult
  prove_block mbi r = do
    c.marshal
    c.draw
    let path = find_sealed_path c.is_there mbi.sectors sealed_paths
    proof ← with_path mbi path
    got (record r { sealed_path = path; win_post_proof = proof })

  -- From the parent messages on, where `none` is a panic.
  abbrev pub make_block : BaseInfo → String → String → Called (Option MiningResult)
  make_block mbi ticket ep = do
    p ← parent_messages c.block_messages (record { parent_msg = []; map_msg = [] })
    trace ← c.state p.parent_msg
    let receipts = select (λ r. is_seen r.msg_cid p.map_msg) trace
    c.set_receipts receipts
    root ← c.root
    c.actor_id
    with_first_sector mbi.sectors (
        prove_block mbi (record {
          ticket = ticket;
          election_proof = ep;
          win_count = c.win_count ep;
          parent_msg = p.parent_msg;
          receipts = receipts;
          receipts_root = root;
          sealed_path = "";
          win_post_proof = "";
        }))

  abbrev pub ended : Called (Option MiningResult) → Mined
  ended (lost e) = not_mined e
  ended (got none) = panicked "index out of range"
  ended (got (some r)) = mined r

  abbrev pub with_election : BaseInfo → String → Called String → Mined
  with_election mbi ticket (lost e) = panicked e
  with_election mbi ticket (got ep) =
      if ltb_ℤ (c.win_count ep) (pos 1)
      then not_mined "wincount"
      else ended (make_block mbi ticket ep)

  abbrev pub with_ticket : BaseInfo → Called String → Mined
  with_ticket mbi (lost e) = not_mined e
  with_ticket mbi (got ticket) = with_election mbi ticket (vrf_proof c.election)

  abbrev pub with_base : Called (Option BaseInfo) → Mined
  with_base (lost e) = not_mined e
  with_base (got none) = not_mined "mbi == nil"
  with_base (got (some mbi)) = with_ticket mbi (vrf_proof c.ticket)

  -- `MinerMining`
  unfoldable pub miner_mining : Mined
  unfolding parent_messages find_sealed_path vrf_proof
  miner_mining = with_base c.base_info
