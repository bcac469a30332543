-- ===== src/Window/Collect/Defs.antt =====
-- miner/wdpost.go: the loop of submitPoSt, and the proofs in the order of their sectors.
use filecoin_sealer.Prelude.{
  ℕ, ◌+◌, ◌==◌, String, Bool, true, false, List, [], ◌∷◌, ◌++◌, map, Option, none, some, ℤ, negsuc,
  eq_ℤ, if◌then◌else◌, Called, got, lost, ◌>>=◌,
}
use filecoin_sealer.Window.Bits.{Bitfields}
use filecoin_sealer.Window.Data.{VanillaProof, PostTransfer, to_int64}

-- What the loop's `select` receives.
pub data PostSignal (B : Type 0) : Type 0 where
  transfer : PostTransfer B → PostSignal B
  timeout : PostSignal B
  abort : PostSignal B

-- The variables of the loop.
pub record Collected (B : Type 0) : Type 0 where
  pub index : ℤ
  pub actor : Option String
  pub deadline : ℤ
  pub challenge : ℤ
  pub post_proof_type : Option ℤ
  pub randomness : Option (List ℕ)
  pub miner_id : ℤ
  pub all_prove : B
  pub add_prove : B
  pub faults : B
  pub proofs : List VanillaProof

-- How the loop ends; it still waits when no more signal comes.
pub data Collection (B : Type 0) : Type 0 where
  complete : Collected B → Collection B
  timed_out : Collected B → Collection B
  aborted : Collected B → Collection B
  failed : String → Collection B
  waits : Collected B → Collection B

-- `if v == -1 { v = x }`
abbrev pub keep_first : ℤ → ℤ → ℤ
keep_first v x = if eq_ℤ v (negsuc 0) then x else v

-- `if v == nil { v = x }`
abbrev pub first_some {ℓ} : {A : Type ℓ} → Option A → Option A → Option A
first_some none x = x
first_some (some v) x = some v

-- `vanillaMap[sid]` when the map is filled in the order of the list: the last entry counts, and a
-- missing one is nil.
unfoldable pub vanilla_from : List ℕ → List VanillaProof → ℕ → List ℕ
vanilla_from found [] sid = found
vanilla_from found (vp ∷ vps) sid =
    vanilla_from (if vp.sector_num == sid then vp.proof else found) vps sid

unfoldable pub vanilla_map : List VanillaProof → ℕ → List ℕ
unfolding vanilla_from
vanilla_map proofs sid = vanilla_from [] proofs sid

module _ {B : Type 0} where
  -- The fields that the first transfer sets.
  abbrev pub remembered : PostTransfer B → Collected B → Collected B
  remembered t s = record s {
    index = keep_first s.index t.partition_index;
    actor = first_some s.actor (some t.actor);
    deadline = keep_first s.deadline (to_int64 t.dealine);
    challenge = keep_first s.challenge t.challenge;
    post_proof_type = first_some s.post_proof_type (some t.post_proof_type);
    randomness = first_some s.randomness t.randomness;
    miner_id = keep_first s.miner_id (to_int64 t.miner_id);
  }

  -- The variables after a transfer, with the sets of all sectors, of the proven and of the faulty.
  abbrev pub grown : PostTransfer B → Collected B → B → B → B → Collected B
  grown t s all add fault = record (remembered t s) {
    all_prove = all;
    add_prove = add;
    faults = fault;
    proofs = s.proofs ++ t.proofs;
  }

module _ {B : Type 0} (bits : Bitfields B) where
  abbrev pub collected_new : Collected B
  collected_new = record {
    index = negsuc 0;
    actor = none;
    deadline = negsuc 0;
    challenge = negsuc 0;
    post_proof_type = none;
    randomness = none;
    miner_id = negsuc 0;
    all_prove = bits.new;
    add_prove = bits.new;
    faults = bits.new;
    proofs = [];
  }

  -- The set of all sectors, and its count: the first one that is not empty.
  abbrev pub all_of : B → B → Called (B × ℕ)
  all_of all given = do
    n ← bits.count all
    if n == 0 then (bits.count given >>= λ k. got (given, k)) else got (all, n)

  -- One transfer: the new variables, and whether every sector is accounted for.
  unfoldable pub take_transfer : PostTransfer B → Collected B → Called (Collected B × Bool)
  unfolding to_int64
  take_transfer t s = do
    all ← all_of s.all_prove t.all_prove_bitfield
    add ← bits.merge s.add_prove t.to_prove_bitfield
    fault ← bits.merge s.faults t.fault_bitfield
    tcnt ← bits.count add
    fcnt ← bits.count fault
    got (grown t s all.0 add fault, all.1 == tcnt + fcnt)

  -- The loop.
  unfoldable pub collect : List (PostSignal B) → Collected B → Collection B
  unfolding take_transfer
  collect [] s = waits s
  collect (timeout ∷ signals) s = timed_out s
  collect (abort ∷ signals) s = aborted s
  collect (transfer t ∷ signals) s = elim (take_transfer t s) [
    | lost e ↦ failed e
    | got r ↦ elim r.1 [ true ↦ complete r.0 | false ↦ collect signals r.0 ]
  ]

  -- `sortedProofs`
  unfoldable pub sorted_proofs : Collected B → List (List ℕ)
  unfolding vanilla_map
  sorted_proofs s = map (vanilla_map s.proofs) (bits.elements s.all_prove)
