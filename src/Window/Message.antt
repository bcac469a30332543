-- ===== src/Window/Message.antt =====
-- miner/wdpost.go: submitPostMessage and the end of submitPoSt; miner/sendmsgbypri.go: checkNonce.
use filecoin_sealer.Prelude.{
  ℕ, String, ◌&&◌, not, List, [], ◌∷◌, ℤ, str_eq, if◌then◌else◌, Called, got, lost, ◌>>=◌, ◌>>◌,
}
use filecoin_sealer.Window.Collect.{Collected, sorted_proofs}
use filecoin_sealer.Window.Bits.{Bitfields}

-- The chain's answers to `checkNonce`: the head, the nonce of the pool, the nonce of the actor.
pub record NonceCalls : Type 0 where
  pub head : Called (Unit {0})
  pub pool_nonce : Called ℕ
  pub actor_nonce : Called ℕ

abbrev pub or_else {ℓ} : {A : Type ℓ} → Called A → Called A → Called A
or_else (got a) k = got a
or_else (lost e) k = k

unfoldable pub check_nonce : NonceCalls → Called ℕ
check_nonce c = c.head >> or_else c.pool_nonce c.actor_nonce

-- The calls that make, sign and push a message: its text of parameters, the sender's address, the
-- gas, the signature, and the CID that the pool answers.
pub record PushCalls : Type 0 where
  pub serialize : Called String
  pub key_address : Called String
  pub nonce : NonceCalls
  pub gas : Called (Unit {0})
  pub sign : Called (Unit {0})
  pub push : Called String

-- `NsSubmitWindowedPoStParams`
pub record PostParams : Type 0 where
  pub deadline : ℤ
  pub partition : ℤ
  pub proofs : List (List ℕ)
  pub chain_commit_epoch : ℤ
  pub chain_commit_rand : String

pub record PostCalls : Type 0 where
  pub tipset : Called (Unit {0})
  pub ticket : Called String
  pub pushes : PushCalls

-- A signed message from the key's address, at its nonce.
abbrev pub push_message : PushCalls → Called String
push_message c = do
  c.key_address >>= λ addr. check_nonce c.nonce >>= λ n. c.gas >> (c.sign >> c.push)

-- The parameters and the CID of the message.
unfoldable pub submit_post_message :
    PostCalls → ℤ → ℤ → ℤ → List (List ℕ) → Called (PostParams × String)
unfolding check_nonce
submit_post_message c challenge deadline index stark_proofs =
    c.tipset
    >> (c.ticket >>= λ rand.
        c.pushes.serialize
        >> (push_message c.pushes >>= λ cid. got (
          record {
            deadline = deadline;
            partition = index;
            proofs = stark_proofs;
            chain_commit_epoch = challenge;
            chain_commit_rand = rand;
          },
          cid,
        )))

-- What becomes of a complete collection.
pub data Posted : Type 0 where
  no_proofs : Posted
  no_stark : String → Posted
  -- Without a private key the proof is made, and no message sent.
  not_sent : Posted
  unsent : String → Posted
  sent : PostParams → String → Posted

abbrev pub post_sent : Called (PostParams × String) → Posted
post_sent (lost e) = unsent e
post_sent (got (params, cid)) = sent params cid

module _ {B : Type 0} (bits : Bitfields B) where
  abbrev pub with_stark :
      String → String → PostCalls → Collected B → Called (List (List ℕ)) → Posted
  with_stark addr_info addr_type c s (lost e) = no_stark e
  with_stark addr_info addr_type c s (got stark) =
      if not (str_eq addr_info "") && str_eq addr_type "pri"
      then post_sent (submit_post_message c s.challenge s.deadline s.index stark)
      else not_sent

  -- The rest of submitPoSt; `stark` is `NsGenerateWindowPoStWithVanilla` of the sorted proofs.
  unfoldable pub post_collected :
      String → String → PostCalls → (List (List ℕ) → Called (List (List ℕ))) → Collected B → Posted
  unfolding submit_post_message
  post_collected addr_info addr_type c stark s = elim s.proofs [
    | [] ↦ no_proofs
    | vp ∷ vps ↦ with_stark addr_info addr_type c s (stark (sorted_proofs bits s))
  ]
