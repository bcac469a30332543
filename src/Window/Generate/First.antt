-- ===== src/Window/Generate/First.antt =====
-- worker/wdpost.go with miner/wdpost.go: the first worker's message decides the proof of a partition.
use filecoin_sealer.Prelude.{
  ℕ, ◌+◌, ◌≡◌, refl, ap, ◌∙◌, ◌==◌, String, true, false, ◌||◌, List, [], ◌∷◌, map, ℤ, arith, length,
  Bool-cases, inl, inr, Called, got, lost,
}
use filecoin_sealer.Tables.{DbPostInfo}
use filecoin_sealer.Window.Bits.{Bitfields, Reliable, has, parts-length}
use filecoin_sealer.Window.Data.{PostTransfer, VanillaProof}
use filecoin_sealer.Window.Collect.{
  Collected, PostSignal, transfer, complete, collected_new, grown, take_transfer, collect,
  sorted_proofs, vanilla_map, vanilla_from,
}
use filecoin_sealer.Window.Collect.Gathered.{proved, vanilla_map-Genuine}
use filecoin_sealer.Window.Collect.Complete.{map_same}
use filecoin_sealer.Window.Collect.Progress.{last_taken}
use filecoin_sealer.Window.Generate.Defs.{GenerateCalls, Assignment, submitted, generate_post_proof}
use filecoin_sealer.Window.Generate.Loop.{works, proof_or_blank}
use filecoin_sealer.Window.Generate.Split.{names, Runs, Splits, attempt}
use filecoin_sealer.Window.Generate.Sent.{generate_post_proof-Splits}

-- A sector without a proof has a blank one.
vanilla_from-missing :
    (z : ℕ) (found : List ℕ) (vps : List VanillaProof)
    → proved z vps ≡ false
    → vanilla_from found vps z ≡ found
unfolding vanilla_from
vanilla_from-missing z found [] h = refl
vanilla_from-missing z found (vp ∷ vps) h = elim (Bool-cases (vp.sector_num == z)) [
  | inl e ↦ absurd (cc (rw e at h))
  | inr e ↦
      (let h' : (false || proved z vps) ≡ false = rw e at h in
        rw e (vanilla_from-missing z found vps h'))
]

module _ {B : Type 0} (bits : Bitfields B) (sure : Reliable bits) where
  -- What the loop makes of a first message: the sets are the message's own.
  first_transfer :
      (t : PostTransfer B)
      → (add : B) × (fault : B) × (n : ℕ) × (k : ℕ) × (l : ℕ) × (take_transfer bits t
            (collected_new bits)
          ≡ got (grown t (collected_new bits) t.all_prove_bitfield add fault, n == k + l))
        × ((z : ℕ) → has z (bits.elements add) ≡ has z (bits.elements t.to_prove_bitfield))
        × ((z : ℕ) → has z (bits.elements fault) ≡ has z (bits.elements t.fault_bitfield))
        × (n ≡ length (bits.elements t.all_prove_bitfield))
        × (k ≡ length (bits.elements add))
        × (l ≡ length (bits.elements fault))
  unfolding take_transfer
  first_transfer t =
      let (add, e_add) = sure.merges bits.new t.to_prove_bitfield in
      let (fault, e_fault) = sure.merges bits.new t.fault_bitfield in
      let (n, e_n) = sure.counts t.all_prove_bitfield in
      let (k, e_k) = sure.counts add in
      let (l, e_l) = sure.counts fault in
      let (o, e_o) = sure.counts bits.new in
      let empty : (o == 0) ≡ true =
        zero_count o (bits.count_sound bits.new o e_o ∙ ap length bits.new_sound) in
      (
        add,
        fault,
        n,
        k,
        l,
        rw (e_o, empty, e_n, e_add, e_fault, e_k, e_l),
        λ z. bits.merge_sound _ _ add z e_add ∙ rw bits.new_sound,
        λ z. bits.merge_sound _ _ fault z e_fault ∙ rw bits.new_sound,
        bits.count_sound _ n e_n,
        bits.count_sound _ k e_k,
        bits.count_sound _ l e_l,
      )
    where
      zero_count : (o : ℕ) → o ≡ 0 → (o == 0) ≡ true
      zero_count o e = ground (arith, e)

module _ {B : Type 0} (bits : Bitfields B) (sure : Reliable bits) (c : GenerateCalls)
    (w : Assignment B) (actor : String) (all : B) (r : DbPostInfo) (rs : List DbPostInfo)
    (rand : List ℕ) (f : ℕ → List ℕ) (pt : ℤ)
    (known : (z : ℕ) → names z (r ∷ rs) ≡ has z (bits.elements all)) where
  proof_of : ℕ → Called (List ℕ)
  proof_of z = attempt bits c w actor all r rs rand f pt z

  Sent : PostTransfer B → Type 0
  Sent t = Splits bits c w actor all r rs rand f pt t

  -- The sector's entry in the proofs of a message.
  entry :
      (t : PostTransfer B) (z : ℕ)
      → Sent t
      → has z (bits.elements all) ≡ true
      → vanilla_map t.proofs z ≡ proof_or_blank (proof_of z)
  unfolding proof_of Sent vanilla_map
  entry t z s h = by_attempt (attempt bits c w actor all r rs rand f pt z) refl
    where
      by_attempt :
          (o : Called (List ℕ))
          → attempt bits c w actor all r rs rand f pt z ≡ o
          → vanilla_from [] t.proofs z
            ≡ proof_or_blank (attempt bits c w actor all r rs rand f pt z)
      by_attempt (got p) e =
          vanilla_map-Genuine _ z [] t.proofs s.genuine (s.covered z ∙ rw (known z, h, e))
      by_attempt (lost x) e =
          vanilla_from-missing z [] t.proofs (s.covered z ∙ rw (known z, h, e)) ∙ rw e

  counted :
      (t : PostTransfer B) (add fault : B) (n k l : ℕ)
      → Sent t
      → ((z : ℕ) → has z (bits.elements add) ≡ has z (bits.elements t.to_prove_bitfield))
      → ((z : ℕ) → has z (bits.elements fault) ≡ has z (bits.elements t.fault_bitfield))
      → n ≡ length (bits.elements t.all_prove_bitfield)
      → k ≡ length (bits.elements add)
      → l ≡ length (bits.elements fault)
      → (n == k + l) ≡ true
  unfolding Sent
  counted t add fault n k l s ha hf en ek el =
      let parts =
        parts-length (λ z. works (attempt bits c w actor all r rs rand f pt z)) (bits.elements all)
          (bits.elements add) (bits.elements fault) (bits.ascending all) (bits.ascending add)
          (bits.ascending fault) (λ z. ha z ∙ s.repo z ∙ rw (known z))
          (λ z. hf z ∙ s.faulty z ∙ rw (known z)) in
      ground (arith, en ∙ ap (λ x. length (bits.elements x)) s.all_sectors, ek, el, parts)

  -- Every operation of go-bitfield succeeds, and so do the calls of a worker's run of GeneratePoStProof,
  -- but for the proofs of single sectors; the miner's answer names exactly the sectors of the
  -- partition, and they are all of one kind of proof. Then the worker's message completes the miner's
  -- collection at once, whatever messages follow, and the proofs that the partition's proof is made of
  -- are, in ascending order of the sectors, the worker's own where it has one, and blank otherwise.
  pub first_message_completes :
      (signals : List (PostSignal B))
      → Runs bits c w actor all r rs rand f pt
      → (t : PostTransfer B) × (s : Collected B) × (generate_post_proof bits c w ≡ submitted t)
        × (collect bits (transfer t ∷ signals) (collected_new bits) ≡ complete s)
        × (sorted_proofs bits s
            ≡ map
                (λ z. proof_or_blank (attempt bits c w actor all r rs rand f pt z))
                (bits.elements all))
  unfolding sorted_proofs Sent proof_of
  first_message_completes signals ok =
      let (t, sent, _, s) = generate_post_proof-Splits bits sure c w actor all r rs rand f pt ok in
      let (add, fault, n, k, l, taken, ha, hf, en, ek, el) = first_transfer bits sure t in
      (
        t,
        grown t (collected_new bits) t.all_prove_bitfield add fault,
        sent,
        last_taken bits t (collected_new bits) _ signals (n == k + l) taken
            (counted t add fault n k l s ha hf en ek el),
        rw s.all_sectors
            (map_same (vanilla_map t.proofs) _ (bits.elements all) (λ z h. entry t z s h)),
      )
