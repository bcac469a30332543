-- ===== src/Window/Collect/Progress.antt =====
-- A collection completes once every sector has been proved.
use filecoin_sealer.Prelude.{
  ℕ, ◌+◌, ◌≡◌, sym, ap, subst, ◌∙◌, inl, inr, Bool, true, false, ◌||◌, ◌==◌, List, [], ◌∷◌, map,
  arith, All, length, Bool-cases, got,
}
use filecoin_sealer.Window.Bits.{Bitfields, Reliable, has, Ascending, has-equal}
use filecoin_sealer.Window.Data.{PostTransfer}
use filecoin_sealer.Window.Collect.Defs.{
  PostSignal, transfer, Collected, complete, grown, all_of, collected_new, take_transfer, collect,
  sorted_proofs,
}
use filecoin_sealer.Window.Collect.Gathered.{
  Honest, HonestSignal, Gathered, collected_new-Gathered, merged_faultless, take_transfer-Gathered,
  all_of-known,
}
use filecoin_sealer.Window.Collect.Complete.{collect_lem}

module _ {B : Type 0} (bits : Bitfields B) where
  pub last_taken :
      (t : PostTransfer B) (s s1 : Collected B) (signals : List (PostSignal B)) (done : Bool)
      → take_transfer bits t s ≡ got (s1, done)
      → done ≡ true
      → collect bits (transfer t ∷ signals) s ≡ complete s1
  unfolding collect
  last_taken t s s1 signals done e d = rw (collect, e, d)

  one_taken :
      (t : PostTransfer B) (s s1 s' : Collected B) (signals : List (PostSignal B)) (done : Bool)
      → take_transfer bits t s ≡ got (s1, done)
      → done ≡ false
      → collect bits signals s1 ≡ complete s'
      → collect bits (transfer t ∷ signals) s ≡ complete s'
  unfolding collect
  one_taken t s s1 s' signals done e d h = rw (collect, e, d) h

  -- One of the messages proves the sector.
  abbrev pub proves : ℕ → List (PostTransfer B) → Bool
  proves z [] = false
  proves z (t ∷ ts) = has z (bits.elements t.to_prove_bitfield) || proves z ts

module _ {B : Type 0} (bits : Bitfields B) (sure : Reliable bits) (π : ℕ → List ℕ) (all : List ℕ)
    (a : Ascending all) where
  all_of_total : (b c : B) → (r : B × ℕ) × (all_of bits b c ≡ got r)
  all_of_total b c =
      let (n, e) = sure.counts b in
      let (k, f) = sure.counts c in
      elim (Bool-cases (n == 0)) [ inl z ↦ ((c, k), rw (e, z, f)) | inr z ↦ ((b, n), rw (e, z)) ]

  uncounted :
      (n k l : ℕ) (add fault : B)
      → n ≡ length all
      → k ≡ length (bits.elements add)
      → l ≡ length (bits.elements fault)
      → bits.elements fault ≡ []
      → bits.elements add ≡ all
      → (n == k + l) ≡ false
      → ⊥
  uncounted n k l add fault en ek el none e f =
      ground (arith, en, ek ∙ ap length e, el ∙ ap length none, f)

  -- A transfer is taken; when it does not complete the collection, a sector is not proved yet.
  taken_total :
      (t : PostTransfer B) (s : Collected B)
      → Honest bits π all t
      → Gathered bits π all s
      → (s' : Collected B) × (done : Bool) × (take_transfer bits t s ≡ got (s', done))
        × ((z : ℕ)
            → has z (bits.elements s'.add_prove)
              ≡ (has z (bits.elements s.add_prove) || has z (bits.elements t.to_prove_bitfield)))
        × (done ≡ false → bits.elements s'.add_prove ≡ all → ⊥)
  unfolding take_transfer
  taken_total t s ht hs =
      let (r, e_all) = all_of_total s.all_prove t.all_prove_bitfield in
      let (add, e_add) = sure.merges s.add_prove t.to_prove_bitfield in
      let (fault, e_fault) = sure.merges s.faults t.fault_bitfield in
      let (k, e_k) = sure.counts add in
      let (l, e_l) = sure.counts fault in
      let counted =
        all_of-known bits π all s.all_prove t.all_prove_bitfield r hs.all_sectors ht.all_sectors
          e_all in
      let none_faulty = merged_faultless bits π all t s ht hs fault e_fault in
      (
        grown t s r.0 add fault,
        r.1 == k + l,
        rw (e_all, e_add, e_fault, e_k, e_l),
        λ z. bits.merge_sound _ _ add z e_add,
        λ f e.
            uncounted r.1 k l add fault counted.1 (bits.count_sound add k e_k)
              (bits.count_sound fault l e_l) none_faulty e f,
      )

  all_added :
      (s : Collected B)
      → Gathered bits π all s
      → ((z : ℕ) → has z all ≡ true → (has z (bits.elements s.add_prove) || false) ≡ true)
      → bits.elements s.add_prove ≡ all
  all_added s hs c =
      has-equal (bits.elements s.add_prove) all (bits.ascending s.add_prove) a (λ z. both z)
    where
      both : (z : ℕ) → has z (bits.elements s.add_prove) ≡ has z all
      both z = ground (arith, hs.inside z, c z)

  Honest-signals :
      (ts : List (PostTransfer B))
      → All (Honest bits π all) ts
      → All (HonestSignal bits π all) (map transfer ts)
  Honest-signals [] h = tt
  Honest-signals (t ∷ ts) h = (h.0, Honest-signals ts h.1)

  Completes : List (PostTransfer B) → Collected B → Type 0
  Completes ts s = (s' : Collected B) × (collect bits (map transfer ts) s ≡ complete s')

  collect-Completes :
      (ts : List (PostTransfer B)) (s : Collected B)
      → All (Honest bits π all) ts
      → Gathered bits π all s
      → (bits.elements s.add_prove ≡ all → ⊥)
      → ((z : ℕ)
          → has z all ≡ true
          → (has z (bits.elements s.add_prove) || proves bits z ts) ≡ true)
      → Completes ts s
  unfolding Completes
  collect-Completes [] s hts hs open_yet c = absurd (open_yet (all_added s hs c))
  collect-Completes (t ∷ ts) s hts hs open_yet c =
      let (s1, done, e, more, short) = taken_total t s hts.0 hs in
      let (g, _, _) = take_transfer-Gathered bits π all t s hts.0 hs s1 done a e in
      elim (Bool-cases done) [
        | inl d ↦ (s1, last_taken bits t s s1 (map transfer ts) done e d)
        | inr d ↦
            (let (s', f) =
                collect-Completes ts s1 hts.1 g (short d) (λ z h. covered s1 z (more z) (c z h)) in
              (s', one_taken bits t s s1 s' (map transfer ts) done e d f))
      ]
    where
      covered :
          (s1 : Collected B) (z : ℕ)
          → has z (bits.elements s1.add_prove)
            ≡ (has z (bits.elements s.add_prove) || has z (bits.elements t.to_prove_bitfield))
          → (has z (bits.elements s.add_prove) || proves bits z (t ∷ ts)) ≡ true
          → (has z (bits.elements s1.add_prove) || proves bits z ts) ≡ true
      covered s1 z m h = ground (arith, m, h)

  -- Every operation of go-bitfield succeeds, and the partition's sectors `all` are not empty. The
  -- messages of the workers each carry the proof `π z` of every sector z that they say they have
  -- proved, name no fault, and together prove every sector. Then the loop completes, and makes the
  -- partition's proof of the proofs of all its sectors in ascending order.
  pub collect_completes :
      (ts : List (PostTransfer B)) (z : ℕ)
      → has z all ≡ true
      → All (Honest bits π all) ts
      → ((y : ℕ) → has y all ≡ true → proves bits y ts ≡ true)
      → (s : Collected B) × (collect bits (map transfer ts) (collected_new bits) ≡ complete s)
        × (sorted_proofs bits s ≡ map π all)
  unfolding Completes
  collect_completes ts z hz hts c =
      let (s, e) =
        collect-Completes ts (collected_new bits) hts (collected_new-Gathered bits π all)
          (λ n. absurd (cc (subst (λ xs. has z xs ≡ true) (sym n ∙ bits.new_sound) hz)))
          (λ y h. rw (bits.new_sound, c y h)) in
      (s, e, collect_lem bits π all a (map transfer ts) s (Honest-signals ts hts) e)
