-- ===== src/Window/Collect/Complete.antt =====
-- A collection that completes without faults has the proof of every sector, in the sectors' order.
use filecoin_sealer.Prelude.{
  ℕ, ◌≡◌, refl, subst, Bool, true, false, List, [], ◌∷◌, map, arith, All, Called, got, lost,
}
use filecoin_sealer.Window.Bits.{Bitfields, has, Ascending}
use filecoin_sealer.Window.Collect.Defs.{
  PostSignal, transfer, timeout, abort, Collected, complete, failed, vanilla_map, collected_new,
  take_transfer, collect, sorted_proofs,
}
use filecoin_sealer.Window.Collect.Gathered.{
  HonestSignal, Gathered, collected_new-Gathered, take_transfer-Gathered, vanilla_map-Genuine,
}

pub map_same :
    (f g : ℕ → List ℕ) (xs : List ℕ) → ((z : ℕ) → has z xs ≡ true → f z ≡ g z) → map f xs ≡ map g xs
map_same f g [] h = refl
map_same f g (x ∷ xs) h =
    ground (arith, h x (ground arith), map_same f g xs (λ z e. h z (ground (arith, e))))

complete_injective : {B : Type 0} {s s' : Collected B} → complete s ≡ complete s' → s ≡ s'
complete_injective h = cc

module _ {B : Type 0} (bits : Bitfields B) (π : ℕ → List ℕ) (all : List ℕ) (a : Ascending all) where
  Proven : Collected B → Type 0
  Proven s =
      Gathered bits π all s × (bits.elements s.all_prove ≡ all) × (bits.elements s.add_prove ≡ all)

  collect-Proven :
      (signals : List (PostSignal B)) (s s' : Collected B)
      → All (HonestSignal bits π all) signals
      → Gathered bits π all s
      → collect bits signals s ≡ complete s'
      → Proven s'
  unfolding Proven collect
  collect-Proven [] s s' hs g h = cc
  collect-Proven (timeout ∷ signals) s s' hs g h = cc
  collect-Proven (abort ∷ signals) s s' hs g h = cc
  collect-Proven (transfer t ∷ signals) s s' hs g h =
      taken (λ s1 k e. collect-Proven signals s1 s' hs.1 k e) (take_transfer bits t s) refl h
    where
      more :
          ((s1 : Collected B)
            → Gathered bits π all s1
            → collect bits signals s1 ≡ complete s'
            → Proven s')
          → (s1 : Collected B) (done : Bool)
          → Gathered bits π all s1
            × (bits.elements s1.all_prove ≡ all)
            × (done ≡ true → bits.elements s1.add_prove ≡ all)
          → (elim done [ true ↦ complete s1 | false ↦ collect bits signals s1 ]) ≡ complete s'
          → Proven s'
      more rest s1 true k h = subst Proven (complete_injective h) (k.0, k.1, k.2 refl)
      more rest s1 false k h = rest s1 k.0 h

      taken :
          ((s1 : Collected B)
            → Gathered bits π all s1
            → collect bits signals s1 ≡ complete s'
            → Proven s')
          → (o : Called (Collected B × Bool)) → take_transfer bits t s ≡ o
          → (elim o [
            | lost e ↦ failed e
            | got r ↦ elim r.1 [ true ↦ complete r.0 | false ↦ collect bits signals r.0 ]
          ])
            ≡ complete s'
          → Proven s'
      taken rest (lost text) e h = cc
      taken rest (got (s1, done)) e h =
          more rest s1 done (take_transfer-Gathered bits π all t s hs.0 g s1 done a e) h

  Proven-sorted_proofs : (s : Collected B) → Proven s → sorted_proofs bits s ≡ map π all
  unfolding Proven sorted_proofs vanilla_map
  Proven-sorted_proofs s p = rw p.1 (
      map_same (vanilla_map s.proofs) π all
        (λ z e. vanilla_map-Genuine π z [] s.proofs p.0.genuine (p.0.covered z (rw p.2 e))))

  -- Workers send their messages on one partition of the sectors `all`, in any order and number, each
  -- with the proof `π z` of every sector z that it says it has proved, and no faults. When the loop
  -- completes, the proofs that it makes the partition's proof of are those of all its sectors, in
  -- ascending order, whoever sent them.
  pub collect_lem :
      (signals : List (PostSignal B)) (s : Collected B)
      → All (HonestSignal bits π all) signals
      → collect bits signals (collected_new bits) ≡ complete s
      → sorted_proofs bits s ≡ map π all
  collect_lem signals s hs h =
      Proven-sorted_proofs s
        (collect-Proven signals (collected_new bits) s hs (collected_new-Gathered bits π all) h)
