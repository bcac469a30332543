-- ===== src/Window/Collect/Gathered.antt =====
-- What the loop has collected so far, when every message proves what it says it proves.
use filecoin_sealer.Prelude.{
  ℕ, ◌+◌, ◌≡◌, refl, sym, ap, subst, ◌∙◌, ◌==◌, Bool, true, false, ◌||◌, List, [], ◌∷◌, ◌++◌, arith,
  ◌⊎◌, inl, inr, All, length, Bool-cases, if◌then◌else◌, got, ◌>>=◌, bind_got, got_injective,
}
use filecoin_sealer.Window.Bits.{Bitfields, has, Ascending, Subset, Subset-equal, has-equal}
use filecoin_sealer.Window.Data.{VanillaProof, PostTransfer}
use filecoin_sealer.Window.Collect.Defs.{
  PostSignal, transfer, timeout, abort, Collected, vanilla_from, collected_new, grown, all_of,
  take_transfer,
}

-- There is a proof of the sector.
abbrev pub proved : ℕ → List VanillaProof → Bool
proved z [] = false
proved z (vp ∷ vps) = (vp.sector_num == z) || proved z vps

-- Every proof is the one that `π` gives to its sector.
abbrev pub Genuine : (ℕ → List ℕ) → List VanillaProof → Type 0
Genuine π vps = All (λ vp. vp.proof ≡ π vp.sector_num) vps

same_sector : (π : ℕ → List ℕ) (a z : ℕ) → (a == z) ≡ true → π a ≡ π z
same_sector π a z h = ap π (ground arith)

vanilla_from-Genuine :
    (π : ℕ → List ℕ) (z : ℕ) (found : List ℕ) (vps : List VanillaProof)
    → Genuine π vps
    → found ≡ π z
    → vanilla_from found vps z ≡ π z
unfolding vanilla_from
vanilla_from-Genuine π z found [] g h = h
vanilla_from-Genuine π z found (vp ∷ vps) g h = elim (Bool-cases (vp.sector_num == z)) [
  | inl e ↦ rw e (vanilla_from-Genuine π z vp.proof vps g.1 (g.0 ∙ same_sector π vp.sector_num z e))
  | inr e ↦ rw e (vanilla_from-Genuine π z found vps g.1 h)
]

pub vanilla_map-Genuine :
    (π : ℕ → List ℕ) (z : ℕ) (found : List ℕ) (vps : List VanillaProof)
    → Genuine π vps
    → proved z vps ≡ true
    → vanilla_from found vps z ≡ π z
unfolding vanilla_from
vanilla_map-Genuine π z found [] g h = cc
vanilla_map-Genuine π z found (vp ∷ vps) g h = elim (Bool-cases (vp.sector_num == z)) [
  | inl e ↦ rw e (vanilla_from-Genuine π z vp.proof vps g.1 (g.0 ∙ same_sector π vp.sector_num z e))
  | inr e ↦
      (let h' : (false || proved z vps) ≡ true = rw e at h in
        rw e (vanilla_map-Genuine π z found vps g.1 h'))
]

pub proved-append :
    (z : ℕ) (xs ys : List VanillaProof) → proved z (xs ++ ys) ≡ (proved z xs || proved z ys)
proved-append z [] ys = refl
proved-append z (x ∷ xs) ys = ground (arith, proved-append z xs ys)

pub Genuine-append :
    (π : ℕ → List ℕ) (xs ys : List VanillaProof)
    → Genuine π xs
    → Genuine π ys
    → Genuine π (xs ++ ys)
Genuine-append π [] ys g h = h
Genuine-append π (x ∷ xs) ys g h = (g.0, Genuine-append π xs ys g.1 h)

module _ {B : Type 0} (bits : Bitfields B) (π : ℕ → List ℕ) (all : List ℕ) where
  -- A worker's message that proves what it says it proves, of the partition's sectors, without
  -- faults.
  pub record Honest (t : PostTransfer B) : Type 0 where
    pub all_sectors : bits.elements t.all_prove_bitfield ≡ all
    pub inside : Subset (bits.elements t.to_prove_bitfield) all
    pub faultless : bits.elements t.fault_bitfield ≡ []
    pub genuine : Genuine π t.proofs
    pub covered :
        (z : ℕ) → has z (bits.elements t.to_prove_bitfield) ≡ true → proved z t.proofs ≡ true

  abbrev pub HonestSignal : PostSignal B → Type 0
  HonestSignal (transfer t) = Honest t
  HonestSignal timeout = Unit
  HonestSignal abort = Unit

  -- What the loop has collected so far.
  pub record Gathered (s : Collected B) : Type 0 where
    pub all_sectors : (bits.elements s.all_prove ≡ []) ⊎ (bits.elements s.all_prove ≡ all)
    pub inside : Subset (bits.elements s.add_prove) all
    pub faultless : bits.elements s.faults ≡ []
    pub genuine : Genuine π s.proofs
    pub covered : (z : ℕ) → has z (bits.elements s.add_prove) ≡ true → proved z s.proofs ≡ true

  pub collected_new-Gathered : Gathered (collected_new bits)
  collected_new-Gathered = record {
    all_sectors = inl bits.new_sound;
    inside = λ z h. absurd (cc (rw bits.new_sound at h));
    faultless = bits.new_sound;
    genuine = tt;
    covered = λ z h. absurd (cc (rw bits.new_sound at h));
  }

  -- The set of all sectors is known from the first transfer on.
  known_pair :
      (b : B) (n : ℕ) (r : B × ℕ)
      → (b, n) ≡ r
      → bits.elements b ≡ all
      → n ≡ length (bits.elements b)
      → (bits.elements r.0 ≡ all) × (r.1 ≡ length all)
  known_pair b n r h e l =
      subst (λ q. (bits.elements q.0 ≡ all) × (q.1 ≡ length all)) h (e, l ∙ ap length e)

  not_empty :
      (b : B) (n : ℕ)
      → (bits.elements b ≡ []) ⊎ (bits.elements b ≡ all)
      → n ≡ length (bits.elements b)
      → (n == 0) ≡ false
      → bits.elements b ≡ all
  not_empty b n (inr e) l z = e
  not_empty b n (inl e) l z = absurd (ground (arith, l ∙ ap length e, z))

  pub all_of-known :
      (b c : B) (r : B × ℕ)
      → (bits.elements b ≡ []) ⊎ (bits.elements b ≡ all)
      → bits.elements c ≡ all
      → all_of bits b c ≡ got r
      → (bits.elements r.0 ≡ all) × (r.1 ≡ length all)
  all_of-known b c r known given h =
      let (n, count_b, rest) = bind_got (bits.count b) _ h in
      counted n (bits.count_sound b n count_b) rest
    where
      counted :
          (n : ℕ)
          → n ≡ length (bits.elements b)
          → (if n == 0 then (bits.count c >>= λ k. got (c, k)) else got (b, n)) ≡ got r
          → (bits.elements r.0 ≡ all) × (r.1 ≡ length all)
      counted n e h' = elim (Bool-cases (n == 0)) [
        | inl z ↦
            (let again : (bits.count c >>= λ k. got (c, k)) ≡ got r = rw z at h' in
              let (k, count_c, same) = bind_got (bits.count c) _ again in
              known_pair c k r (got_injective same) given (bits.count_sound c k count_c))
        | inr z ↦ known_pair b n r (got_injective (rw z at h')) (not_empty b n known e z) e
      ]

  module _ (t : PostTransfer B) (s : Collected B) (ht : Honest t) (hs : Gathered s) where
    pub merged_inside :
        (add : B)
        → bits.merge s.add_prove t.to_prove_bitfield ≡ got add
        → Subset (bits.elements add) all
    merged_inside add e z h = inside_or (rw (sym (bits.merge_sound _ _ add z e)) h)
      where
        inside_or :
            (has z (bits.elements s.add_prove) || has z (bits.elements t.to_prove_bitfield)) ≡ true
            → has z all ≡ true
        inside_or h = ground (arith, hs.inside z, ht.inside z)

    merged_covered :
        (add : B)
        → bits.merge s.add_prove t.to_prove_bitfield ≡ got add
        → (z : ℕ) → has z (bits.elements add) ≡ true
        → proved z (s.proofs ++ t.proofs) ≡ true
    merged_covered add e z h = proved_or (rw (sym (bits.merge_sound _ _ add z e)) h)
      where
        proved_or :
            (has z (bits.elements s.add_prove) || has z (bits.elements t.to_prove_bitfield)) ≡ true
            → proved z (s.proofs ++ t.proofs) ≡ true
        proved_or h =
            rw (proved-append z s.proofs t.proofs) (ground (arith, hs.covered z, ht.covered z))

    pub merged_faultless :
        (fault : B) → bits.merge s.faults t.fault_bitfield ≡ got fault → bits.elements fault ≡ []
    merged_faultless fault e =
        has-equal (bits.elements fault) [] (bits.ascending fault) tt
          (λ z. bits.merge_sound _ _ fault z e ∙ rw (hs.faultless, ht.faultless))

    grown-Gathered :
        (all' add fault : B)
        → bits.elements all' ≡ all
        → bits.merge s.add_prove t.to_prove_bitfield ≡ got add
        → bits.merge s.faults t.fault_bitfield ≡ got fault
        → Gathered (grown t s all' add fault)
    grown-Gathered all' add fault e ea ef = record {
      all_sectors = inr e;
      inside = merged_inside add ea;
      faultless = merged_faultless fault ef;
      genuine = Genuine-append π s.proofs t.proofs hs.genuine ht.genuine;
      covered = merged_covered add ea;
    }

    counted_all :
        (n k l : ℕ) (add fault : B)
        → Subset (bits.elements add) all
        → bits.elements fault ≡ []
        → Ascending all
        → n ≡ length all
        → k ≡ length (bits.elements add)
        → l ≡ length (bits.elements fault)
        → (n == k + l) ≡ true
        → bits.elements add ≡ all
    counted_all n k l add fault i f a en ek el h =
        Subset-equal (bits.elements add) all (bits.ascending add) a i
          (ground (arith, en, ek, el ∙ ap length f, h))

    -- One transfer keeps what the loop relies on, and completes it only with every sector proved.
    pub take_transfer-Gathered :
        (s' : Collected B) (done : Bool)
        → Ascending all
        → take_transfer bits t s ≡ got (s', done)
        → Gathered s'
          × (bits.elements s'.all_prove ≡ all)
          × (done ≡ true → bits.elements s'.add_prove ≡ all)
    unfolding take_transfer
    take_transfer-Gathered s' done a h =
        let (r, e_all, h1) = bind_got (all_of bits s.all_prove t.all_prove_bitfield) _ h in
        let (add, e_add, h2) = bind_got (bits.merge s.add_prove t.to_prove_bitfield) _ h1 in
        let (fault, e_fault, h3) = bind_got (bits.merge s.faults t.fault_bitfield) _ h2 in
        let (tcnt, e_tcnt, h4) = bind_got (bits.count add) _ h3 in
        let (fcnt, e_fcnt, h5) = bind_got (bits.count fault) _ h4 in
        let (all_known, all_counted) =
          all_of-known s.all_prove t.all_prove_bitfield r hs.all_sectors ht.all_sectors e_all in
        subst
          (λ q.
            Gathered q.0
            × (bits.elements q.0.all_prove ≡ all)
            × (q.1 ≡ true → bits.elements q.0.add_prove ≡ all))
          (got_injective h5)
          (
            grown-Gathered r.0 add fault all_known e_add e_fault,
            all_known,
            counted_all r.1 tcnt fcnt add fault (merged_inside add e_add)
                (merged_faultless fault e_fault) a all_counted (bits.count_sound add tcnt e_tcnt)
                (bits.count_sound fault fcnt e_fcnt),
          )
