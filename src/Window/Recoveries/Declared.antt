-- ===== src/Window/Recoveries/Declared.antt =====
-- miner/wdpost.go: CheckRecoveries declares the open faults of every partition, and nothing else.
use filecoin_sealer.Prelude.{
  ℕ, suc, ◌≡◌, refl, sym, subst, ◌∙◌, ◌==◌, String, Bool, true, false, ◌&&◌, not, List, [], ◌∷◌,
  Option, none, some, str_eq, if◌then◌else◌, Called, got, lost, ◌>>=◌, ◌>>◌, bind_got,
  got_injective, arith, ◌⊎◌, inl, inr, Bool-cases, length,
}
use filecoin_sealer.Window.Bits.{Bitfields, has}
use filecoin_sealer.Window.Data.{Partition}
use filecoin_sealer.Window.Message.{push_message}
use filecoin_sealer.Window.Recoveries.Defs.{
  Recovery, RecoveryCalls, declare, recoveries, declare_by, with_params, with_recoveries,
  check_recoveries,
}

has_none : (xs : List ℕ) → length xs ≡ 0 → (z : ℕ) → has z xs ≡ false
has_none [] h z = refl
has_none (x ∷ xs) h z = absurd (ground (arith, h))

none_of : (n l : ℕ) → n ≡ l → (n == 0) ≡ true → l ≡ 0
none_of n l e z = ground (arith, e, z)

has_some : (xs : List ℕ) (n : ℕ) → n ≡ length xs → (n == 0) ≡ false → (z : ℕ) × (has z xs ≡ true)
has_some [] n e h = absurd (ground (arith, e, h))
has_some (x ∷ xs) n e h = (x, ground arith)

module _ {B : Type 0} (bits : Bitfields B) (dl : ℕ) where
  -- A sector of the partition that is faulty and not recovering.
  abbrev pub open_fault : Partition B → ℕ → Bool
  open_fault p z =
      has z (bits.elements p.faulty_sectors) && not (has z (bits.elements p.recovering_sectors))

  -- The declarations of the partitions from number `i` on: one for each with an open fault, in order,
  -- of exactly its open faults.
  abbrev pub Declares : ℕ → List (Partition B) → List (Recovery B) → Type 0
  Declares i [] rs = rs ≡ []
  Declares i (p ∷ ps) rs =
      (((z : ℕ) → open_fault p z ≡ false) × Declares (suc i) ps rs)
      ⊎ ((r : Recovery B) × (rest : List (Recovery B)) × (rs ≡ r ∷ rest)
          × (r.deadline ≡ dl)
          × (r.partition ≡ i)
          × ((z : ℕ) → has z (bits.elements r.sectors) ≡ open_fault p z)
          × ((z : ℕ) × (open_fault p z ≡ true))
          × Declares (suc i) ps rest)

  recoveries-Declares :
      (i : ℕ) (ps : List (Partition B)) (rs : List (Recovery B))
      → recoveries bits dl i ps ≡ got rs
      → Declares i ps rs
  unfolding recoveries
  recoveries-Declares i [] rs h = sym (got_injective h)
  recoveries-Declares i (p ∷ ps) rs h =
      let (u, e_u, h1) = bind_got (bits.subtract p.faulty_sectors p.recovering_sectors) _ h in
      let (uc, e_c, h2) = bind_got (bits.count u) _ h1 in
      let (rest, e_r, h3) = bind_got (recoveries bits dl (suc i) ps) _ h2 in
      let same : (z : ℕ) → has z (bits.elements u) ≡ open_fault p z =
        λ z. bits.subtract_sound _ _ u z e_u in
      let len = bits.count_sound u uc e_c in
      let below = recoveries-Declares (suc i) ps rest e_r in
      by_count u uc rest same len below (got_injective h3)
    where
      by_count :
          (u : B) (uc : ℕ) (rest : List (Recovery B))
          → ((z : ℕ) → has z (bits.elements u) ≡ open_fault p z)
          → uc ≡ length (bits.elements u)
          → Declares (suc i) ps rest
          → (if uc == 0 then rest else record { deadline = dl; partition = i; sectors = u } ∷ rest)
            ≡ rs
          → Declares i (p ∷ ps) rs
      by_count u uc rest same len below e = elim (Bool-cases (uc == 0)) [
        | inl z ↦
            (let e' : rest ≡ rs = rw z at e in
              inl (
                λ y.
                    sym (same y)
                    ∙ has_none (bits.elements u) (none_of uc (length (bits.elements u)) len z) y,
                subst (Declares (suc i) ps) e' below,
              ))
        | inr n ↦
            (let e' : (record { deadline = dl; partition = i; sectors = u } ∷ rest) ≡ rs =
                rw n at e in
              let (y, hy) = has_some (bits.elements u) uc len n in
              inr (
                record { deadline = dl; partition = i; sectors = u },
                rest,
                sym e',
                refl,
                refl,
                same,
                (y, sym (same y) ∙ hy),
                below,
              ))
      ]

  -- What a run that returns without an error has declared.
  abbrev pub Declared : RecoveryCalls B → String → Option (List (Recovery B)) → Type 0
  Declared c cid declared =
      ((e : String) × (c.pushes.serialize ≡ lost e) × (cid ≡ "") × (declared ≡ none))
      ⊎ ((ps : List (Partition B)) × (r : Recovery B) × (rs : List (Recovery B)) × (c.partitions
            ≡ got ps)
          × (declared ≡ some (r ∷ rs))
          × Declares 0 ps (r ∷ rs))

  declare-answer :
      (rs : List (Recovery B)) (o : Called String) (cid : String)
      → (declare rs o).answer ≡ got cid
      → (declare rs o).declared ≡ some rs
  declare-answer rs (lost e) cid h = cc
  declare-answer rs (got x) cid h = refl

  declare_by-answer :
      (addr_info addr_type : String) (c : RecoveryCalls B) (rs : List (Recovery B)) (cid : String)
      → (declare_by bits dl addr_info addr_type c rs).answer ≡ got cid
      → (declare_by bits dl addr_info addr_type c rs).declared ≡ some rs
  declare_by-answer addr_info addr_type c rs cid h =
      by_key (not (str_eq addr_info "") && str_eq addr_type "pri") h
    where
      by_key :
          (b : Bool)
          → (if b then declare rs (push_message c.pushes) else declare rs c.send).answer ≡ got cid
          → (if b then declare rs (push_message c.pushes) else declare rs c.send).declared ≡ some rs
      by_key true h = declare-answer rs (push_message c.pushes) cid h
      by_key false h = declare-answer rs c.send cid h

  -- When CheckRecoveries returns without an error, it has declared the open faults of all partitions
  -- that the chain answered: one declaration for each partition that has an open fault, under its
  -- number and the deadline, of exactly its open faults, and at least one in all. The exception is an
  -- encoding of the parameters that failed: then nothing is declared, and a blank text answered.
  pub check_recoveries-Declares :
      (addr_info addr_type : String) (c : RecoveryCalls B) (cid : String)
      → (check_recoveries bits dl addr_info addr_type c).answer ≡ got cid
      → Declared c cid (check_recoveries bits dl addr_info addr_type c).declared
  unfolding check_recoveries
  check_recoveries-Declares addr_info addr_type c cid h =
      listed (c.address >> (c.head >> (c.partitions >>= λ ps. recoveries bits dl 0 ps))) refl h
    where
      encoded :
          (ps : List (Partition B)) (r : Recovery B) (rs : List (Recovery B)) (o : Called String)
          → c.partitions ≡ got ps
          → Declares 0 ps (r ∷ rs)
          → c.pushes.serialize ≡ o
          → (with_params bits dl addr_info addr_type c (r ∷ rs) o).answer ≡ got cid
          → Declared c cid (with_params bits dl addr_info addr_type c (r ∷ rs) o).declared
      encoded ps r rs (lost e) ep d eo h = inl (e, eo, sym (got_injective h), refl)
      encoded ps r rs (got x) ep d eo h =
          inr (ps, r, rs, ep, declare_by-answer addr_info addr_type c (r ∷ rs) cid h, d)

      listed :
          (o : Called (List (Recovery B)))
          → (c.address >> (c.head >> (c.partitions >>= λ ps. recoveries bits dl 0 ps))) ≡ o
          → (with_recoveries bits dl addr_info addr_type c o).answer ≡ got cid
          → Declared c cid (with_recoveries bits dl addr_info addr_type c o).declared
      listed (lost e) eo h = cc
      listed (got []) eo h = cc
      listed (got (r ∷ rs)) eo h =
          let (_, _, h1) = bind_got c.address _ eo in
          let (_, _, h2) = bind_got c.head _ h1 in
          let (ps, ep, h3) = bind_got c.partitions _ h2 in
          encoded ps r rs c.pushes.serialize ep (recoveries-Declares 0 ps (r ∷ rs) h3) refl h
