-- ===== src/Mining/Publish/Parts.antt =====
-- mining/util.go: the parts of a block that publishBlockMsg puts together, described without its loops.
use filecoin_sealer.Prelude.{
  wrap_int64, ℕ, zero, suc, ◌≡◌, refl, sym, ap, ◌∙◌, ◌⊎◌, inl, inr, String, List, [], ◌∷◌, ◌++◌,
  length, Option, none, some, ℤ, ◌+ℤ◌, Called, got, lost, bind_got, got_injective, ltb, arith,
  false, Bool-cases,
}
use filecoin_sealer.Keys.{Signature}
use filecoin_sealer.Mining.Defs.{CidMessage}
use filecoin_sealer.Mining.Publish.Defs.{
  total_limit, take, slice, sliced, AggregateLib, bls_signature, aggregate_signatures, ArrayLib,
  set_all, compute_msg_meta,
}

module _ {R : Type 0} (lib : ArrayLib R) where
  -- The array `b` is `a` with the texts set one after the other, from the place `i` on.
  abbrev pub IsFilled : ℕ → List String → R → R → Type 0
  IsFilled i [] a b = b ≡ a
  IsFilled i (c ∷ cs) a b = (m : R) × (lib.set i c a ≡ got m) × IsFilled (suc i) cs m b

  set_all-IsFilled :
      (i : ℕ) (cs : List String) (a b : R) → set_all lib i cs a ≡ got b → IsFilled i cs a b
  set_all-IsFilled i [] a b h = sym (got_injective h)
  set_all-IsFilled i (c ∷ cs) a b h =
      let (m, e, h1) = bind_got (lib.set i c a) _ h in (m, e, set_all-IsFilled (suc i) cs m b h1)

  -- The root of the messages: an array of each kind, their roots, and the two roots stored.
  pub record IsMeta (bls_blocks secpk_blocks : List String) (root : String) : Type 0 where
    pub bls_array : R
    pub secpk_array : R
    pub bls_root : String
    pub secpk_root : String
    pub bls_filled : IsFilled 0 bls_blocks lib.empty bls_array
    pub secpk_filled : IsFilled 0 secpk_blocks lib.empty secpk_array
    pub bls_rooted : lib.root bls_array ≡ got bls_root
    pub secpk_rooted : lib.root secpk_array ≡ got secpk_root
    pub stored : lib.put bls_root secpk_root ≡ got root

  pub compute_msg_meta-IsMeta :
      (bs ss : List String) (root : String)
      → compute_msg_meta lib bs ss ≡ got root
      → IsMeta bs ss root
  unfolding compute_msg_meta
  compute_msg_meta-IsMeta bs ss root h =
      let (bm, eb, h1) = bind_got (set_all lib 0 bs lib.empty) _ h in
      let (sm, es, h2) = bind_got (set_all lib 0 ss lib.empty) _ h1 in
      let (br, er, h3) = bind_got (lib.root bm) _ h2 in
      let (sr, et, h4) = bind_got (lib.root sm) _ h3 in
      record {
        bls_array = bm;
        secpk_array = sm;
        bls_root = br;
        secpk_root = sr;
        bls_filled = set_all-IsFilled 0 bs lib.empty bm eb;
        secpk_filled = set_all-IsFilled 0 ss lib.empty sm es;
        bls_rooted = er;
        secpk_rooted = et;
        stored = h4;
      }

-- The first `n` bytes of each signature.
abbrev pub AreHeads : ℕ → List Signature → List (List ℕ) → Type 0
AreHeads n [] bs = bs ≡ []
AreHeads n (s ∷ ss) bs =
    (b : List ℕ) × (tail : List ℕ) × (rest : List (List ℕ)) × (bs ≡ b ∷ rest)
    × (s.bytes ≡ b ++ tail)
    × (length b ≡ n)
    × AreHeads n ss rest

take-append :
    (n : ℕ) (bs : List ℕ)
    → ltb (length bs) n ≡ false
    → (tail : List ℕ) × (bs ≡ take n bs ++ tail) × (length (take n bs) ≡ n)
take-append zero bs h = (bs, refl, refl)
take-append (suc n) [] h = absurd (ground arith)
take-append (suc n) (b ∷ bs) h =
    let (tail, e, l) = take-append n bs (ground arith) in (tail, ap (λ xs. b ∷ xs) e, ap suc l)

slice-head :
    (n : ℕ) (bs b : List ℕ)
    → slice n bs ≡ some b
    → (tail : List ℕ) × (bs ≡ b ++ tail) × (length b ≡ n)
slice-head n bs b h = elim (Bool-cases (ltb (length bs) n)) [
  | inl short ↦ absurd (cc (rw short at h))
  | inr long ↦
      let same : take n bs ≡ b = cc (rw long at h) in
      let (tail, e, l) = take-append n bs long in
      (tail, e ∙ ap (λ x. x ++ tail) same, ap length (sym same) ∙ l)
]

sliced-AreHeads :
    (n : ℕ) (ss : List Signature) (bs : List (List ℕ)) → sliced n ss ≡ some bs → AreHeads n ss bs
sliced-AreHeads n [] bs h = cc
sliced-AreHeads n (s ∷ ss) bs h =
    first (λ r e. sliced-AreHeads n ss r e) (slice n s.bytes) (sliced n ss) refl refl h
  where
    first :
        ((r : List (List ℕ)) → sliced n ss ≡ some r → AreHeads n ss r)
        → (x : Option (List ℕ)) (y : Option (List (List ℕ))) → slice n s.bytes ≡ x
        → sliced n ss ≡ y
        → elim x [ none ↦ none | some b ↦ elim y [ none ↦ none | some rest ↦ some (b ∷ rest) ] ]
          ≡ some bs
        → AreHeads n (s ∷ ss) bs
    first k none y ex ey e = cc
    first k (some b) none ex ey e = cc
    first k (some b) (some rest) ex ey e =
        let (tail, et, l) = slice-head n s.bytes b ex in (b, tail, rest, sym (cc), et, l, k rest ey)

-- The aggregate of signatures: the library's of their first bytes, or, where it gives none and there is
-- no signature, the signature of nothing.
abbrev pub IsAggregate : AggregateLib → List Signature → Signature → Type 0
IsAggregate lib sigs sig =
    (bs : List (List ℕ)) × AreHeads lib.signature_bytes sigs bs
    × (((b : List ℕ) × (lib.aggregate bs ≡ some b) × (sig ≡ bls_signature b))
        ⊎ ((lib.aggregate bs ≡ none) × (sigs ≡ []) × (sig ≡ bls_signature lib.zero_signature)))

pub aggregate_signatures-IsAggregate :
    (lib : AggregateLib) (sigs : List Signature) (sig : Signature)
    → aggregate_signatures lib sigs ≡ some (got sig)
    → IsAggregate lib sigs sig
unfolding aggregate_signatures
aggregate_signatures-IsAggregate lib sigs sig h = cut (sliced lib.signature_bytes sigs) refl h
  where
    blank :
        (ss : List Signature)
        → elim ss as (λ _. Option (Called Signature)) [
          | [] ↦ some (got (bls_signature lib.zero_signature))
          | s ∷ rest ↦ some (lost "bls.Aggregate returned nil")
        ]
          ≡ some (got sig)
        → (ss ≡ []) × (sig ≡ bls_signature lib.zero_signature)
    blank [] e = (refl, sym (cc))
    blank (s ∷ ss) e = cc

    joined :
        (bs : List (List ℕ)) (o : Option (List ℕ))
        → AreHeads lib.signature_bytes sigs bs
        → lib.aggregate bs ≡ o
        → elim o as (λ _. Option (Called Signature)) [
          | some b ↦ some (got (bls_signature b))
          | none ↦ elim sigs [
            | [] ↦ some (got (bls_signature lib.zero_signature))
            | s ∷ rest ↦ some (lost "bls.Aggregate returned nil")
          ]
        ]
          ≡ some (got sig)
        → IsAggregate lib sigs sig
    joined bs none heads eo e = let (a, b) = blank sigs e in (bs, heads, inr (eo, a, b))
    joined bs (some b) heads eo e = (bs, heads, inl (b, eo, sym (cc)))

    cut :
        (x : Option (List (List ℕ)))
        → sliced lib.signature_bytes sigs ≡ x
        → elim x as (λ _. Option (Called Signature)) [
          | none ↦ none
          | some bs ↦ elim (lib.aggregate bs) [
            | some b ↦ some (got (bls_signature b))
            | none ↦ elim sigs [
              | [] ↦ some (got (bls_signature lib.zero_signature))
              | s ∷ rest ↦ some (lost "bls.Aggregate returned nil")
            ]
          ]
        ]
          ≡ some (got sig)
        → IsAggregate lib sigs sig
    cut none ex e = cc
    cut (some bs) ex e =
        joined bs (lib.aggregate bs) (sliced-AreHeads lib.signature_bytes sigs bs ex) refl e

-- The gas limits added one after the other, each sum an `int64`.
abbrev pub IsLimit : ℤ → List CidMessage → ℤ → Type 0
IsLimit t [] limit = limit ≡ t
IsLimit t (m ∷ ms) limit = IsLimit (wrap_int64 (t +ℤ m.gas_limit)) ms limit

pub total_limit-IsLimit : (t : ℤ) (ms : List CidMessage) → IsLimit t ms (total_limit t ms)
unfolding total_limit
total_limit-IsLimit t [] = refl
total_limit-IsLimit t (m ∷ ms) = total_limit-IsLimit (wrap_int64 (t +ℤ m.gas_limit)) ms

pub IsLimit-eq-total :
    (t limit : ℤ) (ms : List CidMessage) → IsLimit t ms limit → limit ≡ total_limit t ms
unfolding total_limit
IsLimit-eq-total t limit [] h = h
IsLimit-eq-total t limit (m ∷ ms) h = IsLimit-eq-total (wrap_int64 (t +ℤ m.gas_limit)) limit ms h
