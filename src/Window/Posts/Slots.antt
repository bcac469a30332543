-- ===== src/Window/Posts/Slots.antt =====
-- What the steps do to the channel of a partition.
use filecoin_sealer.Prelude.{
  ℕ, ◌≡◌, refl, sym, ap, subst, ◌∙◌, ◌==◌, String, Bool, true, false, ◌&&◌, Option, none, some, ℤ,
  eq_ℤ, eq_ℤ_iff, str_eq, str_eq_iff, str_eq_refl, and_true, eq_ℤ_refl, if◌then◌else◌, arith,
  Bool-cases, ◌⊎◌, inl, inr,
}
use filecoin_sealer.Window.Bits.{Bitfields}
use filecoin_sealer.Window.Data.{PostTransfer}
use filecoin_sealer.Window.Posts.Defs.{
  Posts, put_nat, put_text, put_int, channel_of, parts_of, freed, spawn,
}

-- The channel of partition `i` of actor `a`.
abbrev pub slot : {B : Type 0} → Posts B → String → ℤ → Option ℕ
slot m a i = channel_of (m.post_map a) i

abbrev pub same_key : String → ℤ → String → ℤ → Bool
same_key b j a i = str_eq b a && eq_ℤ j i

pub same_key_refl : (a : String) (i : ℤ) → same_key a i a i ≡ true
same_key_refl a i = rw (str_eq_refl a, eq_ℤ_refl i)

pub same_key-eq :
    (b : String) (j : ℤ) (a : String) (i : ℤ) → same_key b j a i ≡ true → (b ≡ a) × (j ≡ i)
same_key-eq b j a i h =
    let (hb, hj) = and_true (str_eq b a) (eq_ℤ j i) h in
    ((str_eq_iff b a).0 hb, (eq_ℤ_iff j i).0 hj)

parts_lem : (parts : Option (ℤ → Option ℕ)) (j : ℤ) → parts_of parts j ≡ channel_of parts j
parts_lem none j = refl
parts_lem (some parts) j = refl

put-slot :
    (pm : String → Option (ℤ → Option ℕ)) (a : String) (i : ℤ) (v : Option ℕ) (b : String) (j : ℤ)
    → channel_of (put_text a (some (put_int i v (parts_of (pm a)))) pm b) j
      ≡ (if same_key b j a i then v else channel_of (pm b) j)
put-slot pm a i v b j = elim (Bool-cases (str_eq b a)) [
  | inl e ↦ rw (e, parts_lem (pm a) j, (str_eq_iff b a).0 e)
  | inr n ↦ rw (n)
]

-- What a changed map has at a key.
pub put_nat-cases {ℓ} :
    {V : Type ℓ} (k : ℕ) (v : V) (m : ℕ → V) (x : ℕ)
    → ((x ≡ k) × (put_nat k v m x ≡ v)) ⊎ (((x == k) ≡ false) × (put_nat k v m x ≡ m x))
put_nat-cases k v m x = elim (Bool-cases (x == k)) [
  | inl e ↦ inl (ground (arith, e), rw e)
  | inr e ↦ inr (e, rw e)
]

pub some_injective {ℓ} : {A : Type ℓ} {x y : A} → some x ≡ some y → x ≡ y
some_injective h = cc

module _ {B : Type 0} where
  pub spawn-slot :
      (bits : Bitfields B) (t : PostTransfer B) (m : Posts B) (b : String) (j : ℤ)
      → slot (spawn bits t m) b j
        ≡ (if same_key b j t.actor t.partition_index then some m.made else slot m b j)
  spawn-slot bits t m b j = put-slot m.post_map t.actor t.partition_index (some m.made) b j

  -- The channel of a partition after a new one is made: it is the new one, or was there before.
  pub spawn-slot_inv :
      (bits : Bitfields B) (t : PostTransfer B) (m : Posts B) (b : String) (j : ℤ) (c : ℕ)
      → slot (spawn bits t m) b j ≡ some c
      → ((b ≡ t.actor) × (j ≡ t.partition_index) × (m.made ≡ c)) ⊎ (slot m b j ≡ some c)
  spawn-slot_inv bits t m b j c e = elim (Bool-cases (same_key b j t.actor t.partition_index)) [
    | inl s ↦
        (let (eb, ej) = same_key-eq b j t.actor t.partition_index s in
          inl (eb, ej, some_injective (sym (spawn-slot bits t m b j ∙ rw s) ∙ e)))
    | inr s ↦ inr (sym (spawn-slot bits t m b j ∙ rw s) ∙ e)
  ]

  pub spawn-slot_new :
      (bits : Bitfields B) (t : PostTransfer B) (m : Posts B)
      → slot (spawn bits t m) t.actor t.partition_index ≡ some m.made
  spawn-slot_new bits t m =
      spawn-slot bits t m t.actor t.partition_index ∙ rw (same_key_refl t.actor t.partition_index)

  -- What is not the key of a free partition keeps its channel.
  pub other_key :
      (m : Posts B) (a : String) (i : ℤ) (o : Option ℕ) (b : String) (j : ℤ) (c : ℕ)
      → slot m a i ≡ o
      → (o ≡ some c → ⊥)
      → slot m b j ≡ some c
      → same_key b j a i ≡ false
  other_key m a i o b j c free n e = elim (Bool-cases (same_key b j a i)) [
    | inl s ↦
        (let (eb, ej) = same_key-eq b j a i s in
          let e' : slot m a i ≡ some c =
            subst (λ x. slot m a x ≡ some c) ej (subst (λ x. slot m x j ≡ some c) eb e) in
          absurd (n (sym free ∙ e')))
    | inr s ↦ s
  ]

  pub spawn-slot_kept :
      (bits : Bitfields B) (t : PostTransfer B) (m : Posts B) (b : String) (j : ℤ) (c : ℕ)
      → slot m t.actor t.partition_index ≡ none
      → slot m b j ≡ some c
      → slot (spawn bits t m) b j ≡ some c
  spawn-slot_kept bits t m b j c free e =
      spawn-slot bits t m b j
      ∙ rw (other_key m t.actor t.partition_index none b j c free (λ n. cc n) e) e

  -- Clearing changes the two maps, and frees one partition.
  pub freed-slot :
      (a : String) (i : ℤ) (m : Posts B) (b : String) (j : ℤ)
      → slot (freed (some a) i (m.post_map a) m) b j
        ≡ (if same_key b j a i then none else slot m b j)
  freed-slot a i m b j = at_entry (m.post_map a) refl
    where
      at_entry :
          (o : Option (ℤ → Option ℕ))
          → m.post_map a ≡ o
          → slot (freed (some a) i o m) b j ≡ (if same_key b j a i then none else slot m b j)
      at_entry none e = elim (Bool-cases (same_key b j a i)) [
        | inl s ↦ rw s (ap (λ x. slot m x j) (same_key-eq b j a i s).0 ∙ ap (λ o. channel_of o j) e)
        | inr s ↦ rw s
      ]
      at_entry (some parts) e =
          subst
            (λ q.
              channel_of (put_text a (some (put_int i none (parts_of q))) m.post_map b) j
              ≡ (if same_key b j a i then none else slot m b j))
            e (put-slot m.post_map a i none b j)

  pub freed-slot_inv :
      (a : String) (i : ℤ) (m : Posts B) (b : String) (j : ℤ) (c : ℕ)
      → slot (freed (some a) i (m.post_map a) m) b j ≡ some c
      → slot m b j ≡ some c
  freed-slot_inv a i m b j c f =
      let f' : (if same_key b j a i then none else slot m b j) ≡ some c =
        sym (freed-slot a i m b j) ∙ f in
      elim (Bool-cases (same_key b j a i)) [ inl s ↦ absurd (cc (rw s at f')) | inr s ↦ rw s at f' ]

  -- Clearing the partition of one channel leaves the other channels their partitions.
  pub freed-slot_kept :
      (a : String) (i : ℤ) (m : Posts B) (c : ℕ) (b : String) (j : ℤ) (d : ℕ)
      → slot m a i ≡ some c
      → (d == c) ≡ false
      → slot m b j ≡ some d
      → slot (freed (some a) i (m.post_map a) m) b j ≡ some d
  freed-slot_kept a i m c b j d e n f =
      freed-slot a i m b j
      ∙ rw (other_key m a i (some c) b j d e (λ q. differ d c n (some_injective q)) f) f
    where
      differ : (d c : ℕ) → (d == c) ≡ false → c ≡ d → ⊥
      differ d c n q = ground (arith, n, q)

  pub freed-buffered :
      (o : Option String) (i : ℤ) (p : Option (ℤ → Option ℕ)) (m : Posts B)
      → (freed o i p m).buffered ≡ m.buffered
  freed-buffered none i p m = refl
  freed-buffered (some a) i none m = refl
  freed-buffered (some a) i (some parts) m = refl

  pub freed-collecting :
      (o : Option String) (i : ℤ) (p : Option (ℤ → Option ℕ)) (m : Posts B)
      → (freed o i p m).collecting ≡ m.collecting
  freed-collecting none i p m = refl
  freed-collecting (some a) i none m = refl
  freed-collecting (some a) i (some parts) m = refl

  pub freed-proving :
      (o : Option String) (i : ℤ) (p : Option (ℤ → Option ℕ)) (m : Posts B)
      → (freed o i p m).proving ≡ m.proving
  freed-proving none i p m = refl
  freed-proving (some a) i none m = refl
  freed-proving (some a) i (some parts) m = refl

  pub freed-made :
      (o : Option String) (i : ℤ) (p : Option (ℤ → Option ℕ)) (m : Posts B)
      → (freed o i p m).made ≡ m.made
  freed-made none i p m = refl
  freed-made (some a) i none m = refl
  freed-made (some a) i (some parts) m = refl
