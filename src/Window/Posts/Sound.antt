-- ===== src/Window/Posts/Sound.antt =====
-- What holds of the collectors and their channels: the invariant, and the changes that keep it.
use filecoin_sealer.Prelude.{
  ℕ, ◌≡◌, refl, sym, ap, subst, ◌∙◌, ◌<◌, ◌==◌, String, false, List, [], none, some, ℤ, negsuc,
  arith, All, ◌⊎◌, inl, inr,
}
use filecoin_sealer.Window.Bits.{Bitfields}
use filecoin_sealer.Window.Data.{PostTransfer}
use filecoin_sealer.Window.Collect.{Collected}
use filecoin_sealer.Window.Posts.Defs.{Posts, Collector, put_nat, begun, spawn, stop, freed}
use filecoin_sealer.Window.Posts.Slots.{
  slot, put_nat-cases, some_injective, spawn-slot_inv, spawn-slot_new, spawn-slot_kept,
  freed-slot_inv, freed-slot_kept, freed-buffered, freed-collecting, freed-made,
}

module _ {B : Type 0} where
  -- The variables of a goroutine that takes the transfers of one partition.
  abbrev pub Knows : String → ℤ → Collected B → Type 0
  Knows a i s = ((s.actor ≡ none) × (s.index ≡ negsuc 0)) ⊎ ((s.actor ≡ some a) × (s.index ≡ i))

  abbrev pub IsOf : String → ℤ → PostTransfer B → Type 0
  IsOf a i t = (t.actor ≡ a) × (t.partition_index ≡ i)

  -- A goroutine that runs is the one of its partition's channel, and a channel is one partition's.
  pub record IsSound (m : Posts B) : Type 0 where
    pub owned :
        (c : ℕ) (r : Collector B)
        → m.collecting c ≡ some r
        → (a : String) × (i : ℤ) × (slot m a i ≡ some c) × Knows a i r.vars
    pub sent : (a : String) (i : ℤ) (c : ℕ) → slot m a i ≡ some c → All (IsOf a i) (m.buffered c)
    pub old : (a : String) (i : ℤ) (c : ℕ) → slot m a i ≡ some c → c < m.made
    pub apart :
        (a : String) (i : ℤ) (b : String) (j : ℤ) (c : ℕ)
        → slot m a i ≡ some c
        → slot m b j ≡ some c
        → (a ≡ b) × (i ≡ j)

  module _ (m : Posts B) (h : IsSound m) where
    pub same-IsSound :
        (m' : Posts B)
        → m'.post_map ≡ m.post_map
        → m'.buffered ≡ m.buffered
        → m'.collecting ≡ m.collecting
        → m'.made ≡ m.made
        → IsSound m'
    same-IsSound m' ep eb er em = record {
      owned = λ c r e. rw ep (h.owned c r (rw (sym er) e));
      sent = λ a i c e. rw eb (h.sent a i c (rw (sym ep) e));
      old = λ a i c e. rw em (h.old a i c (rw (sym ep) e));
      apart = λ a i b j c e f. h.apart a i b j c (rw (sym ep) e) (rw (sym ep) f);
    }

    pub stop-IsSound : (c : ℕ) → IsSound (stop c m)
    stop-IsSound c = record {
      owned = λ d r e. h.owned d r (still d r e);
      sent = h.sent;
      old = h.old;
      apart = h.apart;
    }
      where
        still :
            (d : ℕ) (r : Collector B)
            → put_nat c none m.collecting d ≡ some r
            → m.collecting d ≡ some r
        still d r e = ground (arith, e)

    -- A goroutine that runs goes on with other variables.
    pub go_on-IsSound :
        (c : ℕ) (r : Collector B) (s : Collected B)
        → m.collecting c ≡ some r
        → ((a : String) (i : ℤ) → slot m a i ≡ some c → Knows a i r.vars → Knows a i s)
        → IsSound (record m { collecting = put_nat c (some (record r { vars = s })) m.collecting })
    go_on-IsSound c r s er k = record {
      owned = λ d q e. owns d q e;
      sent = h.sent;
      old = h.old;
      apart = h.apart;
    }
      where
        owns :
            (d : ℕ) (q : Collector B)
            → put_nat c (some (record r { vars = s })) m.collecting d ≡ some q
            → (a : String) × (i : ℤ) × (slot m a i ≡ some d) × Knows a i q.vars
        owns d q e = elim (put_nat-cases c (some (record r { vars = s })) m.collecting d) [
          | inl (same, at) ↦
              (let (a, i, es, kn) = h.owned c r er in
                (
                  a,
                  i,
                  es ∙ ap some (sym same),
                  subst (λ x. Knows a i x.vars) (some_injective (sym at ∙ e)) (k a i es kn),
                ))
          | inr (_, at) ↦ h.owned d q (sym at ∙ e)
        ]

    -- A channel's contents change, and are transfers of its partition still.
    pub buffer-IsSound :
        (c : ℕ) (ts : List (PostTransfer B))
        → ((a : String) (i : ℤ) → slot m a i ≡ some c → All (IsOf a i) ts)
        → IsSound (record m { buffered = put_nat c ts m.buffered })
    buffer-IsSound c ts k = record {
      owned = h.owned;
      sent = λ a i d e. elim (put_nat-cases c ts m.buffered d) [
        | inl (same, at) ↦ rw at (k a i (e ∙ ap some same))
        | inr (_, at) ↦ rw at (h.sent a i d e)
      ];
      old = h.old;
      apart = h.apart;
    }

    pub spawn-IsSound :
        (bits : Bitfields B) (t : PostTransfer B)
        → slot m t.actor t.partition_index ≡ none
        → IsSound (spawn bits t m)
    spawn-IsSound bits t free = record {
      owned = owns;
      sent = λ a i c e. elim (put_nat-cases m.made [] m.buffered c) [
        | inl (_, at) ↦ rw at tt
        | inr (n, at) ↦ rw at (h.sent a i c (before a i c n (spawn-slot_inv bits t m a i c e)))
      ];
      old = λ a i c e. elim (spawn-slot_inv bits t m a i c e) [
        | inl (_, _, made) ↦ omega (arith, made)
        | inr e' ↦ omega (arith, h.old a i c e')
      ];
      apart = λ a i b j c e f.
          one a i b j c (spawn-slot_inv bits t m a i c e) (spawn-slot_inv bits t m b j c f);
    }
      where
        owns :
            (d : ℕ) (q : Collector B)
            → (spawn bits t m).collecting d ≡ some q
            → (a : String) × (i : ℤ) × (slot (spawn bits t m) a i ≡ some d) × Knows a i q.vars
        owns d q e = elim (put_nat-cases m.made (some (begun bits t)) m.collecting d) [
          | inl (same, at) ↦ (
            t.actor,
            t.partition_index,
            spawn-slot_new bits t m ∙ ap some (sym same),
            subst (λ x. Knows t.actor t.partition_index x.vars) (some_injective (sym at ∙ e))
                (inl (refl, refl)),
          )
          | inr (_, at) ↦
              (let (a, i, es, kn) = h.owned d q (sym at ∙ e) in
                (a, i, spawn-slot_kept bits t m a i d free es, kn))
        ]

        Found : String → ℤ → ℕ → Type 0
        Found a i c =
            ((a ≡ t.actor) × (i ≡ t.partition_index) × (m.made ≡ c)) ⊎ (slot m a i ≡ some c)

        before :
            (a : String) (i : ℤ) (c : ℕ) → (c == m.made) ≡ false → Found a i c → slot m a i ≡ some c
        before a i c n (inl (_, _, made)) = absurd (ground (arith, n, made))
        before a i c n (inr e) = e

        one :
            (a : String) (i : ℤ) (b : String) (j : ℤ) (c : ℕ)
            → Found a i c
            → Found b j c
            → (a ≡ b) × (i ≡ j)
        one a i b j c (inl (ea, ei, _)) (inl (eb, ej, _)) = (ea ∙ sym eb, ei ∙ sym ej)
        one a i b j c (inl (_, _, made)) (inr f) = absurd (omega (arith, made, h.old b j c f))
        one a i b j c (inr e) (inl (_, _, made)) = absurd (omega (arith, made, h.old a i c e))
        one a i b j c (inr e) (inr f) = h.apart a i b j c e f

    -- A goroutine clears its partition and ends.
    pub clear-IsSound :
        (c : ℕ) (a : String) (i : ℤ)
        → slot m a i ≡ some c
        → IsSound (stop c (freed (some a) i (m.post_map a) m))
    clear-IsSound c a i e = record {
      owned = λ d r er. owns d r (rw (sym (freed-collecting (some a) i (m.post_map a) m)) er);
      sent =
          λ b j d f. rw (freed-buffered (some a) i (m.post_map a) m) (h.sent b j d (was b j d f));
      old = λ b j d f. rw (freed-made (some a) i (m.post_map a) m) (h.old b j d (was b j d f));
      apart = λ b j b' j' d f g. h.apart b j b' j' d (was b j d f) (was b' j' d g);
    }
      where
        was :
            (b : String) (j : ℤ) (d : ℕ)
            → slot (freed (some a) i (m.post_map a) m) b j ≡ some d
            → slot m b j ≡ some d
        was b j d f = freed-slot_inv a i m b j d f

        owns :
            (d : ℕ) (r : Collector B)
            → put_nat c none m.collecting d ≡ some r
            → (b : String) × (j : ℤ) × (slot (freed (some a) i (m.post_map a) m) b j ≡ some d)
              × Knows b j r.vars
        owns d r er = elim (put_nat-cases c none m.collecting d) [
          | inl (_, at) ↦ absurd (cc (sym at ∙ er))
          | inr (n, at) ↦
              (let (b, j, es, kn) = h.owned d r (sym at ∙ er) in
                (b, j, freed-slot_kept a i m c b j d e n es, kn))
        ]
