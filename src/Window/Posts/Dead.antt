-- ===== src/Window/Posts/Dead.antt =====
-- A partition whose goroutine has ended without its proof has no other one until the map is reset.
use filecoin_sealer.Prelude.{
  ℕ, ◌≡◌, refl, sym, ap, subst, ◌∙◌, ◌<◌, ◌==◌, ltb, String, Bool, true, false, List, [], ◌∷◌,
  Option, none, some, ℤ, str_eq, length, arith, Member, All, Bool-cases, inl, inr, Called, got,
  lost,
}
use filecoin_sealer.Window.Bits.{Bitfields}
use filecoin_sealer.Window.Data.{PostTransfer, VanillaProof}
use filecoin_sealer.Window.Collect.{Collected, take_transfer}
use filecoin_sealer.Window.Posts.Defs.{
  Posts, Collector, put_nat, send, begun, spawn, submitted_to, start_submit_post, stop, announced,
  finish_proofs, took, entry_of, channel_of, received, take_next, freed, PostStep, submit,
  ask_abort, take, time_out, give_in, PostSteps, here, next, new_sync_post_map, abort_post,
  call_abort,
}
use filecoin_sealer.Window.Posts.Slots.{
  slot, some_injective, spawn-slot_kept, freed-slot_kept, freed-collecting, freed-proving,
}
use filecoin_sealer.Window.Posts.Sound.{IsOf, IsSound}
use filecoin_sealer.Window.Posts.Receive.{take_transfer-Knows, announced-slot}
use filecoin_sealer.Window.Posts.Running.{PostStep-IsSound, own_slot, reached-IsSound}

same : (c d : ℕ) → (c == d) ≡ true → c ≡ d
same c d h = ground arith

module _ {B : Type 0} (a : String) (i : ℤ) (c : ℕ) (before : List (Collector B)) where
  -- The goroutines of the partition that have left their loop with proofs are among these.
  abbrev pub NoMore : List (Collector B) → Type 0
  NoMore rs =
      (r : Collector B) → Member r rs → r.vars.actor ≡ some a → r.vars.index ≡ i → Member r before

  -- The partition's channel is one that no goroutine reads, and no goroutine of it has left its loop
  -- with proofs since.
  abbrev pub Dead : Posts B → Type 0
  Dead m = (slot m a i ≡ some c) × (m.collecting c ≡ none) × NoMore m.proving

  stop-Dead : (m : Posts B) (d : ℕ) → Dead m → Dead (stop d m)
  stop-Dead m d h = (h.0, still, h.2)
    where
      still : put_nat d none m.collecting c ≡ none
      still = ground (arith, h.1)

  send-Dead : (m : Posts B) (d : ℕ) (t : PostTransfer B) → Dead m → Dead ((send d t m).1)
  send-Dead m d t h = elim (Bool-cases (ltb (length (m.buffered d)) 1024)) [
    | inl l ↦ rw l h
    | inr l ↦ rw l h
  ]

  -- A channel that has not been made is not the partition's.
  spawn-Dead :
      (bits : Bitfields B) (m : Posts B) (t : PostTransfer B)
      → IsSound m
      → slot m t.actor t.partition_index ≡ none
      → Dead m
      → Dead (spawn bits t m)
  spawn-Dead bits m t s free h =
      (spawn-slot_kept bits t m a i c free h.0, at (s.old a i c h.0), h.2)
    where
      at : c < m.made → put_nat m.made (some (begun bits t)) m.collecting c ≡ none
      at l = ground (arith, l, h.1)

  finish_proofs-Dead :
      (m : Posts B) (d : ℕ) (r : Collector B) (vps : List VanillaProof)
      → ((b : String) → r.vars.actor ≡ some b → slot m b r.vars.index ≡ some d)
      → (c == d) ≡ false
      → Dead m
      → Dead (finish_proofs d r vps m)
  finish_proofs-Dead m d r [] own n h = stop-Dead m d h
  finish_proofs-Dead m d r (vp ∷ vps) own n h = clear_by r.vars.actor own
    where
      not_this : r.vars.actor ≡ some a → r.vars.index ≡ i → ⊥
      not_this ea ei =
          let held : slot m a i ≡ some d = ap (slot m a) (sym ei) ∙ own a ea in
          let equal : c ≡ d = some_injective (sym h.0 ∙ held) in absurd (ground (arith, equal, n))

      joined : (rs : List (Collector B)) → NoMore rs → NoMore (r ∷ rs)
      joined rs more = λ q there ea ei. elim there [
        | inl e ↦
            absurd
              (not_this (ap (λ x. x.vars.actor) (sym e) ∙ ea) (ap (λ x. x.vars.index) (sym e) ∙ ei))
        | inr k ↦ more q k ea ei
      ]

      clear_by :
          (o : Option String)
          → ((b : String) → o ≡ some b → slot m b r.vars.index ≡ some d)
          → Dead (
              stop d (record (freed o r.vars.index (entry_of o m) m) {
                proving = r ∷ (freed o r.vars.index (entry_of o m) m).proving;
              }))
      clear_by none own =
          let (es, still, more) = stop-Dead m d h in (es, still, joined m.proving h.2)
      clear_by (some b) own =
          let h' : Dead (freed (some b) r.vars.index (m.post_map b) m) = (
            freed-slot_kept b r.vars.index m d a i c (own b refl) n h.0,
            rw (freed-collecting (some b) r.vars.index (m.post_map b) m) h.1,
            rw (freed-proving (some b) r.vars.index (m.post_map b) m) h.2,
          ) in
          let (es, still, more) = stop-Dead (freed (some b) r.vars.index (m.post_map b) m) d h' in
          (es, still, joined (freed (some b) r.vars.index (m.post_map b) m).proving h'.2)

  announced-Dead :
      (m : Posts B) (d : ℕ) (o : Option String) (t : PostTransfer B)
      → Dead m
      → Dead (announced d o t m)
  announced-Dead m d (some b) t h = h
  announced-Dead m d none t h = h

  took-Dead :
      (m : Posts B) (d : ℕ) (r : Collector B) (b : String) (j : ℤ) (o : Called (Collected B × Bool))
      → slot m b j ≡ some d
      → ((s : Collected B) (done : Bool) → o ≡ got (s, done) → (s.actor ≡ some b) × (s.index ≡ j))
      → (c == d) ≡ false
      → Dead m
      → Dead (took d r o m)
  took-Dead m d r b j (lost e) es k n h = stop-Dead m d h
  took-Dead m d r b j (got (s, false)) es k n h = (h.0, still, h.2)
    where
      still : put_nat d (some (record r { vars = s })) m.collecting c ≡ none
      still = rw n h.1
  took-Dead m d r b j (got (s, true)) es k n h =
      finish_proofs-Dead m d (record r { vars = s }) s.proofs own n h
    where
      own : (x : String) → s.actor ≡ some x → slot m x s.index ≡ some d
      own x e =
          let (ea, ei) = k s true refl in
          subst (λ y. slot m y s.index ≡ some d) (some_injective (sym ea ∙ e))
            (subst (λ y. slot m b y ≡ some d) (sym ei) es)

  module _ (bits : Bitfields B) where
    take_next-Dead : (m : Posts B) (d : ℕ) → IsSound m → Dead m → Dead (take_next bits d m)
    unfolding take_next
    take_next-Dead m d s h = from (m.collecting d) (m.buffered d) refl refl
      where
        other : (r : Collector B) → m.collecting d ≡ some r → (c == d) ≡ false
        other r e = elim (Bool-cases (c == d)) [
          | inl q ↦ absurd (cc (sym h.1 ∙ ap m.collecting (same c d q) ∙ e))
          | inr q ↦ q
        ]

        from :
            (o : Option (Collector B)) (ts : List (PostTransfer B))
            → m.collecting d ≡ o
            → m.buffered d ≡ ts
            → Dead (received bits d o ts m)
        from none ts eo et = h
        from (some r) [] eo et = h
        from (some r) (t ∷ ts) eo et =
            let (b, j, es, kn) = s.owned d r eo in
            let sent : All (IsOf b j) (t ∷ ts) = subst (All (IsOf b j)) et (s.sent b j d es) in
            let m1 : Posts B = record m { buffered = put_nat d ts m.buffered } in
            took-Dead (announced d r.vars.actor t m1) d r b j (take_transfer bits t r.vars)
              (announced-slot bits m1 d r.vars.actor t b j ∙ es)
              (λ s' done e. take_transfer-Knows bits t r.vars s' done b j sent.0 kn e) (other r eo)
              (announced-Dead m1 d r.vars.actor t h)

    submit-Dead :
        (m : Posts B) (t : PostTransfer B)
        → IsSound m
        → Dead m
        → Dead ((start_submit_post bits t m).1)
    unfolding start_submit_post
    submit-Dead m t s h = elim (Bool-cases (str_eq t.err "")) [
      | inl e ↦ rw e (to_channel (channel_of (m.post_map t.actor) t.partition_index) refl)
      | inr e ↦ rw e h
    ]
      where
        to_channel :
            (o : Option ℕ)
            → slot m t.actor t.partition_index ≡ o
            → Dead ((submitted_to bits o t m).1)
        to_channel (some d) e = send-Dead m d t h
        to_channel none e = send-Dead (spawn bits t m) m.made t (spawn-Dead bits m t s e h)

    PostStep-Dead : {m m' : Posts B} → PostStep bits m m' → IsSound m → Dead m → Dead m'
    unfolding abort_post
    PostStep-Dead {m} (submit t) s h = submit-Dead m t s h
    PostStep-Dead {m} (ask_abort actor) s h = asked (m.close_map actor)
      where
        asked : (o : Option ℕ) → Dead ((call_abort o m).1)
        asked none = h
        asked (some d) = elim (Bool-cases (m.closing d == 0)) [ inl e ↦ rw e h | inr e ↦ rw e h ]
    PostStep-Dead {m} (take d) s h = take_next-Dead m d s h
    PostStep-Dead {m} (time_out d) s h = stop-Dead m d h
    PostStep-Dead {m} (give_in d e) s h =
        stop-Dead (record m { closing = put_nat d 0 m.closing }) d h

    PostSteps-Dead :
        {m m' : Posts B} → PostSteps bits m m' → IsSound m → Dead m → IsSound m' × Dead m'
    PostSteps-Dead here s h = (s, h)
    PostSteps-Dead (next r st) s h =
        let (s', h') = PostSteps-Dead r s h in (PostStep-IsSound bits st s', PostStep-Dead st s' h')

-- In a state reached from the start of the miner, let a partition's channel be one whose goroutine
-- has ended: its time ran out, it was aborted, a set could not be read, or there was no proof at
-- all. Then in every later state the partition still has this channel and no goroutine reads it, no
-- goroutine that is in its loop and has taken a transfer is one of this partition, and no further one of
-- this partition has left its loop to make the proof. `ResetSyncPoStMap` is not among the steps.
pub dead_partition :
    {B : Type 0} (bits : Bitfields B) (a : String) (i : ℤ) (c : ℕ) (m m' : Posts B)
    → PostSteps bits new_sync_post_map m
    → slot m a i ≡ some c
    → m.collecting c ≡ none
    → PostSteps bits m m'
    → (slot m' a i ≡ some c)
      × (m'.collecting c ≡ none)
      × ((d : ℕ) (r : Collector B)
          → m'.collecting d ≡ some r
          → r.vars.actor ≡ some a
          → r.vars.index ≡ i
          → ⊥)
      × ((r : Collector B)
          → Member r m'.proving
          → r.vars.actor ≡ some a
          → r.vars.index ≡ i
          → Member r m.proving)
dead_partition {B} bits a i c m m' st es er later =
    let (s', h') =
      PostSteps-Dead a i c m.proving bits later (reached-IsSound bits st) (es, er, λ r k _ _. k) in
    (h'.0, h'.1, (λ d r ed ea ei. not_of s' h'.0 h'.1 d r ed ea ei), h'.2)
  where
    not_of :
        IsSound m'
        → slot m' a i ≡ some c
        → m'.collecting c ≡ none
        → (d : ℕ) (r : Collector B) → m'.collecting d ≡ some r
        → r.vars.actor ≡ some a
        → r.vars.index ≡ i
        → ⊥
    not_of s' held ended d r ed ea ei =
        let own : slot m' a i ≡ some d =
          ap (slot m' a) (sym ei) ∙ own_slot bits m' d r a s' ed ea in
        let same : c ≡ d = some_injective (sym held ∙ own) in
        absurd (cc (sym ended ∙ ap m'.collecting same ∙ ed))
