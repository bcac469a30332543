-- ===== src/Window/Posts/Receive.antt =====
-- A call of StartSubmitPoSt, and a transfer that a goroutine takes, keep the invariant.
use filecoin_sealer.Prelude.{
  ℕ, ◌≡◌, refl, sym, ap, subst, ◌∙◌, ltb, String, Bool, true, false, List, [], ◌∷◌, ◌++◌, Option,
  none, some, ℤ, negsuc, eq_ℤ, str_eq, length, All, Bool-cases, inl, inr, Called, got, lost,
  bind_got, got_injective,
}
use filecoin_sealer.Window.Bits.{Bitfields}
use filecoin_sealer.Window.Data.{PostTransfer, VanillaProof}
use filecoin_sealer.Window.Collect.{Collected, take_transfer, all_of, keep_first, first_some}
use filecoin_sealer.Window.Posts.Defs.{
  Posts, Collector, put_nat, send, spawn, submitted_to, start_submit_post, stop, announced,
  finish_proofs, took, entry_of, channel_of, received, take_next, freed,
}
use filecoin_sealer.Window.Posts.Slots.{slot, some_injective, spawn-slot_new}
use filecoin_sealer.Window.Posts.Sound.{
  Knows, IsOf, IsSound, same-IsSound, stop-IsSound, go_on-IsSound, buffer-IsSound, spawn-IsSound,
  clear-IsSound,
}

same_first : (i : ℤ) → keep_first i i ≡ i
same_first i = elim (Bool-cases (eq_ℤ i (negsuc 0))) [ inl e ↦ rw e | inr e ↦ rw e ]

moved_key :
    {B : Type 0} (a b : String) (i j : ℤ) (ts : List (PostTransfer B))
    → (a ≡ b) × (i ≡ j)
    → All (IsOf a i) ts
    → All (IsOf b j) ts
moved_key a b i j ts (ea, ei) h =
    subst (λ x. All (IsOf x j) ts) ea (subst (λ x. All (IsOf a x) ts) ei h)

module _ {B : Type 0} (bits : Bitfields B) where
  All-append :
      (a : String) (i : ℤ) (ts : List (PostTransfer B)) (t : PostTransfer B)
      → All (IsOf a i) ts
      → IsOf a i t
      → All (IsOf a i) (ts ++ t ∷ [])
  All-append a i [] t h k = (k, tt)
  All-append a i (x ∷ ts) t h k = (h.0, All-append a i ts t h.1 k)

  pub send-IsSound :
      (m : Posts B) (c : ℕ) (t : PostTransfer B)
      → IsSound m
      → slot m t.actor t.partition_index ≡ some c
      → IsSound ((send c t m).1)
  send-IsSound m c t h e = elim (Bool-cases (ltb (length (m.buffered c)) 1024)) [
    | inl l ↦ rw l (
        buffer-IsSound m h c (m.buffered c ++ t ∷ []) (λ a i f.
          let (ea, ei) = h.apart t.actor t.partition_index a i c e f in
          All-append a i (m.buffered c) t (h.sent a i c f) (ea, ei)))
    | inr l ↦ rw l h
  ]

  pub submit-IsSound :
      (m : Posts B) (t : PostTransfer B) → IsSound m → IsSound ((start_submit_post bits t m).1)
  unfolding start_submit_post
  submit-IsSound m t h = elim (Bool-cases (str_eq t.err "")) [
    | inl e ↦ rw e (to_channel (channel_of (m.post_map t.actor) t.partition_index) refl)
    | inr e ↦ rw e h
  ]
    where
      to_channel :
          (o : Option ℕ)
          → slot m t.actor t.partition_index ≡ o
          → IsSound ((submitted_to bits o t m).1)
      to_channel (some c) e = send-IsSound m c t h e
      to_channel none e =
          send-IsSound (spawn bits t m) m.made t (spawn-IsSound m h bits t e)
            (spawn-slot_new bits t m)

  -- A goroutine that has taken a transfer knows its partition.
  pub take_transfer-Knows :
      (t : PostTransfer B) (s s' : Collected B) (done : Bool) (a : String) (i : ℤ)
      → IsOf a i t
      → Knows a i s
      → take_transfer bits t s ≡ got (s', done)
      → (s'.actor ≡ some a) × (s'.index ≡ i)
  unfolding take_transfer
  take_transfer-Knows t s s' done a i of kn h =
      let (all, _, h1) = bind_got (all_of bits s.all_prove t.all_prove_bitfield) _ h in
      let (add, _, h2) = bind_got (bits.merge s.add_prove t.to_prove_bitfield) _ h1 in
      let (fault, _, h3) = bind_got (bits.merge s.faults t.fault_bitfield) _ h2 in
      let (tcnt, _, h4) = bind_got (bits.count add) _ h3 in
      let (fcnt, _, h5) = bind_got (bits.count fault) _ h4 in
      subst (λ q. (q.0.actor ≡ some a) × (q.0.index ≡ i)) (got_injective h5) (knows kn)
    where
      knows :
          Knows a i s
          → (first_some s.actor (some t.actor) ≡ some a)
            × (keep_first s.index t.partition_index ≡ i)
      knows (inl (e, f)) = (rw e (ap some of.0), rw f of.1)
      knows (inr (e, f)) = (rw e, rw (f, of.1) (same_first i))

  announced-IsSound :
      (m : Posts B) (c : ℕ) (o : Option String) (t : PostTransfer B)
      → IsSound m
      → IsSound (announced c o t m)
  announced-IsSound m c (some a) t h = h
  announced-IsSound m c none t h = same-IsSound m h (announced c none t m) refl refl refl refl

  pub announced-collecting :
      (m : Posts B) (c : ℕ) (o : Option String) (t : PostTransfer B)
      → (announced c o t m).collecting c ≡ m.collecting c
  announced-collecting m c (some a) t = refl
  announced-collecting m c none t = refl

  pub announced-slot :
      (m : Posts B) (c : ℕ) (o : Option String) (t : PostTransfer B) (a : String) (i : ℤ)
      → slot (announced c o t m) a i ≡ slot m a i
  announced-slot m c (some b) t a i = refl
  announced-slot m c none t a i = refl

  finish_proofs-IsSound :
      (m : Posts B) (c : ℕ) (r : Collector B) (vps : List VanillaProof) (a : String) (i : ℤ)
      → IsSound m
      → slot m a i ≡ some c
      → r.vars.actor ≡ some a
      → r.vars.index ≡ i
      → IsSound (finish_proofs c r vps m)
  finish_proofs-IsSound m c r [] a i h e ea ei = stop-IsSound m h c
  finish_proofs-IsSound m c r (vp ∷ vps) a i h e ea ei = clear_by r.vars.actor r.vars.index ea ei
    where
      clear_by :
          (o : Option String) (j : ℤ)
          → o ≡ some a
          → j ≡ i
          → IsSound (
              stop c (record (freed o j (entry_of o m) m) {
                proving = r ∷ (freed o j (entry_of o m) m).proving;
              }))
      clear_by none j eo ej = absurd (cc eo)
      clear_by (some b) j eo ej =
          let e' : slot m b j ≡ some c =
            subst (λ x. slot m b x ≡ some c) (sym ej)
              (subst (λ x. slot m x i ≡ some c) (sym (some_injective eo)) e) in
          same-IsSound (stop c (freed (some b) j (m.post_map b) m)) (clear-IsSound m h c b j e') _
            refl refl refl refl

  took-IsSound :
      (m : Posts B) (c : ℕ) (r : Collector B) (a : String) (i : ℤ) (o : Called (Collected B × Bool))
      → IsSound m
      → m.collecting c ≡ some r
      → slot m a i ≡ some c
      → ((s : Collected B) (done : Bool) → o ≡ got (s, done) → (s.actor ≡ some a) × (s.index ≡ i))
      → IsSound (took c r o m)
  took-IsSound m c r a i (lost e) h er es k = stop-IsSound m h c
  took-IsSound m c r a i (got (s, false)) h er es k = go_on-IsSound m h c r s er (λ b j f _.
      let (eb, ej) = h.apart a i b j c es f in
      inr ((k s false refl).0 ∙ ap some eb, (k s false refl).1 ∙ ej))
  took-IsSound m c r a i (got (s, true)) h er es k =
      finish_proofs-IsSound m c (record r { vars = s }) s.proofs a i h es (k s true refl).0
        (k s true refl).1

  pub take_next-IsSound : (m : Posts B) (c : ℕ) → IsSound m → IsSound (take_next bits c m)
  unfolding take_next
  take_next-IsSound m c h = from (m.collecting c) (m.buffered c) refl refl
    where
      from :
          (o : Option (Collector B)) (ts : List (PostTransfer B))
          → m.collecting c ≡ o
          → m.buffered c ≡ ts
          → IsSound (received bits c o ts m)
      from none ts eo et = h
      from (some r) [] eo et = h
      from (some r) (t ∷ ts) eo et =
          let (a, i, es, kn) = h.owned c r eo in
          let sent : All (IsOf a i) (t ∷ ts) = subst (All (IsOf a i)) et (h.sent a i c es) in
          let m1 : Posts B = record m { buffered = put_nat c ts m.buffered } in
          let h1 : IsSound m1 =
            buffer-IsSound m h c ts
              (λ b j f. moved_key a b i j ts (h.apart a i b j c es f) sent.1) in
          took-IsSound (announced c r.vars.actor t m1) c r a i (take_transfer bits t r.vars)
            (announced-IsSound m1 c r.vars.actor t h1)
            (announced-collecting m1 c r.vars.actor t ∙ eo)
            (announced-slot m1 c r.vars.actor t a i ∙ es)
            (λ s done e. take_transfer-Knows t r.vars s done a i sent.0 kn e)
