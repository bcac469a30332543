-- ===== src/Window/Posts/Running.antt =====
-- At most one goroutine collects the proofs of a partition.
use filecoin_sealer.Prelude.{
  ℕ, ◌≡◌, refl, sym, ap, subst, ◌∙◌, ◌==◌, String, Option, none, some, ℤ, Bool-cases, inl, inr,
}
use filecoin_sealer.Window.Bits.{Bitfields}
use filecoin_sealer.Window.Posts.Defs.{
  Posts, Collector, PostStep, submit, ask_abort, take, time_out, give_in, PostSteps, here, next,
  new_sync_post_map, abort_post, call_abort,
}
use filecoin_sealer.Window.Posts.Slots.{slot, some_injective}
use filecoin_sealer.Window.Posts.Receive.{submit-IsSound, take_next-IsSound}
use filecoin_sealer.Window.Posts.Sound.{Knows, IsSound, same-IsSound, stop-IsSound}

module _ {B : Type 0} (bits : Bitfields B) where
  pub PostStep-IsSound : {m m' : Posts B} → PostStep bits m m' → IsSound m → IsSound m'
  unfolding abort_post
  PostStep-IsSound {m} (submit t) h = submit-IsSound bits m t h
  PostStep-IsSound {m} (ask_abort actor) h = asked (m.close_map actor)
    where
      asked : (o : Option ℕ) → IsSound ((call_abort o m).1)
      asked none = h
      asked (some c) = elim (Bool-cases (m.closing c == 0)) [
        | inl e ↦ rw e (same-IsSound m h _ refl refl refl refl)
        | inr e ↦ rw e h
      ]
  PostStep-IsSound {m} (take c) h = take_next-IsSound bits m c h
  PostStep-IsSound {m} (time_out c) h = stop-IsSound m h c
  PostStep-IsSound {m} (give_in c e) h = stop-IsSound _ (same-IsSound m h _ refl refl refl refl) c

  pub PostSteps-IsSound : {m m' : Posts B} → IsSound m → PostSteps bits m m' → IsSound m'
  PostSteps-IsSound h here = h
  PostSteps-IsSound h (next r st) = PostStep-IsSound st (PostSteps-IsSound h r)

  new_sync_post_map-IsSound : IsSound (new_sync_post_map {B = B})
  new_sync_post_map-IsSound = record {
    owned = λ c r e. cc;
    sent = λ a i c e. cc;
    old = λ a i c e. cc;
    apart = λ a i b j c e f. cc;
  }

  pub reached-IsSound : {m : Posts B} → PostSteps bits new_sync_post_map m → IsSound m
  reached-IsSound st = PostSteps-IsSound new_sync_post_map-IsSound st

  -- The partition of a goroutine that has taken a transfer holds the goroutine's channel.
  pub own_slot :
      (m : Posts B) (c : ℕ) (r : Collector B) (a : String)
      → IsSound m
      → m.collecting c ≡ some r
      → r.vars.actor ≡ some a
      → slot m a r.vars.index ≡ some c
  own_slot m c r a h ec ra = let (b, j, es, kn) = h.owned c r ec in known b j es kn
    where
      known :
          (b : String) (j : ℤ)
          → slot m b j ≡ some c
          → Knows b j r.vars
          → slot m a r.vars.index ≡ some c
      known b j es (inl (n, _)) = absurd (cc (sym n ∙ ra))
      known b j es (inr (e, f)) =
          subst (λ x. slot m a x ≡ some c) (sym f)
            (subst (λ x. slot m x j ≡ some c) (some_injective (sym e ∙ ra)) es)

  -- From the start of the miner on, whatever calls of StartSubmitPoSt and AbortPoSt come and whichever
  -- goroutines of submitPoSt take their next transfer, run out of time or are aborted, in any order:
  -- two goroutines that are in their loop and have each taken a transfer, of the same actor and the same
  -- partition, are one. One that has left its loop with proofs may still make the partition's proof, and
  -- is not counted. `ResetSyncPoStMap` is not among these steps.
  pub one_collector :
      (m : Posts B) (c d : ℕ) (r q : Collector B) (a : String)
      → PostSteps bits new_sync_post_map m
      → m.collecting c ≡ some r
      → m.collecting d ≡ some q
      → r.vars.actor ≡ some a
      → q.vars.actor ≡ some a
      → r.vars.index ≡ q.vars.index
      → c ≡ d
  one_collector m c d r q a st ec ed ra qa e =
      let h = reached-IsSound st in
      some_injective (sym (own_slot m c r a h ec ra) ∙ ap (slot m a) e ∙ own_slot m d q a h ed qa)
