-- ===== src/Miner/Seed/Wait.antt =====
-- A seed is drawn no earlier than the chain allows.
use filecoin_sealer.Prelude.{
  Called, got, lost, ◌≡◌, refl, String, List, [], ◌∷◌, Option, none, some, ℤ, pos, negsuc, ◌+ℤ◌,
  ◌≤ℤ◌, ◌<ℤ◌, wrap_int64, wrap_int64_within, arith,
}
use filecoin_sealer.Tables.{TaskResult}
use filecoin_sealer.Miner.Send.{text_result}
use filecoin_sealer.Miner.Seed.{
  SeedCalls, wait_seed, seed_found, waited, seeded, from_epoch, from_marshal, from_address,
  from_head,
}

wait_seed-le :
    (target height h : ℤ) (hs : List (Called ℤ))
    → wait_seed target height hs ≡ some (got h)
    → target ≤ℤ h
unfolding wait_seed
wait_seed-le target height h [] e = ground arith
wait_seed-le target height h (lost x ∷ hs) e = ground arith
wait_seed-le target height h (got x ∷ hs) e = ground (arith, wait_seed-le target x h hs)

-- What a goroutine that reports no error has found: a blank result whose address could not be
-- encoded, or the randomness at a height not before the epoch of the pre-commit and the wait.
pub data IsSound (wait : ℤ) (c : SeedCalls) (ret : TaskResult) : Type 0 where
  blank : (text : String) → c.marshal ≡ lost text → ret ≡ text_result "" → IsSound wait c ret
  ripe :
      (epoch : ℤ)
      → c.pre_commit_epoch ≡ got epoch
      → (epoch +ℤ wait) ≤ℤ ret.seed_epoch
      → c.randomness ≡ got ret.seed_hex
      → IsSound wait c ret

-- The epoch of the pre-commit and the wait, added, are an `int64`.
abbrev pub InRange : ℤ → SeedCalls → Type 0
InRange wait c =
    (epoch : ℤ)
    → c.pre_commit_epoch ≡ got epoch
    → (negsuc 9223372036854775807 ≤ℤ (epoch +ℤ wait)) × ((epoch +ℤ wait) <ℤ pos 9223372036854775808)

module _ (wait : ℤ) (c : SeedCalls) (ret : TaskResult) (range : InRange wait c) where
  added : (epoch : ℤ) → c.pre_commit_epoch ≡ got epoch → wrap_int64 (epoch +ℤ wait) ≡ epoch +ℤ wait
  added epoch p = let (low, high) = range epoch p in wrap_int64_within (epoch +ℤ wait) low high

  seeded-IsSound :
      (epoch height : ℤ) (rand : Called String)
      → c.pre_commit_epoch ≡ got epoch
      → wrap_int64 (epoch +ℤ wait) ≤ℤ height
      → c.randomness ≡ rand
      → seeded height rand ≡ some (none, ret)
      → IsSound wait c ret
  seeded-IsSound epoch height (lost e) p late r h = absurd (cc h)
  seeded-IsSound epoch height (got x) p late r h =
      ripe epoch p (ground (arith, added epoch p)) (ground arith)

  waited-IsSound :
      (epoch : ℤ) (w : Option (Called ℤ))
      → c.pre_commit_epoch ≡ got epoch
      → ((h : ℤ) → w ≡ some (got h) → wrap_int64 (epoch +ℤ wait) ≤ℤ h)
      → waited c.randomness w ≡ some (none, ret)
      → IsSound wait c ret
  waited-IsSound epoch none p late h = absurd (cc h)
  waited-IsSound epoch (some (lost e)) p late h = absurd (cc h)
  waited-IsSound epoch (some (got x)) p late h =
      seeded-IsSound epoch x c.randomness p (late x refl) refl h

  from_epoch-IsSound :
      (height : ℤ) (x : Called ℤ)
      → c.pre_commit_epoch ≡ x
      → from_epoch wait height c x ≡ some (none, ret)
      → IsSound wait c ret
  from_epoch-IsSound height (lost e) p h = absurd (cc h)
  from_epoch-IsSound height (got epoch) p h =
      waited-IsSound epoch (wait_seed (wrap_int64 (epoch +ℤ wait)) height c.heads) p
        (λ y e. wait_seed-le (wrap_int64 (epoch +ℤ wait)) height y c.heads e) h

  from_marshal-IsSound :
      (height : ℤ) (x : Called (Unit {0}))
      → c.marshal ≡ x
      → from_marshal wait height c x ≡ some (none, ret)
      → IsSound wait c ret
  from_marshal-IsSound height (lost e) p h = blank e p (ground arith)
  from_marshal-IsSound height (got x) p h = from_epoch-IsSound height c.pre_commit_epoch refl h

  from_address-IsSound :
      (height : ℤ) (x : Called (Unit {0}))
      → from_address wait height c x ≡ some (none, ret)
      → IsSound wait c ret
  from_address-IsSound height (lost e) h = absurd (cc h)
  from_address-IsSound height (got x) h = from_marshal-IsSound height c.marshal refl h

  from_head-IsSound : (x : Called ℤ) → from_head wait c x ≡ some (none, ret) → IsSound wait c ret
  from_head-IsSound (lost e) h = absurd (cc h)
  from_head-IsSound (got height) h = from_address-IsSound height c.address h

  -- If the epoch of the pre-commit and the wait together do not leave the `int64`s: a SEED that is
  -- reported without an error carries the randomness of the chain, at a height that is not before the
  -- two together; or the miner's address could not be encoded, and its result is blank.
  pub seed_found-IsSound : seed_found wait c ≡ some (none, ret) → IsSound wait c ret
  unfolding seed_found
  seed_found-IsSound h = from_head-IsSound c.head h
