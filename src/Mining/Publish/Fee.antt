-- ===== src/Mining/Publish/Fee.antt =====
-- mining/util.go: the sum of the gas limits that a published block's base fee is made from.
use filecoin_sealer.Prelude.{
  wrap_int64, ℕ, ◌+◌, ◌<◌, ◌≡◌, refl, sym, ap, ◌∙◌, String, List, [], ◌∷◌, ℤ, pos, negsuc, subst,
  ◌+ℤ◌, ◌≤ℤ◌, pos_part, All, arith,
}
use filecoin_sealer.Keys.{Key, KeyLib}
use filecoin_sealer.Keys.Signs.{IsSound, IsKey}
use filecoin_sealer.Mining.Defs.{
  CidMessage, MiningCalls, Mined, mined, not_mined, panicked, miner_mining,
}
use filecoin_sealer.Mining.Parents.{Distinct, cids}
use filecoin_sealer.Mining.Made.{miner_mining-IsMade}
use filecoin_sealer.Mining.Publish.Defs.{
  BlockMsg, PublishCalls, published, total_limit, publish_mined, mine_and_publish,
}
use filecoin_sealer.Mining.Publish.Parts.{IsLimit-eq-total}
use filecoin_sealer.Mining.Publish.Published.{IsPublished, publish_block_msg-IsPublished}

-- The sum of the gas limits, without a bound.
abbrev pub gas_of : List CidMessage → ℕ
gas_of [] = 0
gas_of (m ∷ ms) = pos_part m.gas_limit + gas_of ms

abbrev pub IsGas : CidMessage → Type 0
IsGas m = pos 0 ≤ℤ m.gas_limit

wrap_small : (n : ℕ) → n < 9223372036854775808 → wrap_int64 (pos n) ≡ pos n
unfolding wrap_int64
wrap_small n h = ground arith

total_step :
    (t : ℕ) (g : ℤ)
    → pos 0 ≤ℤ g
    → t + pos_part g < 9223372036854775808
    → wrap_int64 (pos t +ℤ g) ≡ pos (t + pos_part g)
unfolding ◌+ℤ◌
total_step t (pos g) p h = ground (arith, wrap_small (t + g))
total_step t (negsuc g) p h = absurd (omega arith)

total_limit-eq-gas :
    (t : ℕ) (ms : List CidMessage)
    → All IsGas ms
    → t + gas_of ms < 9223372036854775808
    → total_limit (pos t) ms ≡ pos (t + gas_of ms)
unfolding total_limit
total_limit-eq-gas t [] p h = ap pos (omega arith)
total_limit-eq-gas t (m ∷ ms) (pm, ps) h =
    rw (total_step t m.gas_limit pm (omega arith))
      (total_limit-eq-gas (t + pos_part m.gas_limit) ms ps (omega arith) ∙ ap pos (omega arith))

total_limit-from_zero :
    (ms : List CidMessage)
    → All IsGas ms
    → gas_of ms < 9223372036854775808
    → total_limit (pos 0) ms ≡ pos (gas_of ms)
total_limit-from_zero ms p h = total_limit-eq-gas 0 ms p (omega arith) ∙ ap pos (omega arith)

module _ {A R : Type 0} (keys : KeyLib A) (key : Key A) (c : PublishCalls R) (sound : IsSound keys)
    (own : IsKey keys key) where
  -- A block that the goroutine of MinerServerNotify publishes was made by MinerMining on that head, and
  -- publishBlockMsg published it.
  pub mine_and_publish-IsPublished :
      (mining : MiningCalls) (paths : List String) (b : BlockMsg)
      → mine_and_publish keys key c mining paths ≡ published b
      → (miner_mining mining paths ≡ mined b.header.made) × IsPublished keys key c b.header.made b
  unfolding mine_and_publish
  mine_and_publish-IsPublished mining paths b h = from_mined (miner_mining mining paths) refl h
    where
      from_mined :
          (m : Mined)
          → miner_mining mining paths ≡ m
          → publish_mined keys key c m ≡ published b
          → (miner_mining mining paths ≡ mined b.header.made)
            × IsPublished keys key c b.header.made b
      from_mined (not_mined e) em h = cc
      from_mined (panicked e) em h = cc
      from_mined (mined r) em h =
          let p = publish_block_msg-IsPublished keys key c sound own r b h in
          (em ∙ ap mined (sym p.made_by), subst (λ x. IsPublished keys key c x b) (sym p.made_by) p)

  -- A block that the goroutine of MinerServerNotify publishes won on its head, its parent messages are
  -- of different CIDs, and its base fee is that of the sum of their gas limits, if none of them is
  -- negative and the sum is below 2^63.
  pub mine_and_publish-fee :
      (mining : MiningCalls) (paths : List String) (b : BlockMsg)
      → mine_and_publish keys key c mining paths ≡ published b
      → All IsGas b.header.made.parent_msg
      → gas_of b.header.made.parent_msg < 9223372036854775808
      → (pos 1 ≤ℤ b.header.made.win_count)
        × Distinct (cids b.header.made.parent_msg)
        × (b.header.parent_base_fee ≡ c.next_base_fee (pos (gas_of b.header.made.parent_msg)))
  mine_and_publish-fee mining paths b h gas small =
      let (by, p) = mine_and_publish-IsPublished mining paths b h in
      let (mbi, m) = miner_mining-IsMade mining paths b.header.made by in
      (
        m.wins,
        m.apart,
        p.fee_of
            ∙ ap c.next_base_fee (
                IsLimit-eq-total (pos 0) p.limit b.header.made.parent_msg p.limit_of
                ∙ total_limit-from_zero b.header.made.parent_msg gas small),
      )
