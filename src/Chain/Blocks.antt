-- ===== src/Chain/Blocks.antt =====
-- chain/notify.go: subscribeBlock, which collects the blocks of one height.
use filecoin_sealer.Prelude.{
  ℕ, ◌≡◌, ltb, String, List, [], ◌∷◌, ◌++◌, Option, none, some, ℤ, pos, ltb_ℤ, ◌<ℤ◌, if◌then◌else◌,
  All, arith, Bool-cases, inl, inr, subst,
}

-- `NsBlockMsg`: its header's height, and the CIDs of its messages.
pub record Block : Type 0 where
  pub height : ℤ
  pub bls_messages : List String
  pub secpk_messages : List String

-- One pass of the loop: the ticker, a message that does not come or cannot be decoded, or a block
-- with the seconds since its timestamp.
pub data BlockEvent : Type 0 where
  tick : BlockEvent
  no_block : BlockEvent
  block : Block → ℕ → BlockEvent

pub record Subscription : Type 0 where
  pub height : ℤ
  pub blks : List Block
  pub took : ℕ

abbrev pub subscription_new : Subscription
subscription_new = record { height = pos 0; blks = []; took = 0 }

abbrev pub flush : List Block → Subscription → Option (List Block) × Subscription
flush [] s = (none, record s { blks = []; took = 0 })
flush (b ∷ bs) s = (some (b ∷ bs), record { height = b.height; blks = []; took = 0 })

-- While `took` is above 16 no message is read.
abbrev pub add_block : Block → ℕ → Subscription → Subscription
add_block b seconds s =
    if ltb 16 s.took
    then s
    else if ltb_ℤ s.height b.height
    then record s { blks = s.blks ++ b ∷ []; took = seconds }
    else s

abbrev pub block_step : BlockEvent → Subscription → Option (List Block) × Subscription
block_step tick s = flush s.blks s
block_step no_block s = (none, s)
block_step (block b seconds) s = (none, add_block b seconds s)

-- The lists of blocks that the loop sends to `BlockChan`.
unfoldable pub subscribe_block : List BlockEvent → Subscription → List (List Block)
subscribe_block [] s = []
subscribe_block (e ∷ es) s =
    let (sent, s') = block_step e s in
    let rest = subscribe_block es s' in elim sent [ none ↦ rest | some bs ↦ bs ∷ rest ]

-- Each list has blocks, all above the height of the first block of the list before.
abbrev pub Rising : ℤ → List (List Block) → Type 0
Rising h [] = Unit
Rising h ([] ∷ rest) = ⊥
Rising h ((b ∷ bs) ∷ rest) = All (λ x. h <ℤ x.height) (b ∷ bs) × Rising b.height rest

All-last :
    (h : ℤ) (bs : List Block) (b : Block)
    → All (λ x. h <ℤ x.height) bs
    → h <ℤ b.height
    → All (λ x. h <ℤ x.height) (bs ++ b ∷ [])
All-last h [] b a l = (l, tt)
All-last h (x ∷ bs) b a l = (a.0, All-last h bs b a.1 l)

abbrev Above : Subscription → Type 0
Above s = All (λ x. s.height <ℤ x.height) s.blks

add_block-Above : (b : Block) (n : ℕ) (s : Subscription) → Above s → Above (add_block b n s)
add_block-Above b n s a = elim (Bool-cases (ltb 16 s.took)) [
  | inl t ↦ rw t a
  | inr t ↦ elim (Bool-cases (ltb_ℤ s.height b.height)) [
    | inl l ↦ rw (t, l) (All-last s.height s.blks b a (ground (arith, l)))
    | inr l ↦ rw (t, l) a
  ]
]

add_block-height : (b : Block) (n : ℕ) (s : Subscription) → (add_block b n s).height ≡ s.height
add_block-height b n s = elim (Bool-cases (ltb 16 s.took)) [
  | inl t ↦ rw t
  | inr t ↦ elim (Bool-cases (ltb_ℤ s.height b.height)) [ inl l ↦ rw (t, l) | inr l ↦ rw (t, l) ]
]

subscribe_block-from :
    (es : List BlockEvent) (s : Subscription) → Above s → Rising s.height (subscribe_block es s)
unfolding subscribe_block
subscribe_block-from [] s a = tt
subscribe_block-from (no_block ∷ es) s a = subscribe_block-from es s a
subscribe_block-from (block b n ∷ es) s a =
    subst (λ h. Rising h (subscribe_block es (add_block b n s))) (add_block-height b n s)
      (subscribe_block-from es (add_block b n s) (add_block-Above b n s a))
subscribe_block-from (tick ∷ es) s a =
    flushed s.blks a (subscribe_block-from es (record s { blks = []; took = 0 }) tt)
      (λ h. subscribe_block-from es (record { height = h; blks = []; took = 0 }) tt)
  where
    flushed :
        (bs : List Block)
        → All (λ x. s.height <ℤ x.height) bs
        → Rising s.height (subscribe_block es (record s { blks = []; took = 0 }))
        → ((h : ℤ) → Rising h (subscribe_block es (record { height = h; blks = []; took = 0 })))
        → Rising s.height (elim (flush bs s).0 [
          | none ↦ subscribe_block es (flush bs s).1
          | some xs ↦ xs ∷ subscribe_block es (flush bs s).1
        ])
    flushed [] a idle more = idle
    flushed (b ∷ bs) a idle more = (a, more b.height)

-- Whatever comes over the network and whenever the ticker fires, each list of blocks that
-- subscribeBlock sends on has a block, and all its blocks are above the height of the first block of
-- the list sent before.
pub subscribe_block-Rising :
    (es : List BlockEvent) → Rising (pos 0) (subscribe_block es subscription_new)
subscribe_block-Rising es = subscribe_block-from es subscription_new tt
