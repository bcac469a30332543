-- ===== src/Mining/Publish/Published.antt =====
-- mining/util.go: what publishBlockMsg publishes.
use filecoin_sealer.Prelude.{
  ◌≡◌, refl, sym, ap, ◌∙◌, subst, ℕ, String, List, map, Option, none, some, ℤ, pos, Called, got,
  lost, ◌>>=◌, bind_got, got_injective, select,
}
use filecoin_sealer.Mining.Publish.Selected.{has_bls, has_secpk, Stored, Adds, select_messages-Adds}
use filecoin_sealer.Mining.Publish.Parts.{
  IsMeta, compute_msg_meta-IsMeta, IsAggregate, aggregate_signatures-IsAggregate, IsLimit,
  total_limit-IsLimit,
}
use filecoin_sealer.Keys.{Key, KeyLib, Signature, sign_msg, verify_msg}
use filecoin_sealer.Keys.Signs.{IsSound, IsKey, sign_msg-verifies}
use filecoin_sealer.Mining.Defs.{MiningResult}
use filecoin_sealer.Mining.Publish.Defs.{
  PoolMessage, Selected, select_messages, total_limit, aggregate_signatures, compute_msg_meta,
  PublishedHeader, BlockMsg, PublishCalls, published, none_selected, prepared, signed_block,
  publish_ends, with_aggregate, with_prepared, publish_block_msg,
}

module _ {A R : Type 0} (keys : KeyLib A) (key : Key A) (c : PublishCalls R) where
  -- What a published block is made of.
  pub record IsPublished (r : MiningResult) (b : BlockMsg) : Type 0 where
    pub msgs : List PoolMessage
    pub bls_blocks : List String
    pub secpk_blocks : List String
    pub from_pool : c.pool ≡ got msgs
    pub bls_listed : b.bls_messages ≡ map (λ m. m.cid) (select has_bls msgs)
    pub secpk_listed : b.secpk_messages ≡ map (λ m. m.cid) (select has_secpk msgs)
    pub bls_stored : Stored (select has_bls msgs) bls_blocks
    pub secpk_stored : Stored (select has_secpk msgs) secpk_blocks
    pub root_of : IsMeta c.arrays bls_blocks secpk_blocks b.header.messages
    pub aggregate_of :
        IsAggregate c.aggregates
          (map (λ m. m.signature) (select has_bls msgs))
          b.header.bls_aggregate
    pub made_by : b.header.made ≡ r
    pub weight_of : c.weight ≡ got b.header.parent_weight
    pub limit : ℤ
    pub limit_of : IsLimit (pos 0) r.parent_msg limit
    pub fee_of : b.header.parent_base_fee ≡ c.next_base_fee limit
    pub header_bytes : List ℕ
    pub block_bytes : List ℕ
    pub header_read : c.serialize b.header ≡ got header_bytes
    pub good_sig : verify_msg keys b.block_sig key.address header_bytes ≡ got tt
    pub block_read : c.serialize_block b ≡ got block_bytes
    pub sent : c.publish block_bytes ≡ got tt

  -- The end of a run: the header that was signed and the block that was sent.
  record IsSigned (s : Selected) (header : PublishedHeader) (b : BlockMsg) : Type 0 where
    header_bytes : List ℕ
    block_bytes : List ℕ
    header_is : b.header ≡ header
    bls_is : b.bls_messages ≡ s.bls_messages
    secpk_is : b.secpk_messages ≡ s.secpk_messages
    header_read : c.serialize header ≡ got header_bytes
    good_sig : verify_msg keys b.block_sig key.address header_bytes ≡ got tt
    block_read : c.serialize_block b ≡ got block_bytes
    sent : c.publish block_bytes ≡ got tt

  module _ (sound : IsSound keys) (own : IsKey keys key) where
    signed_block-IsSigned :
        (s : Selected) (header : PublishedHeader) (b : BlockMsg)
        → signed_block keys key c s header ≡ got b
        → IsSigned s header b
    signed_block-IsSigned s header b h =
        let (hbuf, eh, h1) = bind_got (c.serialize header) _ h in
        let (sig, es, h2) = bind_got (sign_msg keys key.key_info hbuf) _ h1 in
        let block : BlockMsg = record {
          header = header;
          block_sig = sig;
          bls_messages = s.bls_messages;
          secpk_messages = s.secpk_messages;
        } in
        let (bytes, eb, h3) = bind_got (c.serialize_block block) _ h2 in
        let (_, ep, h4) = bind_got (c.publish bytes) _ h3 in
        subst (IsSigned s header) (got_injective h4) (record {
          header_bytes = hbuf;
          block_bytes = bytes;
          header_is = refl;
          bls_is = refl;
          secpk_is = refl;
          header_read = eh;
          good_sig = sign_msg-verifies keys sound key hbuf sig own es;
          block_read = eb;
          sent = ep;
        })

    -- What is known before the signatures are put together.
    record IsPrepared (msgs : List PoolMessage) (s : Selected) (messages : String) (weight : ℕ)
        : Type 0 where
      adds : Adds none_selected s msgs
      root_of : compute_msg_meta c.arrays s.blkcids s.secpkcids ≡ got messages
      weight_of : c.weight ≡ got weight

    prepared-IsPrepared :
        (msgs : List PoolMessage) (s : Selected) (messages : String) (weight : ℕ)
        → prepared keys key c msgs ≡ got (s, messages, weight)
        → IsPrepared msgs s messages weight
    prepared-IsPrepared msgs s messages weight h =
        let (t, et, h1) = bind_got (select_messages msgs none_selected) _ h in
        let (root, er, h2) = bind_got (compute_msg_meta c.arrays t.blkcids t.secpkcids) _ h1 in
        let (w, ew, h3) = bind_got c.weight _ h2 in
        subst (λ x. IsPrepared msgs x.0 x.1 x.2) (got_injective h3)
          (record {
            adds = select_messages-Adds msgs none_selected t et;
            root_of = er;
            weight_of = ew;
          })

    module _ (r : MiningResult) (b : BlockMsg) (msgs : List PoolMessage) (s : Selected)
        (messages : String) (weight : ℕ) (em : c.pool ≡ got msgs)
        (known : IsPrepared msgs s messages weight) where
      header_of : Signature → PublishedHeader
      header_of sig = record {
        made = r;
        messages = messages;
        parent_weight = weight;
        parent_base_fee = c.next_base_fee (total_limit (pos 0) r.parent_msg);
        bls_aggregate = sig;
      }

      signed-IsPublished :
          (sig : Signature)
          → aggregate_signatures c.aggregates s.bls_sigs ≡ some (got sig)
          → IsSigned s (header_of sig) b
          → IsPublished r b
      unfolding header_of
      signed-IsPublished sig eo g = record {
        msgs = msgs;
        bls_blocks = known.adds.bls_blocks;
        secpk_blocks = known.adds.secpk_blocks;
        from_pool = em;
        bls_listed = g.bls_is ∙ known.adds.bls;
        secpk_listed = g.secpk_is ∙ known.adds.secpk;
        bls_stored = known.adds.bls_stored;
        secpk_stored = known.adds.secpk_stored;
        root_of =
            compute_msg_meta-IsMeta c.arrays known.adds.bls_blocks known.adds.secpk_blocks
              b.header.messages
              ((λ i.
                  compute_msg_meta c.arrays (sym known.adds.blkcids i) (sym known.adds.secpkcids i))
                ∙ (known.root_of ∙ ap (λ x. got x.messages) (sym g.header_is)));
        aggregate_of =
            aggregate_signatures-IsAggregate c.aggregates
              (map (λ m. m.signature) (select has_bls msgs)) b.header.bls_aggregate
              (ap (aggregate_signatures c.aggregates) (sym known.adds.sigs)
                ∙ (eo ∙ ap (λ x. some (got x.bls_aggregate)) (sym g.header_is)));
        made_by = ap (λ x. x.made) g.header_is;
        weight_of = known.weight_of ∙ ap (λ x. got x.parent_weight) (sym g.header_is);
        limit = total_limit (pos 0) r.parent_msg;
        limit_of = total_limit-IsLimit (pos 0) r.parent_msg;
        fee_of = ap (λ x. x.parent_base_fee) g.header_is;
        header_bytes = g.header_bytes;
        block_bytes = g.block_bytes;
        header_read = ap c.serialize g.header_is ∙ g.header_read;
        good_sig = g.good_sig;
        block_read = g.block_read;
        sent = g.sent;
      }

      ends-IsPublished :
          (sig : Signature) (x : Called BlockMsg)
          → aggregate_signatures c.aggregates s.bls_sigs ≡ some (got sig)
          → signed_block keys key c s (header_of sig) ≡ x
          → publish_ends keys key c x ≡ published b
          → IsPublished r b
      ends-IsPublished sig (lost e) eo ex h = cc
      ends-IsPublished sig (got b') eo ex h =
          let same : b' ≡ b = cc in
          signed-IsPublished sig eo (signed_block-IsSigned s (header_of sig) b (ex ∙ ap got same))

      aggregate-IsPublished :
          (o : Option (Called Signature))
          → aggregate_signatures c.aggregates s.bls_sigs ≡ o
          → with_aggregate keys key c r s messages weight o ≡ published b
          → IsPublished r b
      unfolding header_of
      aggregate-IsPublished none eo h = cc
      aggregate-IsPublished (some (lost e)) eo h = cc
      aggregate-IsPublished (some (got sig)) eo h =
          ends-IsPublished sig (signed_block keys key c s (header_of sig)) eo refl h

    prepared-IsPublished :
        (r : MiningResult) (b : BlockMsg) (msgs : List PoolMessage)
        (x : Called (Selected × String × ℕ))
        → c.pool ≡ got msgs
        → prepared keys key c msgs ≡ x
        → with_prepared keys key c r x ≡ published b
        → IsPublished r b
    prepared-IsPublished r b msgs (lost e) em ex h = cc
    prepared-IsPublished r b msgs (got (s, messages, weight)) em ex h =
        aggregate-IsPublished r b msgs s messages weight em
          (prepared-IsPrepared msgs s messages weight ex)
          (aggregate_signatures c.aggregates s.bls_sigs) refl h

    -- A block that publishBlockMsg publishes lists the CIDs of the messages of the pool, those with a BLS
    -- signature apart from the others, each in the pool's order. Its root of messages is stored from the
    -- roots of two arrays, one filled with the blocks of storage of the first ones and one with those of the
    -- others, each in the same order. Its aggregate is that of the first bytes of the BLS signatures, or the
    -- signature of nothing where there is none. Its base fee is of the parent messages' gas limits added as
    -- `int64`s. Its signature is good for the miner's key, and its bytes were published.
    pub publish_block_msg-IsPublished :
        (r : MiningResult) (b : BlockMsg)
        → publish_block_msg keys key c r ≡ published b
        → IsPublished r b
    unfolding publish_block_msg
    publish_block_msg-IsPublished r b h = from_pool c.pool refl h
      where
        from_pool :
            (o : Called (List PoolMessage))
            → c.pool ≡ o
            → with_prepared keys key c r (o >>= prepared keys key c) ≡ published b
            → IsPublished r b
        from_pool (lost e) eo h = cc
        from_pool (got msgs) eo h =
            prepared-IsPublished r b msgs (prepared keys key c msgs) eo refl h
