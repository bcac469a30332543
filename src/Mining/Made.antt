-- ===== src/Mining/Made.antt =====
-- mining/util.go: what a block of MinerMining is made of.
use filecoin_sealer.Prelude.{
  ◌≡◌, refl, ap, ◌∙◌, subst, String, Bool, true, false, List, [], Option, none, some, pos, ltb_ℤ,
  str_eq, ℕ, ◌∷◌, if◌then◌else◌, Called, got, lost, bind_got, got_injective, select, Bool-cases,
  inl, inr, arith, All, ◌≤ℤ◌,
}
use filecoin_sealer.Chain.Heads.{is_seen}
use filecoin_sealer.Mining.Parents.{
  Distinct, cids, FirstPath, find_sealed_path-FirstPath, Kept, parent_messages-Kept, of_Kept,
}
use filecoin_sealer.Mining.Defs.{
  Receipt, BaseInfo, MiningCalls, MiningResult, mined, not_mined, ParentMessages, parent_messages,
  find_sealed_path, with_path, with_first_sector, make_block, ended, with_election, with_ticket,
  with_base, miner_mining, vrf_proof,
}

-- What a block is made of.
pub record IsMade (c : MiningCalls) (paths : List String) (mbi : BaseInfo) (r : MiningResult)
    : Type 0 where
  pub base : c.base_info ≡ got (some mbi)
  pub wins : pos 1 ≤ℤ r.win_count
  pub apart : Distinct (cids r.parent_msg)
  pub of_parents : All (λ q. is_seen q.msg_cid (cids r.parent_msg) ≡ true) r.receipts
  pub trace : List Receipt
  pub computed : c.state r.parent_msg ≡ got trace
  pub receipts_of : r.receipts ≡ select (λ q. is_seen q.msg_cid (cids r.parent_msg)) trace
  pub receipts_set : c.set_receipts r.receipts ≡ got tt
  pub root_of : c.root ≡ got r.receipts_root
  pub path : FirstPath c.is_there mbi.sectors paths r.sealed_path
  pub proved : c.winning_post r.sealed_path ≡ got r.win_post_proof

filled_injective : {q r : MiningResult} → some q ≡ some r → q ≡ r
filled_injective h = cc

mined_injective : {q r : MiningResult} → mined q ≡ mined r → q ≡ r
mined_injective h = cc

module _ (c : MiningCalls) (paths : List String) where
  made :
      (mbi : BaseInfo) (ticket ep : String) (r : MiningResult)
      → c.base_info ≡ got (some mbi)
      → ltb_ℤ (c.win_count ep) (pos 1) ≡ false
      → make_block c paths mbi ticket ep ≡ got (some r)
      → IsMade c paths mbi r
  made mbi ticket ep r hb hw h =
      let (p, ep1, h1) =
        bind_got (parent_messages c.block_messages (record { parent_msg = []; map_msg = [] })) _
          h in
      let (trace, et, h2) = bind_got (c.state p.parent_msg) _ h1 in
      let (_, es, h3) =
        bind_got (c.set_receipts (select (λ q. is_seen q.msg_cid p.map_msg) trace)) _ h2 in
      let (root, er, h4) = bind_got c.root _ h3 in
      let (actor, _, h5) = bind_got c.actor_id _ h4 in
      let (_, _, h6) = bind_got c.marshal _ (sectors_known mbi.sectors _ h5) in
      let (_, _, h7) = bind_got c.draw _ h6 in
      let (proof, ew, h8) =
        bind_got (with_path c paths mbi (find_sealed_path c.is_there mbi.sectors paths)) _ h7 in
      let k : Kept p = parent_messages-Kept c.block_messages _ p nothing_kept ep1 in
      all_made p trace root proof k et es er
        (path_known (find_sealed_path c.is_there mbi.sectors paths) proof ew) (got_injective h8)
    where
      sectors_known :
          (ss : List ℕ) (x : Called MiningResult)
          → with_first_sector c paths ss x ≡ got (some r)
          → x ≡ got r
      sectors_known [] x e = cc
      sectors_known (s ∷ ss) (lost t) e = cc
      sectors_known (s ∷ ss) (got q) e = ap got (filled_injective (got_injective e))

      path_known :
          (path proof : String)
          → with_path c paths mbi path ≡ got proof
          → (str_eq path "" ≡ false) × (c.winning_post path ≡ got proof)
      path_known path proof e = elim (Bool-cases (str_eq path "")) [
        | inl b ↦ absurd (cc (rw b at e))
        | inr b ↦ (b, rw b at e)
      ]

      all_made :
          (p : ParentMessages) (trace : List Receipt) (root proof : String)
          → Kept p
          → c.state p.parent_msg ≡ got trace
          → c.set_receipts (select (λ q. is_seen q.msg_cid p.map_msg) trace) ≡ got tt
          → c.root ≡ got root
          → (str_eq (find_sealed_path c.is_there mbi.sectors paths) "" ≡ false)
            × (c.winning_post (find_sealed_path c.is_there mbi.sectors paths) ≡ got proof)
          → ◌≡◌ {A = MiningResult}
              (record {
                ticket = ticket;
                election_proof = ep;
                win_count = c.win_count ep;
                parent_msg = p.parent_msg;
                receipts = select (λ q. is_seen q.msg_cid p.map_msg) trace;
                receipts_root = root;
                sealed_path = find_sealed_path c.is_there mbi.sectors paths;
                win_post_proof = proof;
              })
              r
          → IsMade c paths mbi r
      all_made p trace root proof k et es er (b, ew) e = subst (IsMade c paths mbi) e (record {
        base = hb;
        wins = ground (arith, hw);
        apart = k.apart;
        of_parents = of_Kept p trace k;
        trace = trace;
        computed = et;
        receipts_of = λ i. select (λ q. k.keys q.msg_cid i) trace;
        receipts_set = es;
        root_of = er;
        path = find_sealed_path-FirstPath c.is_there mbi.sectors paths b;
        proved = ew;
      })

      nothing_kept : Kept (record { parent_msg = []; map_msg = [] })
      nothing_kept = record { apart = tt; keys = λ z. refl }

  -- A block that MinerMining makes has won at least once. Its parent messages are of different CIDs; its
  -- receipts are those of the trace of these messages that are of one of them, in the trace's order, were
  -- set into the array, and its root of receipts is the array's root; and its winning proof was made with
  -- the first of the given paths that has the sealed file of a sector that the chain asked for.
  pub miner_mining-IsMade :
      (r : MiningResult) → miner_mining c paths ≡ mined r → (mbi : BaseInfo) × IsMade c paths mbi r
  unfolding miner_mining
  miner_mining-IsMade r h = with_info c.base_info refl h
    where
      ended_at :
          (mbi : BaseInfo) (ticket ep : String) (o : Called (Option MiningResult))
          → c.base_info ≡ got (some mbi)
          → ltb_ℤ (c.win_count ep) (pos 1) ≡ false
          → make_block c paths mbi ticket ep ≡ o
          → ended c paths o ≡ mined r
          → IsMade c paths mbi r
      ended_at mbi ticket ep (lost e) hb hw eo h = cc
      ended_at mbi ticket ep (got none) hb hw eo h = cc
      ended_at mbi ticket ep (got (some q)) hb hw eo h =
          made mbi ticket ep r hb hw (eo ∙ ap (λ x. got (some x)) (mined_injective h))

      with_count :
          (mbi : BaseInfo) (ticket ep : String) (b : Bool)
          → c.base_info ≡ got (some mbi)
          → ltb_ℤ (c.win_count ep) (pos 1) ≡ b
          → (if b then not_mined "wincount" else ended c paths (make_block c paths mbi ticket ep))
            ≡ mined r
          → IsMade c paths mbi r
      with_count mbi ticket ep true hb hw h = cc
      with_count mbi ticket ep false hb hw h =
          ended_at mbi ticket ep (make_block c paths mbi ticket ep) hb hw refl h

      with_ep :
          (mbi : BaseInfo) (ticket : String) (o : Called String)
          → c.base_info ≡ got (some mbi)
          → with_election c paths mbi ticket o ≡ mined r
          → IsMade c paths mbi r
      with_ep mbi ticket (lost e) hb h = cc
      with_ep mbi ticket (got ep) hb h =
          with_count mbi ticket ep (ltb_ℤ (c.win_count ep) (pos 1)) hb refl h

      with_draw :
          (mbi : BaseInfo) (o : Called String)
          → c.base_info ≡ got (some mbi)
          → with_ticket c paths mbi o ≡ mined r
          → IsMade c paths mbi r
      with_draw mbi (lost e) hb h = cc
      with_draw mbi (got ticket) hb h = with_ep mbi ticket (vrf_proof c.election) hb h

      with_info :
          (o : Called (Option BaseInfo))
          → c.base_info ≡ o
          → with_base c paths o ≡ mined r
          → (mbi : BaseInfo) × IsMade c paths mbi r
      with_info (lost e) eo h = cc
      with_info (got none) eo h = cc
      with_info (got (some mbi)) eo h = (mbi, with_draw mbi (vrf_proof c.ticket) eo h)
