-- ===== src/Miner/Transfer/Sent.antt =====
-- miner/sendmsgbypri.go: what the messages that are not of a sector say, and who they are signed by.
use filecoin_sealer.Prelude.{ℕ, String, [], ◌≡◌, sym, ap, ◌∙◌, subst, got, bind_got, got_injective}
use filecoin_sealer.Keys.{KeyLib, generate_key_by_hex_string, generate_addr_by_hex_pri, verify_msg}
use filecoin_sealer.Keys.Signs.{IsSound}
use filecoin_sealer.Keys.Messages.{
  NsMessage, SignedMessage, MessageLib, message_of, generate_util_sig_msg, SignedBy,
  generate_util_sig_msg-SignedBy,
}
use filecoin_sealer.Window.Message.{check_nonce}
use filecoin_sealer.Miner.Transfer.{
  Node, send_msg_by_privat_key, with_draw_by_privat_key, tx_by_privat_key,
}

module _ {A : Type 0} (keys : KeyLib A) (lib : MessageLib A) (node : Node A) where
  -- The estimate of the gas changes nothing but the gas.
  pub record IsPriced (msg priced : NsMessage A) : Type 0 where
    pub to_same : priced.to ≡ msg.to
    pub from_same : priced.from ≡ msg.from
    pub value_same : priced.value ≡ msg.value
    pub method_same : priced.method ≡ msg.method
    pub nonce_same : priced.nonce ≡ msg.nonce

  abbrev pub PricesOnly : Type 0
  PricesOnly = (msg priced : NsMessage A) → node.estimate msg ≡ got priced → IsPriced msg priced

  -- A message that the pool took: the given one with its gas, signed by the key.
  pub record IsPushed (prihex : String) (msg : NsMessage A) (cid : String) (s : SignedMessage A)
      : Type 0 where
    pub taken : node.push s ≡ got cid
    pub priced : IsPriced msg s.message
    pub signed : SignedBy keys lib prihex s.message s

  good_for :
      (prihex : String) (msg : NsMessage A) (s : SignedMessage A) (a : A)
      → SignedBy keys lib prihex msg s
      → generate_addr_by_hex_pri keys prihex ≡ got a
      → verify_msg keys s.signature a (lib.cid s.message) ≡ got tt
  unfolding generate_addr_by_hex_pri
  good_for prihex msg s a by h =
      let (k, ek, h1) = bind_got (generate_key_by_hex_string keys prihex) _ h in
      let at : by.key.address ≡ a =
        ap (λ x. x.address) (got_injective (sym by.read ∙ ek)) ∙ got_injective h1 in
      subst (λ x. verify_msg keys s.signature x (lib.cid s.message) ≡ got tt) at by.good

  module _ (sound : IsSound keys) (prices : PricesOnly) (prihex : String) where
    send-IsPushed :
        (msg : NsMessage A) (cid : String)
        → send_msg_by_privat_key keys lib node prihex msg ≡ got cid
        → (s : SignedMessage A) × IsPushed prihex msg cid s
    unfolding send_msg_by_privat_key
    send-IsPushed msg cid h =
        let (_, _, h1) = bind_got node.head _ h in
        let (p, ep, h2) = bind_got (node.estimate msg) _ h1 in
        let (s, es, h3) = bind_got (generate_util_sig_msg keys lib prihex p) _ h2 in
        let by = generate_util_sig_msg-SignedBy keys lib sound prihex p s es in
        (
          s,
          record {
            taken = h3;
            priced = subst (IsPriced msg) (sym by.message_is) (prices msg p ep);
            signed = subst (λ m. SignedBy keys lib prihex m s) (sym by.message_is) by;
          },
        )

    -- The message of a transfer: its receiver is the one that was named, its amount what the text says,
    -- its sender the address of the private key, its nonce the one of that address, and its signature is
    -- good for its sender. `PricesOnly` is that the node's estimate changes nothing but the gas.
    pub tx_by_privat_key-Pays :
        (to amt cid : String)
        → tx_by_privat_key keys lib node prihex to amt ≡ got cid
        → (s : SignedMessage A) × (node.push s ≡ got cid)
          × (keys.new_from_string to ≡ got s.message.to)
          × (node.parse_fil amt ≡ got s.message.value)
          × (generate_addr_by_hex_pri keys prihex ≡ got s.message.from)
          × (check_nonce (node.nonces s.message.from) ≡ got s.message.nonce)
          × (verify_msg keys s.signature s.message.from (lib.cid s.message) ≡ got tt)
    unfolding tx_by_privat_key
    tx_by_privat_key-Pays to amt cid h =
        let (addr, ea, h1) = bind_got (generate_addr_by_hex_pri keys prihex) _ h in
        let (to_addr, et, h2) = bind_got (keys.new_from_string to) _ h1 in
        let (val, ev, h3) = bind_got (node.parse_fil amt) _ h2 in
        let (n, en, h4) = bind_got (check_nonce (node.nonces addr)) _ h3 in
        let (s, p) = send-IsPushed (message_of to_addr addr val 0 n []) cid h4 in
        (
          s,
          p.taken,
          et ∙ ap got (sym p.priced.to_same),
          ev ∙ ap got (sym p.priced.value_same),
          ea ∙ ap got (sym p.priced.from_same),
          subst (λ x. check_nonce (node.nonces x) ≡ got s.message.nonce) (sym p.priced.from_same)
              (en ∙ ap got (sym p.priced.nonce_same)),
          good_for prihex s.message s s.message.from p.signed
              (ea ∙ ap got (sym p.priced.from_same)),
        )

    -- The message of a withdrawal is sent from the key's address to the same address, and not to the actor
    -- that is to be drawn from.
    pub with_draw-own :
        (actor_id : ℕ) (amt cid : String)
        → with_draw_by_privat_key keys lib node prihex actor_id amt ≡ got cid
        → (s : SignedMessage A) × (node.push s ≡ got cid)
          × (generate_addr_by_hex_pri keys prihex ≡ got s.message.from)
          × (s.message.to ≡ s.message.from)
          × (s.message.method ≡ node.withdraw_balance)
    unfolding with_draw_by_privat_key
    with_draw-own actor_id amt cid h =
        let (addr, ea, h1) = bind_got (generate_addr_by_hex_pri keys prihex) _ h in
        let (val, ev, h2) = bind_got (node.parse_fil amt) _ h1 in
        let (params, ep, h3) = bind_got (node.serialize_amount val) _ h2 in
        let (n, en, h4) = bind_got (check_nonce (node.nonces addr)) _ h3 in
        let (s, p) = send-IsPushed (message_of addr addr 0 node.withdraw_balance n params) cid h4 in
        (
          s,
          p.taken,
          ea ∙ ap got (sym p.priced.from_same),
          p.priced.to_same ∙ sym p.priced.from_same,
          p.priced.method_same,
        )
