-- ===== src/Tests/Transfer.antt =====
-- Tests of the messages that are not of a sector, and their properties at concrete inputs.
use filecoin_sealer.Prelude.{
  ◌≡◌, refl, subst, got_injective, ℕ, String, [], ◌∷◌, List, pos, got, lost,
}
use filecoin_sealer.Keys.{generate_addr_by_hex_pri, verify_msg}
use filecoin_sealer.Keys.Messages.{
  SignedMessage, MessageLib, generate_util_sig_msg, default_fee,
  generate_util_sig_msg_with_default_fee, generate_create_miner_sig_msg,
  generate_create_miner_sig_msg_by_address,
}
use filecoin_sealer.Window.Message.{check_nonce}
use filecoin_sealer.Miner.Transfer.{
  Node, send_msg_by_privat_key, with_draw_by_privat_key, tx_by_privat_key, create_miner,
  create_miner_with_out_token,
}
use filecoin_sealer.Miner.Transfer.Sent.{PricesOnly, IsPriced, tx_by_privat_key-Pays}
use filecoin_sealer.Tests.Keys.{plain_keys, plain-IsSound, pri, keys_ready}

ready : Unit {0}
unfolding check_nonce generate_util_sig_msg default_fee generate_util_sig_msg_with_default_fee
    generate_create_miner_sig_msg generate_create_miner_sig_msg_by_address send_msg_by_privat_key
    with_draw_by_privat_key tx_by_privat_key create_miner create_miner_with_out_token
ready = tt

abbrev messages : MessageLib (List ℕ)
messages = record {
  cid = λ m. m.nonce ∷ m.params;
  block_gas_limit = pos 10000000000;
  minimum_base_fee = 100;
  power_actor = 0 ∷ 4 ∷ [];
  serialize = λ p. got p.owner;
  peer_key = got tt;
  peer_id = got (8 ∷ []);
}

-- The pool does not know the key, and the state has its nonce.
abbrev node : Node (List ℕ)
node = record {
  head = got tt;
  estimate = λ m. got (record m { gas_limit = pos 500; gas_fee_cap = 101; gas_premium = 1 });
  push = λ s. got "bafy";
  nonces = λ a. record { head = got tt; pool_nonce = lost "unknown"; actor_nonce = got 6 };
  parse_fil = λ s. got 20;
  serialize_amount = λ n. got (n ∷ []);
  withdraw_balance = 16;
}

prices : PricesOnly plain_keys messages node
prices msg priced h = subst (IsPriced plain_keys messages node msg) (got_injective h) (record {
  to_same = refl;
  from_same = refl;
  value_same = refl;
  method_same = refl;
  nonce_same = refl;
})

abbrev receiver : String
receiver = plain_keys.address_text (1 ∷ 2 ∷ [])

transfers : tx_by_privat_key plain_keys messages node pri receiver "20" ≡ got "bafy"
unfolding keys_ready ready
transfers = refl

tx_by_privat_key-Pays_example :
    (s : SignedMessage (List ℕ)) × (node.push s ≡ got "bafy")
    × (plain_keys.new_from_string receiver ≡ got s.message.to)
    × (node.parse_fil "20" ≡ got s.message.value)
    × (generate_addr_by_hex_pri plain_keys pri ≡ got s.message.from)
    × (check_nonce (node.nonces s.message.from) ≡ got s.message.nonce)
    × (verify_msg plain_keys s.signature s.message.from (messages.cid s.message) ≡ got tt)
tx_by_privat_key-Pays_example =
    tx_by_privat_key-Pays plain_keys messages node plain-IsSound prices pri receiver "20" "bafy"
      transfers

withdraws : with_draw_by_privat_key plain_keys messages node pri 1000 "20" ≡ got "bafy"
unfolding keys_ready ready
withdraws = refl

creates_miner : create_miner plain_keys messages node pri receiver receiver (pos 8) ≡ got "bafy"
unfolding keys_ready ready
creates_miner = refl

creates_without_token :
    create_miner_with_out_token plain_keys messages node pri receiver receiver (pos 8) ≡ got "bafy"
unfolding keys_ready ready
creates_without_token = refl
