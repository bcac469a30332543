-- ===== src/Miner/Transfer.antt =====
-- miner/sendmsgbypri.go: sendMsgByPrivatKey without a callback, and the messages that are not of a
-- sector: WithDrawByPrivatKey, TxByPrivatKey, CreateMiner and CreateMinerWithOutToken.
use filecoin_sealer.Prelude.{
  ℕ, String, List, [], ℤ, ◌≡◌, refl, sym, ap, ◌∙◌, Called, got, lost, ◌>>=◌, ◌>>◌, bind_got,
  got_injective,
}
use filecoin_sealer.Keys.{KeyLib, generate_key_by_hex_string, generate_addr_by_hex_pri, verify_msg}
use filecoin_sealer.Keys.Signs.{IsSound}
use filecoin_sealer.Keys.Messages.{
  NsMessage, SignedMessage, MessageLib, message_of, generate_util_sig_msg,
  generate_create_miner_sig_msg, generate_create_miner_sig_msg_by_address, SignedBy,
  generate_util_sig_msg-SignedBy,
}
use filecoin_sealer.Window.Message.{NonceCalls, check_nonce, or_else}
pub mod Sent

-- The chain's node: the head, the gas of a message, the pool, which answers the CID of a message, and
-- the nonces of an address; and the texts of amounts.
pub record Node (A : Type 0) : Type 0 where
  pub head : Called (Unit {0})
  pub estimate : NsMessage A → Called (NsMessage A)
  pub push : SignedMessage A → Called String
  pub nonces : A → NonceCalls
  pub parse_fil : String → Called ℕ
  -- `WithdrawBalanceParams`, encoded
  pub serialize_amount : ℕ → Called (List ℕ)
  pub withdraw_balance : ℕ

module _ {A : Type 0} (keys : KeyLib A) (lib : MessageLib A) (node : Node A) where
  unfoldable pub send_msg_by_privat_key : String → NsMessage A → Called String
  send_msg_by_privat_key prihex msg = do
    node.head
    priced ← node.estimate msg
    signed ← generate_util_sig_msg keys lib prihex priced
    node.push signed

  -- The actor that is to be drawn from is not read.
  unfoldable pub with_draw_by_privat_key : String → ℕ → String → Called String
  with_draw_by_privat_key prihex actor_id amtstr = do
    addr ← generate_addr_by_hex_pri keys prihex
    amt ← node.parse_fil amtstr
    params ← node.serialize_amount amt
    nonce ← check_nonce (node.nonces addr)
    send_msg_by_privat_key prihex (message_of addr addr 0 node.withdraw_balance nonce params)

  unfoldable pub tx_by_privat_key : String → String → String → Called String
  tx_by_privat_key prihex to amt = do
    addr ← generate_addr_by_hex_pri keys prihex
    to_addr ← keys.new_from_string to
    val ← node.parse_fil amt
    nonce ← check_nonce (node.nonces addr)
    send_msg_by_privat_key prihex (message_of to_addr addr val 0 nonce [])

  unfoldable pub create_miner : String → String → String → ℤ → Called String
  create_miner prihex owner worker seal_proof_type = do
    addr ← keys.new_from_string owner
    nonce ← check_nonce (node.nonces addr)
    signed ←
        generate_create_miner_sig_msg keys lib node.estimate prihex owner worker seal_proof_type
          nonce
    node.push signed

  -- The nonce is the worker's, though the message is sent from the owner.
  unfoldable pub create_miner_with_out_token : String → String → String → ℤ → Called String
  create_miner_with_out_token prihex owner worker seal_proof_type = do
    node.head
    addrowner ← keys.new_from_string owner
    addrworker ← keys.new_from_string worker
    nonce ← or_else (node.nonces addrworker).pool_nonce (node.nonces addrworker).actor_nonce
    signed ←
        generate_create_miner_sig_msg_by_address keys lib prihex addrowner addrworker
          seal_proof_type nonce
    node.push signed
