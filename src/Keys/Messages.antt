-- ===== src/Keys/Messages.antt =====
-- util/types.go: messages signed by a private key, and the message that creates a miner.
use filecoin_sealer.Prelude.{
  ℕ, ◌+◌, ◌%◌, ◌≡◌, refl, subst, String, List, ℤ, pos, Called, got, ◌>>=◌, ◌>>◌, bind_got,
  got_injective,
}
use filecoin_sealer.Keys.Defs.{
  Key, KeyLib, Signature, generate_key_by_hex_string, sign_msg, verify_msg,
}
use filecoin_sealer.Keys.Signs.{IsSound, by_hex-IsKey, sign_msg-verifies}

-- `NsMessage`; `A` is the type of addresses.
pub record NsMessage (A : Type 0) : Type 0 where
  pub to : A
  pub from : A
  pub value : ℕ
  pub method : ℕ
  pub nonce : ℕ
  pub params : List ℕ
  pub gas_limit : ℤ
  pub gas_fee_cap : ℕ
  pub gas_premium : ℕ

-- `NsSignedMessage`
pub record SignedMessage (A : Type 0) : Type 0 where
  pub message : NsMessage A
  pub signature : Signature

-- `CreateMinerParams`
pub record MinerParams (A : Type 0) : Type 0 where
  pub owner : A
  pub worker : A
  pub seal_proof_type : ℤ
  pub peer : List ℕ

-- The libraries: the bytes of a message's CID, the constants of the network, the power actor's
-- address, the encoding of the parameters, and the key and the ID of a new peer.
pub record MessageLib (A : Type 0) : Type 0 where
  pub cid : NsMessage A → List ℕ
  pub block_gas_limit : ℤ
  pub minimum_base_fee : ℕ
  pub power_actor : A
  pub serialize : MinerParams A → Called (List ℕ)
  pub peer_key : Called (Unit {0})
  pub peer_id : Called (List ℕ)

-- A message of a method, with no gas yet.
abbrev pub message_of : {A : Type 0} → A → A → ℕ → ℕ → ℕ → List ℕ → NsMessage A
message_of to from value method nonce params = record {
  to = to;
  from = from;
  value = value;
  method = method;
  nonce = nonce;
  params = params;
  gas_limit = pos 0;
  gas_fee_cap = 0;
  gas_premium = 0;
}

module _ {A : Type 0} (keys : KeyLib A) (lib : MessageLib A) where
  unfoldable pub generate_util_sig_msg : String → NsMessage A → Called (SignedMessage A)
  generate_util_sig_msg prihex msg = do
    key ← generate_key_by_hex_string keys prihex
    signature ← sign_msg keys key.key_info (lib.cid msg)
    got (record { message = msg; signature = signature })

  -- `uint64(build.MinimumBaseFee) + 1`
  unfoldable pub default_fee : NsMessage A → NsMessage A
  default_fee msg = record msg {
    gas_limit = lib.block_gas_limit;
    gas_fee_cap = (lib.minimum_base_fee + 1) % 18446744073709551616;
    gas_premium = 1;
  }

  unfoldable pub generate_util_sig_msg_with_default_fee :
      String → NsMessage A → Called (SignedMessage A)
  unfolding default_fee
  generate_util_sig_msg_with_default_fee prihex msg = generate_util_sig_msg prihex (default_fee msg)

  -- The message to the power actor, whose sender is the owner.
  abbrev pub miner_message : A → A → ℤ → ℕ → Called (NsMessage A)
  miner_message owner worker seal_proof_type nonce = do
    lib.peer_key
    peer ← lib.peer_id
    params ←
        lib.serialize (record {
          owner = owner;
          worker = worker;
          seal_proof_type = seal_proof_type;
          peer = peer;
        })
    got (message_of lib.power_actor owner 0 2 nonce params)

  unfoldable pub generate_create_miner_msg : String → String → ℤ → ℕ → Called (NsMessage A)
  generate_create_miner_msg owner worker seal_proof_type nonce = do
    addrowner ← keys.new_from_string owner
    addrworker ← keys.new_from_string worker
    miner_message addrowner addrworker seal_proof_type nonce

  unfoldable pub generate_create_miner_sig_msg :
      (NsMessage A → Called (NsMessage A))
      → String
      → String
      → String
      → ℤ
      → ℕ
      → Called (SignedMessage A)
  generate_create_miner_sig_msg estimate prihex owner worker seal_proof_type nonce = do
    addrowner ← keys.new_from_string owner
    addrworker ← keys.new_from_string worker
    msg ← miner_message addrowner addrworker seal_proof_type nonce
    priced ← estimate msg
    generate_util_sig_msg prihex priced

  unfoldable pub generate_create_miner_sig_msg_with_default_fee :
      String → String → String → ℤ → ℕ → Called (SignedMessage A)
  generate_create_miner_sig_msg_with_default_fee prihex owner worker seal_proof_type nonce = do
    addrowner ← keys.new_from_string owner
    addrworker ← keys.new_from_string worker
    msg ← miner_message addrowner addrworker seal_proof_type nonce
    generate_util_sig_msg_with_default_fee prihex msg

  unfoldable pub generate_create_miner_sig_msg_by_address :
      String → A → A → ℤ → ℕ → Called (SignedMessage A)
  generate_create_miner_sig_msg_by_address prihex addrowner addrworker seal_proof_type nonce = do
    msg ← miner_message addrowner addrworker seal_proof_type nonce
    generate_util_sig_msg_with_default_fee prihex msg

  -- A message signed by the key of a text: the message, and that its signature is good for the key's
  -- address.
  pub record SignedBy (prihex : String) (msg : NsMessage A) (s : SignedMessage A) : Type 0 where
    pub key : Key A
    pub read : generate_key_by_hex_string keys prihex ≡ got key
    pub message_is : s.message ≡ msg
    pub good : verify_msg keys s.signature key.address (lib.cid s.message) ≡ got tt

  pub generate_util_sig_msg-SignedBy :
      IsSound keys
      → (prihex : String) (msg : NsMessage A) (s : SignedMessage A)
      → generate_util_sig_msg prihex msg ≡ got s
      → SignedBy prihex msg s
  unfolding generate_util_sig_msg
  generate_util_sig_msg-SignedBy sound prihex msg s h =
      let (k, ek, h1) = bind_got (generate_key_by_hex_string keys prihex) _ h in
      let (sig, es, h2) = bind_got (sign_msg keys k.key_info (lib.cid msg)) _ h1 in
      subst (SignedBy prihex msg) (got_injective h2) (record {
        key = k;
        read = ek;
        message_is = refl;
        good = sign_msg-verifies keys sound k (lib.cid msg) sig (by_hex-IsKey keys prihex k ek) es;
      })
