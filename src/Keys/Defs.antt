-- ===== src/Keys/Defs.antt =====
-- util/types.go: keys from and to the text of a private key, and the signing of texts; miner/address.go:
-- GenerateAddress.
use filecoin_sealer.Prelude.{String, List, ℕ, Called, got, lost, ◌>>=◌, ◌>>◌}

-- `NsKeyType`, a text in the source.
pub data KeyType : Type 0 where
  kt_bls kt_secp256k1 : KeyType
  other_type : String → KeyType

-- `NsSigType`
pub data SigType : Type 0 where
  sig_bls sig_secp256k1 sig_unknown : SigType

-- `NsKeyInfo`
pub record KeyInfo : Type 0 where
  pub key_type : KeyType
  pub private_key : List ℕ

-- `NsSignature`
pub record Signature : Type 0 where
  pub sig_type : SigType
  pub bytes : List ℕ

pub record Key (A : Type 0) : Type 0 where
  pub key_info : KeyInfo
  pub public_key : List ℕ
  pub address : A

-- The libraries: hexadecimal text, JSON, the signatures and the addresses `A` of the chain.
pub record KeyLib (A : Type 0) : Type 0 where
  pub decode_hex : String → Called (List ℕ)
  pub encode_hex : List ℕ → String
  pub unmarshal_key : List ℕ → Called KeyInfo
  pub marshal_key : KeyInfo → Called (List ℕ)
  pub to_public : SigType → List ℕ → Called (List ℕ)
  pub new_secp256k1_address : List ℕ → Called A
  pub new_bls_address : List ℕ → Called A
  pub sign : SigType → List ℕ → List ℕ → Called Signature
  pub verify : Signature → A → List ℕ → Called (Unit {0})
  pub marshal_sig : Signature → Called (List ℕ)
  pub unmarshal_sig : List ℕ → Called Signature
  pub address_text : A → String
  pub new_from_string : String → Called A

unfoldable pub act_sig_type : KeyType → SigType
act_sig_type kt_bls = sig_bls
act_sig_type kt_secp256k1 = sig_secp256k1
act_sig_type (other_type t) = sig_unknown

module _ {A : Type 0} (lib : KeyLib A) where
  -- `switch k.Type`
  abbrev pub address_of : KeyType → List ℕ → Called A
  address_of kt_secp256k1 pk = lib.new_secp256k1_address pk
  address_of kt_bls pk = lib.new_bls_address pk
  address_of (other_type t) pk = lost "unsupported key type"

  unfoldable pub new_key : KeyInfo → Called (Key A)
  new_key info = do
    pk ← lib.to_public (act_sig_type info.key_type) info.private_key
    addr ← address_of info.key_type pk
    got (record { key_info = info; public_key = pk; address = addr })

  unfoldable pub generate_key_by_hex_string : String → Called (Key A)
  generate_key_by_hex_string pkstr = do
    pk ← lib.decode_hex pkstr
    info ← lib.unmarshal_key pk
    new_key info

  -- `sigs.Generate` of a type of signature, or an error where there is none.
  abbrev pub generated : (SigType → Called (List ℕ)) → KeyType → SigType → Called KeyInfo
  generated generate t sig_unknown = lost "unknown sig type"
  generated generate t s = do pk ← generate s; got (record { key_type = t; private_key = pk })

  unfoldable pub generate_key : (SigType → Called (List ℕ)) → KeyType → Called (Key A)
  generate_key generate t = generated generate t (act_sig_type t) >>= new_key

  unfoldable pub generate_pri_key_hex : (SigType → Called (List ℕ)) → KeyType → Called String
  generate_pri_key_hex generate t = do
    info ← generated generate t (act_sig_type t)
    kbs ← lib.marshal_key info
    got (lib.encode_hex kbs)

  unfoldable pub generate_addr_by_hex_pri : String → Called A
  generate_addr_by_hex_pri prihex = do key ← generate_key_by_hex_string prihex; got key.address

  unfoldable pub sign_msg : KeyInfo → List ℕ → Called Signature
  sign_msg info msg = lib.sign (act_sig_type info.key_type) info.private_key msg

  unfoldable pub sign_msg_by_hex_pri : String → String → Called String
  sign_msg_by_hex_pri prihex msghex = do
    msg ← lib.decode_hex msghex
    key ← generate_key_by_hex_string prihex
    signature ← sign_msg key.key_info msg
    bytes ← lib.marshal_sig signature
    got (lib.encode_hex bytes)

  unfoldable pub verify_msg : Signature → A → List ℕ → Called (Unit {0})
  verify_msg signature addr msg = lib.verify signature addr msg

  unfoldable pub verify_msg_by_addr : String → String → String → Called (Unit {0})
  verify_msg_by_addr addrstr msghex sighex = do
    addr ← lib.new_from_string addrstr
    msg ← lib.decode_hex msghex
    bytes ← lib.decode_hex sighex
    signature ← lib.unmarshal_sig bytes
    verify_msg signature addr msg

-- `DbAddressInfo`
pub record AddressInfo : Type 0 where
  pub private_key : String
  pub address : String

module _ {A : Type 0} (lib : KeyLib A) where
  -- GenerateAddress: the row that is created, and the answer.
  unfoldable pub generate_address :
      (SigType → Called (List ℕ))
      → (AddressInfo → Called (Unit {0}))
      → KeyType
      → Called (AddressInfo × String)
  generate_address generate create t = do
    pri ← generate_pri_key_hex lib generate t
    addr ← generate_addr_by_hex_pri lib pri
    let info : AddressInfo = record { private_key = pri; address = lib.address_text addr }
    create info
    got (info, lib.address_text addr)
