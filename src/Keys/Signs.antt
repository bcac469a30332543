-- ===== src/Keys/Signs.antt =====
-- util/types.go and miner/address.go: the texts of a key, of its address and of its signatures fit
-- together.
use filecoin_sealer.Prelude.{
  ◌≡◌, refl, sym, ap, ◌∙◌, subst, String, List, ℕ, Called, got, bind_got, got_injective,
}
use filecoin_sealer.Keys.Defs.{
  KeyType, SigType, KeyInfo, Signature, Key, KeyLib, act_sig_type, address_of, new_key,
  generate_key_by_hex_string, generated, generate_key, generate_pri_key_hex,
  generate_addr_by_hex_pri, sign_msg, sign_msg_by_hex_pri, verify_msg, verify_msg_by_addr,
  AddressInfo, generate_address,
}

-- What the program relies on of the libraries: what is written is read again, and a signature is
-- good for the address of its key's public half.
pub record IsSound {A : Type 0} (lib : KeyLib A) : Type 0 where
  pub hex_read : (bs : List ℕ) → lib.decode_hex (lib.encode_hex bs) ≡ got bs
  pub key_read :
      (k : KeyInfo) (bs : List ℕ) → lib.marshal_key k ≡ got bs → lib.unmarshal_key bs ≡ got k
  pub sig_read :
      (s : Signature) (bs : List ℕ) → lib.marshal_sig s ≡ got bs → lib.unmarshal_sig bs ≡ got s
  pub address_read : (a : A) → lib.new_from_string (lib.address_text a) ≡ got a
  pub sig_good :
      (t : KeyType) (sk pk msg : List ℕ) (a : A) (s : Signature)
      → lib.to_public (act_sig_type t) sk ≡ got pk
      → address_of lib t pk ≡ got a
      → lib.sign (act_sig_type t) sk msg ≡ got s
      → lib.verify s a msg ≡ got tt

module _ {A : Type 0} (lib : KeyLib A) where
  -- The parts of a key are its own.
  pub record IsKey (k : Key A) : Type 0 where
    pub public_is :
        lib.to_public (act_sig_type k.key_info.key_type) k.key_info.private_key ≡ got k.public_key
    pub address_is : address_of lib k.key_info.key_type k.public_key ≡ got k.address

  new_key-IsKey : (info : KeyInfo) (k : Key A) → new_key lib info ≡ got k → IsKey k
  unfolding new_key
  new_key-IsKey info k h =
      let (pk, e, h1) =
        bind_got (lib.to_public (act_sig_type info.key_type) info.private_key) _ h in
      let (addr, e1, h2) = bind_got (address_of lib info.key_type pk) _ h1 in
      subst IsKey (got_injective h2) (record { public_is = e; address_is = e1 })

  pub by_hex-IsKey :
      (pri : String) (k : Key A) → generate_key_by_hex_string lib pri ≡ got k → IsKey k
  unfolding generate_key_by_hex_string
  by_hex-IsKey pri k h =
      let (bs, e, h1) = bind_got (lib.decode_hex pri) _ h in
      let (info, e1, h2) = bind_got (lib.unmarshal_key bs) _ h1 in new_key-IsKey info k h2

  -- A signature by a key is good for the key's address.
  pub sign_msg-verifies :
      IsSound lib
      → (k : Key A) (msg : List ℕ) (s : Signature) → IsKey k
      → sign_msg lib k.key_info msg ≡ got s
      → verify_msg lib s k.address msg ≡ got tt
  unfolding sign_msg verify_msg
  sign_msg-verifies sound k msg s key h =
      sound.sig_good k.key_info.key_type k.key_info.private_key k.public_key msg k.address s
        key.public_is key.address_is h

  module _ (sound : IsSound lib) where
    -- What SignMsgByHexPri answers for a private key and a text, VerifyMsgByAddr accepts for that text
    -- and the address that GenerateAddrByHexPri answers for the key.
    pub sign-verify :
        (pri msghex sighex : String) (a : A)
        → generate_addr_by_hex_pri lib pri ≡ got a
        → sign_msg_by_hex_pri lib pri msghex ≡ got sighex
        → verify_msg_by_addr lib (lib.address_text a) msghex sighex ≡ got tt
    unfolding generate_addr_by_hex_pri sign_msg_by_hex_pri verify_msg_by_addr
    sign-verify pri msghex sighex a ha hs =
        let (k, ek, a1) = bind_got (generate_key_by_hex_string lib pri) _ ha in
        let (msg, em, s1) = bind_got (lib.decode_hex msghex) _ hs in
        let (k', ek', s2) = bind_got (generate_key_by_hex_string lib pri) _ s1 in
        let (sig, es, s3) = bind_got (sign_msg lib k'.key_info msg) _ s2 in
        let (bs, eb, s4) = bind_got (lib.marshal_sig sig) _ s3 in
        let same : k' ≡ k = got_injective (sym ek' ∙ ek) in
        let good = sign_msg-verifies sound k' msg sig (by_hex-IsKey pri k' ek') es in
        let at : k'.address ≡ a = ap (λ x. x.address) same ∙ got_injective a1 in
        let text : lib.encode_hex bs ≡ sighex = got_injective s4 in
        rw (sound.address_read a, em, sym text, sound.hex_read bs, sound.sig_read sig bs eb)
          (subst (λ x. verify_msg lib sig x msg ≡ got tt) at good)

    -- The text of a generated private key is read as the key that was generated.
    pub pri_key_hex-read :
        (generate : SigType → Called (List ℕ)) (t : KeyType) (pri : String)
        → generate_pri_key_hex lib generate t ≡ got pri
        → generate_key_by_hex_string lib pri ≡ generate_key lib generate t
    unfolding generate_pri_key_hex generate_key_by_hex_string generate_key
    pri_key_hex-read generate t pri h =
        let (info, ei, h1) = bind_got (generated lib generate t (act_sig_type t)) _ h in
        let (bs, eb, h2) = bind_got (lib.marshal_key info) _ h1 in
        rw (sym (got_injective h2), sound.hex_read bs, sound.key_read info bs eb, ei) refl

    -- The row that GenerateAddress creates holds the text of a private key whose signatures are good for
    -- the address in the row, which is the answer.
    pub generate_address-Signs :
        (generate : SigType → Called (List ℕ)) (create : AddressInfo → Called (Unit {0}))
        (t : KeyType) (info : AddressInfo) (text msghex sighex : String)
        → generate_address lib generate create t ≡ got (info, text)
        → sign_msg_by_hex_pri lib info.private_key msghex ≡ got sighex
        → (info.address ≡ text)
          × (create info ≡ got tt)
          × (verify_msg_by_addr lib text msghex sighex ≡ got tt)
    unfolding generate_address
    generate_address-Signs generate create t info text msghex sighex h hs =
        let (pri, _, h1) = bind_got (generate_pri_key_hex lib generate t) _ h in
        let (addr, ea, h2) = bind_got (generate_addr_by_hex_pri lib pri) _ h1 in
        let (_, ec, h3) =
          bind_got (create (record { private_key = pri; address = lib.address_text addr })) _ h2 in
        let same = got_injective h3 in
        let key : pri ≡ info.private_key = ap (λ x. x.0.private_key) same in
        (
          sym (ap (λ x. x.0.address) same) ∙ ap (λ x. x.1) same,
          subst (λ x. create x ≡ got tt) (ap (λ x. x.0) same) ec,
          subst (λ x. verify_msg_by_addr lib x msghex sighex ≡ got tt) (ap (λ x. x.1) same)
              (sign-verify pri msghex sighex addr ea
                (subst (λ x. sign_msg_by_hex_pri lib x msghex ≡ got sighex) (sym key) hs)),
        )
