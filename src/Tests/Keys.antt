-- ===== src/Tests/Keys.antt =====
-- Tests of the keys, and their properties at concrete inputs: an address is a key's public half behind
-- a byte for its type, which is the private key itself, and a text of bytes is in strokes.
use Prim.Native.String.{String}
use Prim.Native.Char.{code}
use filecoin_sealer.Prelude.{
  ℕ, zero, suc, ◌+◌, ◌==◌, subst, ◌∙◌, got_injective, ◌≡◌, refl, sym, ap, List, [], ◌∷◌, Bool, true,
  false, ◌&&◌, if◌then◌else◌, Called, got, lost, arith,
}
use filecoin_sealer.Keys.{
  KeyType, kt_bls, kt_secp256k1, other_type, SigType, sig_bls, sig_secp256k1, sig_unknown, KeyInfo,
  Signature, KeyLib, act_sig_type, address_of, new_key, generate_key_by_hex_string, generate_key,
  generate_pri_key_hex, generate_addr_by_hex_pri, sign_msg, sign_msg_by_hex_pri, verify_msg,
  verify_msg_by_addr, AddressInfo, generate_address,
}
use filecoin_sealer.Keys.Signs.{IsSound, sign-verify, generate_address-Signs}

abbrev strokes : ℕ → String → String
strokes zero s = String.◌∷◌ "," s
strokes (suc n) s = String.◌∷◌ "1" (strokes n s)

abbrev encode : List ℕ → String
encode [] = ""
encode (b ∷ bs) = strokes b (encode bs)

pub decode : ℕ → String → List ℕ
decode n String.[] = []
decode n (String.◌∷◌ c s) = elim (code c == b'1') [
  | true ↦ decode (suc n) s
  | false ↦ n ∷ decode 0 s
]

decode-strokes :
    (b n : ℕ) (bs : List ℕ) → decode n (strokes b (encode bs)) ≡ (n + b) ∷ decode 0 (encode bs)
unfolding decode
decode-strokes zero n bs = ap (λ k. k ∷ decode 0 (encode bs)) (omega arith)
decode-strokes (suc b) n bs =
    decode-strokes b (suc n) bs ∙ ap (λ k. k ∷ decode 0 (encode bs)) (omega arith)

decode-encode : (bs : List ℕ) → decode 0 (encode bs) ≡ bs
unfolding decode
decode-encode [] = refl
decode-encode (b ∷ bs) =
    decode-strokes b 0 bs
    ∙ (ap (λ k. k ∷ decode 0 (encode bs)) (omega arith) ∙ ap (λ k. b ∷ k) (decode-encode bs))

abbrev same_bytes : List ℕ → List ℕ → Bool
same_bytes [] [] = true
same_bytes (x ∷ xs) (y ∷ ys) = x == y && same_bytes xs ys
same_bytes _ _ = false

same_bytes_refl : (xs : List ℕ) → same_bytes xs xs ≡ true
same_bytes_refl [] = refl
same_bytes_refl (x ∷ xs) = ground (arith, same_bytes_refl xs)

abbrev tagged : KeyType → ℕ
tagged kt_bls = 3
tagged kt_secp256k1 = 1
tagged (other_type t) = 0

abbrev key_bytes : KeyInfo → KeyType → Called (List ℕ)
key_bytes k (other_type t) = lost "type"
key_bytes k t = got (tagged t ∷ k.private_key)

abbrev key_from : List ℕ → Called KeyInfo
key_from [] = lost "EOF"
key_from (t ∷ bs) =
    if t == 3
    then got (record { key_type = kt_bls; private_key = bs })
    else if t == 1
    then got (record { key_type = kt_secp256k1; private_key = bs })
    else lost "type"

abbrev public_half : SigType → List ℕ → Called (List ℕ)
public_half sig_unknown sk = lost "type"
public_half t sk = got sk

abbrev checks : Signature → List ℕ → List ℕ → Called (Unit {0})
checks s [] msg = lost "address"
checks s (t ∷ pk) msg = if same_bytes s.bytes pk then got tt else lost "signature"

abbrev sig_bytes : Signature → SigType → Called (List ℕ)
sig_bytes s sig_unknown = lost "type"
sig_bytes s sig_bls = got (2 ∷ s.bytes)
sig_bytes s sig_secp256k1 = got (1 ∷ s.bytes)

abbrev sig_from : List ℕ → Called Signature
sig_from [] = lost "EOF"
sig_from (t ∷ bs) =
    if t == 2
    then got (record { sig_type = sig_bls; bytes = bs })
    else if t == 1
    then got (record { sig_type = sig_secp256k1; bytes = bs })
    else lost "type"

abbrev pub plain_keys : KeyLib (List ℕ)
plain_keys = record {
  decode_hex = λ s. got (decode 0 s);
  encode_hex = encode;
  unmarshal_key = key_from;
  marshal_key = λ k. key_bytes k k.key_type;
  to_public = public_half;
  new_secp256k1_address = λ pk. got (1 ∷ pk);
  new_bls_address = λ pk. got (3 ∷ pk);
  sign = λ t sk msg. got (record { sig_type = t; bytes = sk });
  verify = checks;
  marshal_sig = λ s. sig_bytes s s.sig_type;
  unmarshal_sig = sig_from;
  address_text = encode;
  new_from_string = λ s. got (decode 0 s);
}

key_bytes-read :
    (sk : List ℕ) (t : KeyType) (bs : List ℕ)
    → key_bytes (record { key_type = t; private_key = sk }) t ≡ got bs
    → key_from bs ≡ got (record { key_type = t; private_key = sk })
key_bytes-read sk kt_bls bs h =
    subst (λ x. key_from x ≡ got (record { key_type = kt_bls; private_key = sk })) (got_injective h)
      refl
key_bytes-read sk kt_secp256k1 bs h =
    subst (λ x. key_from x ≡ got (record { key_type = kt_secp256k1; private_key = sk }))
      (got_injective h) refl
key_bytes-read sk (other_type t) bs h = cc

sig_bytes-read :
    (d : List ℕ) (t : SigType) (bs : List ℕ)
    → sig_bytes (record { sig_type = t; bytes = d }) t ≡ got bs
    → sig_from bs ≡ got (record { sig_type = t; bytes = d })
sig_bytes-read d sig_bls bs h =
    subst (λ x. sig_from x ≡ got (record { sig_type = sig_bls; bytes = d })) (got_injective h) refl
sig_bytes-read d sig_secp256k1 bs h =
    subst (λ x. sig_from x ≡ got (record { sig_type = sig_secp256k1; bytes = d })) (got_injective h)
      refl
sig_bytes-read d sig_unknown bs h = cc

good_bytes :
    (s : Signature) (t : ℕ) (pk msg a : List ℕ)
    → s.bytes ≡ pk
    → t ∷ pk ≡ a
    → checks s a msg ≡ got tt
good_bytes s t pk msg a e ea =
    subst (λ x. checks s x msg ≡ got tt) ea
      (rw (subst (λ x. same_bytes s.bytes x ≡ true) e (same_bytes_refl s.bytes)) refl)

own_sig :
    (t : KeyType) (sk pk msg a : List ℕ) (s : Signature)
    → public_half (act_sig_type t) sk ≡ got pk
    → address_of plain_keys t pk ≡ got a
    → ◌≡◌ {A = Called Signature} (got (record { sig_type = act_sig_type t; bytes = sk })) (got s)
    → checks s a msg ≡ got tt
unfolding act_sig_type
own_sig kt_bls sk pk msg a s hp ha hs =
    good_bytes s 3 pk msg a (sym (ap (λ x. x.bytes) (got_injective hs)) ∙ got_injective hp)
      (got_injective ha)
own_sig kt_secp256k1 sk pk msg a s hp ha hs =
    good_bytes s 1 pk msg a (sym (ap (λ x. x.bytes) (got_injective hs)) ∙ got_injective hp)
      (got_injective ha)
own_sig (other_type t) sk pk msg a s hp ha hs = cc

pub plain-IsSound : IsSound plain_keys
plain-IsSound = record {
  hex_read = λ bs. ap got (decode-encode bs);
  key_read = λ k bs h. key_bytes-read k.private_key k.key_type bs h;
  sig_read = λ s bs h. sig_bytes-read s.bytes s.sig_type bs h;
  address_read = λ a. ap got (decode-encode a);
  sig_good = own_sig;
}

-- The text of the BLS key 5, 7, of its address, and of a message.
abbrev pub pri : String
pri = encode (3 ∷ 5 ∷ 7 ∷ [])

abbrev signed_text : Called String
signed_text = sign_msg_by_hex_pri plain_keys pri (encode (9 ∷ []))

unfoldable pub keys_ready : Unit {0}
unfolding decode act_sig_type new_key generate_key_by_hex_string generate_key generate_pri_key_hex
    generate_addr_by_hex_pri sign_msg sign_msg_by_hex_pri verify_msg verify_msg_by_addr
    generate_address
keys_ready = tt

signs : signed_text ≡ got (encode (2 ∷ 5 ∷ 7 ∷ []))
unfolding keys_ready
signs = refl

pub has_address : generate_addr_by_hex_pri plain_keys pri ≡ got (3 ∷ 5 ∷ 7 ∷ [])
unfolding keys_ready
has_address = refl

sign-verify_example :
    verify_msg_by_addr plain_keys
      (encode (3 ∷ 5 ∷ 7 ∷ []))
      (encode (9 ∷ []))
      (encode (2 ∷ 5 ∷ 7 ∷ []))
    ≡ got tt
sign-verify_example =
    sign-verify plain_keys plain-IsSound pri (encode (9 ∷ [])) (encode (2 ∷ 5 ∷ 7 ∷ []))
      (3 ∷ 5 ∷ 7 ∷ []) has_address signs

-- A key that is generated, and its address.
abbrev drawn_key : SigType → Called (List ℕ)
drawn_key t = got (5 ∷ 7 ∷ [])

generates : generate_pri_key_hex plain_keys drawn_key kt_bls ≡ got pri
unfolding keys_ready
generates = refl

abbrev address_row : AddressInfo
address_row = record { private_key = pri; address = encode (3 ∷ 5 ∷ 7 ∷ []) }

creates :
    generate_address plain_keys drawn_key (λ row. got tt) kt_bls
    ≡ got (address_row, address_row.address)
unfolding keys_ready
creates = refl

generate_address-Signs_example :
    (address_row.address ≡ encode (3 ∷ 5 ∷ 7 ∷ []))
    × ◌≡◌ {A = Called (Unit {0})} (got tt) (got tt)
    × (verify_msg_by_addr plain_keys address_row.address (encode (9 ∷ [])) (encode (2 ∷ 5 ∷ 7 ∷ []))
        ≡ got tt)
generate_address-Signs_example =
    generate_address-Signs plain_keys plain-IsSound drawn_key (λ row. got tt) kt_bls address_row
      address_row.address (encode (9 ∷ [])) (encode (2 ∷ 5 ∷ 7 ∷ [])) creates signs
