-- ===== src/Crypto/Keys.antt =====
-- go/internal/crypto/pqc/keys.go: key pairs for encryption and signatures. The JSON
-- of a key pair's record is a parameter (Records); times are milliseconds.
use knirvbase.Base.{◌≡◌, String, Bool, false, not, ◌&&◌, Option, none, some, List, [], ◌∷◌, ◌==◌}
use knirvbase.Base.Int.{ℤ, ltb_ℤ}
use knirvbase.Result.{Result, ok, err, wrap, ◌>>=◌}
use knirvbase.Crypto.{Primitives}
use knirvbase.Crypto.Kyber
use knirvbase.Crypto.Kyber.{
  generate_kyber_key_pair, kyber_encrypt, kyber_decrypt, unmarshal_kyber_public_key,
  unmarshal_kyber_private_key,
}
use knirvbase.Crypto.Dilithium
use knirvbase.Crypto.Dilithium.{
  generate_dilithium_key_pair, dilithium_sign, dilithium_verify, unmarshal_dilithium_public_key,
  unmarshal_dilithium_private_key,
}

module _ (p : Primitives) where
  open p use {Byte, PublicKey, PrivateKey, VerifyKey, SignKey, Seed, random}

  -- PQCKeyPair; a key that is nil is none
  pub record KeyPair : Type 0 where
    pub id : String
    pub name : String
    pub purpose : String
    pub algorithm : String
    pub created_at : ℤ
    pub expires_at : Option ℤ
    pub status : String
    pub kyber_public_key : Option PublicKey
    pub kyber_private_key : Option PrivateKey
    pub dilithium_public_key : Option VerifyKey
    pub dilithium_private_key : Option SignKey
    pub kyber_public_key_bytes : List Byte
    pub kyber_private_key_bytes : List Byte
    pub dilithium_public_key_bytes : List Byte
    pub dilithium_private_key_bytes : List Byte

  -- the pair without the keys themselves, which its JSON leaves out
  abbrev pub without_keys : KeyPair → KeyPair
  without_keys kp = record kp {
    kyber_public_key = none;
    kyber_private_key = none;
    dilithium_public_key = none;
    dilithium_private_key = none;
  }

  -- json.Marshal and json.Unmarshal of a PQCKeyPair, and the text of an identifier's bytes
  pub record Records : Type 0 where
    pub marshal_record : KeyPair → Result (List Byte)
    pub unmarshal_record : List Byte → Result KeyPair
    pub hex : List Byte → String

  -- the JSON of a pair is decoded to the pair without its keys
  abbrev pub RecordsDecode : Records → Type 0
  RecordsDecode r =
      (kp : KeyPair) (bs : List Byte)
      → r.marshal_record kp ≡ ok bs
      → r.unmarshal_record bs ≡ ok (without_keys kp)

  -- the seeds of the three random parts of a key pair
  unfoldable pub generate_key_pair :
      Records → Seed → Seed → Seed → ℤ → String → String → Result KeyPair
  unfolding generate_kyber_key_pair generate_dilithium_key_pair
  generate_key_pair r kem_seed sign_seed id_seed now name purpose = do
    kyber_pair ← wrap "failed to generate Kyber keys" (generate_kyber_key_pair p kem_seed)
    dilithium_pair ←
        wrap "failed to generate Dilithium keys" (generate_dilithium_key_pair p sign_seed)
    id_bytes ← wrap "failed to generate ID" (random id_seed 16)
    kyber_pub ← wrap "failed to marshal Kyber public key" (Kyber.marshal_public_key p kyber_pair)
    kyber_priv ← wrap "failed to marshal Kyber private key" (Kyber.marshal_private_key p kyber_pair)
    dilithium_pub ←
        wrap "failed to marshal Dilithium public key"
          (Dilithium.marshal_public_key p dilithium_pair)
    dilithium_priv ←
        wrap "failed to marshal Dilithium private key"
          (Dilithium.marshal_private_key p dilithium_pair)
    ok (record {
      id = r.hex id_bytes;
      name = name;
      purpose = purpose;
      algorithm = "Kyber-768+Dilithium-3";
      created_at = now;
      expires_at = none;
      status = "active";
      kyber_public_key = some kyber_pair.public_key;
      kyber_private_key = some kyber_pair.private_key;
      dilithium_public_key = some dilithium_pair.public_key;
      dilithium_private_key = some dilithium_pair.private_key;
      kyber_public_key_bytes = kyber_pub;
      kyber_private_key_bytes = kyber_priv;
      dilithium_public_key_bytes = dilithium_pub;
      dilithium_private_key_bytes = dilithium_priv;
    })

  -- a key of a decoded pair: none if its bytes are missing
  unfoldable pub load_key :
      {A : Type 0} → String → (List Byte → Result A) → List Byte → Result (Option A)
  load_key text read [] = ok none
  load_key text read (b ∷ bs) = do key ← wrap text (read (b ∷ bs)); ok (some key)

  unfoldable pub load_key_pair : Records → List Byte → Result KeyPair
  unfolding load_key
  load_key_pair r data_bytes = do
    kp ← wrap "failed to unmarshal key pair" (r.unmarshal_record data_bytes)
    pub_key ←
        load_key "failed to unmarshal Kyber public key" (unmarshal_kyber_public_key p)
          (kp.kyber_public_key_bytes)
    priv_key ←
        load_key "failed to unmarshal Kyber private key" (unmarshal_kyber_private_key p)
          (kp.kyber_private_key_bytes)
    ver_key ←
        load_key "failed to unmarshal Dilithium public key" (unmarshal_dilithium_public_key p)
          (kp.dilithium_public_key_bytes)
    sig_key ←
        load_key "failed to unmarshal Dilithium private key" (unmarshal_dilithium_private_key p)
          (kp.dilithium_private_key_bytes)
    ok (record kp {
      kyber_public_key = pub_key;
      kyber_private_key = priv_key;
      dilithium_public_key = ver_key;
      dilithium_private_key = sig_key;
    })

  -- Marshal: without the private keys' bytes
  unfoldable pub marshal : Records → KeyPair → Result (List Byte)
  marshal r kp =
      r.marshal_record
        (record kp { kyber_private_key_bytes = []; dilithium_private_key_bytes = [] })

  unfoldable pub marshal_with_private_keys : Records → KeyPair → Result (List Byte)
  marshal_with_private_keys r kp = r.marshal_record kp

  unfoldable pub encrypt : Seed → Seed → KeyPair → List Byte → Result (List Byte)
  unfolding kyber_encrypt
  encrypt s s' kp plaintext = elim kp.kyber_public_key [
    | none ↦ err "no Kyber public key available"
    | some key ↦ kyber_encrypt p s s' key plaintext
  ]

  unfoldable pub decrypt : KeyPair → List Byte → Result (List Byte)
  unfolding kyber_decrypt
  decrypt kp ciphertext = elim kp.kyber_private_key [
    | none ↦ err "no Kyber private key available"
    | some key ↦ kyber_decrypt p key ciphertext
  ]

  unfoldable pub sign_message : KeyPair → List Byte → Result (List Byte)
  sign_message kp message = elim kp.dilithium_private_key [
    | none ↦ err "no Dilithium private key available"
    | some key ↦ dilithium_sign p key message
  ]

  unfoldable pub verify_message : KeyPair → List Byte → List Byte → Bool
  verify_message kp message signature = elim kp.dilithium_public_key [
    | none ↦ false
    | some key ↦ dilithium_verify p key message signature
  ]

  unfoldable pub is_expired : ℤ → KeyPair → Bool
  is_expired now kp = elim kp.expires_at [ none ↦ false | some t ↦ ltb_ℤ t now ]

  unfoldable pub is_active : ℤ → KeyPair → Bool
  unfolding is_expired
  is_active now kp = kp.status == "active" && not (is_expired now kp)
