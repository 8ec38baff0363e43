-- ===== src/Crypto/Kyber.antt =====
-- go/internal/crypto/pqc/kyber.go: encryption with the secret of a Kyber ciphertext by AES-256-GCM.
-- Encryption takes two seeds, one for the encapsulation and one for the nonce.
use knirvbase.Base.{ℕ, zero, suc, List, [], ◌∷◌, ◌++◌, if◌then◌else◌, ltb, eqb, length, take, drop}
use knirvbase.Result.{Result, ok, err, wrap, ◌>>=◌}
use knirvbase.Crypto.{Primitives}

module _ (p : Primitives) where
  open p use {
    Byte, zero_byte, PublicKey, PrivateKey, Seed, ciphertext_size, encapsulate, decapsulate, Gcm,
    new_gcm, nonce_size, seal, open_sealed, sha256, random, generate_kem, public_key, private_key,
    public_key_bytes, private_key_bytes,
  }

  abbrev pub Bytes : Type 0
  Bytes = List Byte

  -- KyberKeyPair, without the scheme, which is always the same
  pub record KyberKeyPair : Type 0 where
    pub public_key : PublicKey
    pub private_key : PrivateKey

  unfoldable pub generate_kyber_key_pair : Seed → Result KyberKeyPair
  generate_kyber_key_pair seed = do
    pair ← wrap "failed to generate Kyber key pair" (generate_kem seed)
    ok (record { public_key = pair.0; private_key = pair.1 })

  -- a slice of n zero bytes into which the bytes are copied
  abbrev pub copy_into : ℕ → Bytes → Bytes
  copy_into zero bs = []
  copy_into (suc n) [] = zero_byte ∷ copy_into n []
  copy_into (suc n) (b ∷ bs) = b ∷ copy_into n bs

  -- the 32 bytes of the AES key
  unfoldable pub derive_key : Bytes → Bytes
  derive_key key = if eqb (length key) 32 then key else sha256 key

  unfoldable pub aes_encrypt : Seed → Bytes → Bytes → Result Bytes
  unfolding derive_key
  aes_encrypt seed key plaintext = do
    gcm ← new_gcm (derive_key key)
    nonce ← random seed (nonce_size gcm)
    ok (nonce ++ seal gcm nonce plaintext)

  unfoldable pub aes_decrypt : Bytes → Bytes → Result Bytes
  unfolding derive_key
  aes_decrypt key ciphertext = do
    gcm ← new_gcm (derive_key key)
    (if ltb (length ciphertext) (nonce_size gcm)
        then err "ciphertext too short"
        else open_sealed gcm (take (nonce_size gcm) ciphertext) (drop (nonce_size gcm) ciphertext))

  unfoldable pub kyber_encrypt : Seed → Seed → PublicKey → Bytes → Result Bytes
  unfolding aes_encrypt
  kyber_encrypt kem_seed nonce_seed key plaintext = do
    encapsulated ← wrap "failed to encapsulate" (encapsulate kem_seed key)
    encrypted ← wrap "failed to encrypt data" (aes_encrypt nonce_seed (encapsulated.1) plaintext)
    ok (copy_into ciphertext_size (encapsulated.0) ++ encrypted)

  unfoldable pub kyber_decrypt : PrivateKey → Bytes → Result Bytes
  unfolding aes_decrypt
  kyber_decrypt key ciphertext =
      if ltb (length ciphertext) ciphertext_size then err "ciphertext too short" else (do
        secret ← wrap "failed to decapsulate" (decapsulate key (take ciphertext_size ciphertext))
        wrap "failed to decrypt data" (aes_decrypt secret (drop ciphertext_size ciphertext)))

  abbrev pub marshal_public_key : KyberKeyPair → Result Bytes
  marshal_public_key kp = public_key_bytes kp.public_key

  abbrev pub marshal_private_key : KyberKeyPair → Result Bytes
  marshal_private_key kp = private_key_bytes kp.private_key

  abbrev pub unmarshal_kyber_public_key : Bytes → Result PublicKey
  unmarshal_kyber_public_key bytes = public_key bytes

  abbrev pub unmarshal_kyber_private_key : Bytes → Result PrivateKey
  unmarshal_kyber_private_key bytes = private_key bytes
