-- ===== src/Crypto.antt =====
-- The libraries that go/internal/crypto/pqc calls, as a parameter: circl's Kyber-768 and Dilithium-3,
-- Go's AES-256-GCM and SHA-256. The code moves bytes about and measures them, and never looks into
-- one, so their type is part of the parameter. What is random is an argument of the call.
pub mod Kyber
pub mod Hybrid
pub mod Dilithium
pub mod Keys
pub mod Encryption
pub mod Pairs
pub mod Envelope
use knirvbase.Base.{ℕ, Bool, String, List, length, ◌≡◌}
use knirvbase.Result.{Result, ok}

pub record Primitives : Type 1 where
  pub Byte : Type 0
  pub zero_byte : Byte
  pub PublicKey : Type 0
  pub PrivateKey : Type 0
  pub VerifyKey : Type 0
  pub SignKey : Type 0
  -- what the generator of random numbers gives to one call
  pub Seed : Type 0
  -- kyber768.Scheme(): a ciphertext with the secret that it carries, and the secret back
  pub ciphertext_size : ℕ
  pub encapsulate : Seed → PublicKey → Result (List Byte × List Byte)
  pub decapsulate : PrivateKey → List Byte → Result (List Byte)
  pub public_key : List Byte → Result PublicKey
  pub private_key : List Byte → Result PrivateKey
  pub public_key_bytes : PublicKey → Result (List Byte)
  pub private_key_bytes : PrivateKey → Result (List Byte)
  pub generate_kem : Seed → Result (PublicKey × PrivateKey)
  -- mode3.Scheme()
  pub sign : SignKey → List Byte → List Byte
  pub verify : VerifyKey → List Byte → List Byte → Bool
  pub verify_key : List Byte → Result VerifyKey
  pub sign_key : List Byte → Result SignKey
  pub verify_key_bytes : VerifyKey → Result (List Byte)
  pub sign_key_bytes : SignKey → Result (List Byte)
  pub generate_sign : Seed → Result (VerifyKey × SignKey)
  -- aes.NewCipher with cipher.NewGCM, NonceSize, Seal and Open
  pub Gcm : Type 0
  pub new_gcm : List Byte → Result Gcm
  pub nonce_size : Gcm → ℕ
  pub seal : Gcm → List Byte → List Byte → List Byte
  pub open_sealed : Gcm → List Byte → List Byte → Result (List Byte)
  pub sha256 : List Byte → List Byte
  -- rand.Read of that many bytes
  pub random : Seed → ℕ → Result (List Byte)

module _ (p : Primitives) where
  open p use {
    Byte, PublicKey, PrivateKey, VerifyKey, SignKey, Seed, ciphertext_size, encapsulate,
    decapsulate, sign, verify, Gcm, nonce_size, seal, open_sealed, random,
  }

  -- a key pair of Kyber: what is encapsulated for the public key is decapsulated by the private one,
  -- and the ciphertext has the scheme's size
  abbrev pub KemPair : PublicKey → PrivateKey → Type 0
  KemPair pub_key priv_key =
      (seed : Seed) (ct secret : List Byte)
      → encapsulate seed pub_key ≡ ok (ct, secret)
      → (length ct ≡ ciphertext_size) × (decapsulate priv_key ct ≡ ok secret)

  -- AES-GCM opens what it has sealed, under the same key and a nonce of its size.
  abbrev pub GcmOpens : Type 0
  GcmOpens =
      (g : Gcm) (nonce text : List Byte)
      → length nonce ≡ nonce_size g
      → open_sealed g nonce (seal g nonce text) ≡ ok text

  -- rand.Read fills the slice that it is given.
  abbrev pub RandomFills : Type 0
  RandomFills = (seed : Seed) (n : ℕ) (bs : List Byte) → random seed n ≡ ok bs → length bs ≡ n
