-- ===== src/Crypto/Dilithium.antt =====
-- go/internal/crypto/pqc/dilithium.go: key pairs of Dilithium-3, signatures, and the bytes of keys.
use knirvbase.Base.{Bool, List}
use knirvbase.Result.{Result, ok, wrap, ◌>>=◌}
use knirvbase.Crypto.{Primitives}

module _ (p : Primitives) where
  open p use {
    Byte, VerifyKey, SignKey, Seed, sign, verify, verify_key, sign_key, verify_key_bytes,
    sign_key_bytes, generate_sign,
  }

  -- without the scheme, which is always the same
  pub record DilithiumKeyPair : Type 0 where
    pub public_key : VerifyKey
    pub private_key : SignKey

  unfoldable pub generate_dilithium_key_pair : Seed → Result DilithiumKeyPair
  generate_dilithium_key_pair seed = do
    pair ← wrap "failed to generate Dilithium key pair" (generate_sign seed)
    ok (record { public_key = pair.0; private_key = pair.1 })

  abbrev pub dilithium_sign : SignKey → List Byte → Result (List Byte)
  dilithium_sign key message = ok (sign key message)

  abbrev pub dilithium_verify : VerifyKey → List Byte → List Byte → Bool
  dilithium_verify key message signature = verify key message signature

  abbrev pub marshal_public_key : DilithiumKeyPair → Result (List Byte)
  marshal_public_key kp = verify_key_bytes kp.public_key

  abbrev pub marshal_private_key : DilithiumKeyPair → Result (List Byte)
  marshal_private_key kp = sign_key_bytes kp.private_key

  abbrev pub unmarshal_dilithium_public_key : List Byte → Result VerifyKey
  unmarshal_dilithium_public_key bytes = verify_key bytes

  abbrev pub unmarshal_dilithium_private_key : List Byte → Result SignKey
  unmarshal_dilithium_private_key bytes = sign_key bytes
