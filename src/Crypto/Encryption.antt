-- ===== src/Crypto/Encryption.antt =====
-- go/internal/crypto/pqc/encryption.go: EncryptionManager. Its lock is left out: no operation reads
-- the cache while another one writes it. Reading the master key takes no lock in the code.
use Prim.Native.String.{◌++◌ as append}
use knirvbase.Base.{String, Option, none, some, List, [], if◌then◌else◌, ◌==◌}
use knirvbase.Base.Int.{ℤ}
use knirvbase.GoMap.{lookup, insert, remove}
use knirvbase.Result.{Result, ok, err, wrap, required, ◌>>=◌}
use knirvbase.Floats.{Floats}
use knirvbase.Value.{Value, Document, as_string, str, obj, field, no_fields}
use knirvbase.Json.{Codec, as_object}
use knirvbase.Crypto.{Primitives}
use knirvbase.Crypto.Kyber.{unmarshal_kyber_private_key}
use knirvbase.Crypto.Keys.{
  KeyPair, Records, generate_key_pair, encrypt, decrypt, sign_message, verify_message, is_active,
}

module _ (p : Primitives) (fl : Floats) (c : Codec fl.Float p.Byte) where
  open p use {Byte, Seed, PrivateKey, private_key_bytes}
  open fl use {Float}

  pub record EncryptionManager : Type 0 where
    pub master_key : Option (KeyPair p)
    pub key_cache : List (String × KeyPair p)

  unfoldable pub new_encryption_manager : EncryptionManager
  new_encryption_manager = record { master_key = none; key_cache = [] }

  -- SetMasterKey, of a key pair that is not nil, as those of the cache are
  unfoldable pub set_master_key : EncryptionManager → KeyPair p → EncryptionManager
  set_master_key em kp = record em { master_key = some kp }

  abbrev pub get_master_key : EncryptionManager → Option (KeyPair p)
  get_master_key em = em.master_key

  -- a key pair from the cache, or else the master key if it has that identifier
  unfoldable pub find_key : EncryptionManager → String → Result (KeyPair p)
  find_key em key_id = elim (lookup key_id em.key_cache) [
    | some kp ↦ ok kp
    | none ↦ elim em.master_key [
      | none ↦ err (append "key " (append key_id " not found in cache"))
      | some kp ↦
          if kp.id == key_id
          then ok kp
          else err (append "key " (append key_id " not found in cache"))
    ]
  ]

  unfoldable pub find_active_key : ℤ → EncryptionManager → String → Result (KeyPair p)
  unfolding find_key is_active
  find_active_key now em key_id = do
    kp ← find_key em key_id
    (if is_active p now kp then ok kp else err (append "key " (append key_id " is not active")))

  abbrev pub payload_of : String → List Byte → Value Float
  payload_of key_id ciphertext = obj (
      field "key_id" (str key_id) (
        field "algorithm" (str "Kyber-768+AES-256-GCM")
          (field "ciphertext" (str (c.base64 ciphertext)) no_fields)))

  abbrev pub envelope_of : Value Float → List Byte → Value Float
  envelope_of payload signature =
      obj (field "payload" payload (field "signature" (str (c.base64 signature)) no_fields))

  unfoldable pub encrypt_data :
      ℤ → Seed → Seed → EncryptionManager → List Byte → String → Result String
  unfolding find_active_key encrypt sign_message
  encrypt_data now s s' em plaintext key_id = do
    kp ← find_active_key now em key_id
    ciphertext ← wrap "failed to encrypt data" (encrypt p s s' kp plaintext)
    payload_bytes ← wrap "failed to marshal payload" (c.encode (payload_of key_id ciphertext))
    signature ← wrap "failed to sign payload" (sign_message p kp payload_bytes)
    final_bytes ←
        wrap "failed to marshal encrypted data"
          (c.encode (envelope_of (payload_of key_id ciphertext) signature))
    ok (c.base64 final_bytes)

  -- value, ok := m[key].(string), with the error if it is none
  unfoldable pub text_at : String → String → Document Float → Result String
  text_at error key doc = elim (lookup key doc) [
    | none ↦ err error
    | some v ↦ required error (as_string v)
  ]

  -- what DecryptData reads from its argument: the payload's bytes, the signature, the key's
  -- identifier and the ciphertext
  pub record Opened : Type 0 where
    pub payload_bytes : List Byte
    pub signature : List Byte
    pub key_id : String
    pub ciphertext : List Byte

  unfoldable pub read_payload : List Byte → List Byte → Result Opened
  unfolding text_at as_object
  read_payload payload_bytes signature = do
    payload_value ← wrap "failed to unmarshal payload" (c.decode payload_bytes)
    payload ← wrap "failed to unmarshal payload" (as_object fl payload_value)
    key_id ← text_at "missing key_id in payload" "key_id" payload
    ciphertext_text ← text_at "missing ciphertext in payload" "ciphertext" payload
    ciphertext ← wrap "failed to decode ciphertext" (c.unbase64 ciphertext_text)
    ok (record {
      payload_bytes = payload_bytes;
      signature = signature;
      key_id = key_id;
      ciphertext = ciphertext;
    })

  unfoldable pub read_envelope : String → Result Opened
  unfolding read_payload
  read_envelope encrypted_data = do
    encrypted_bytes ← wrap "failed to decode encrypted data" (c.unbase64 encrypted_data)
    value ← wrap "failed to unmarshal encrypted data" (c.decode encrypted_bytes)
    encrypted ← wrap "failed to unmarshal encrypted data" (as_object fl value)
    payload ← required "missing payload in encrypted data" (lookup "payload" encrypted)
    signature_text ← text_at "missing signature in encrypted data" "signature" encrypted
    signature ← wrap "failed to decode signature" (c.unbase64 signature_text)
    payload_bytes ← wrap "failed to marshal payload" (c.encode payload)
    read_payload payload_bytes signature

  -- the part of DecryptData that uses the key
  unfoldable pub open_payload : ℤ → EncryptionManager → Opened → Result (List Byte)
  unfolding find_active_key verify_message decrypt
  open_payload now em o = do
    kp ← find_active_key now em (o.key_id)
    (if verify_message p kp o.payload_bytes o.signature
        then wrap "failed to decrypt data" (decrypt p kp o.ciphertext)
        else err "signature verification failed")

  unfoldable pub decrypt_data : ℤ → EncryptionManager → String → Result (List Byte)
  unfolding read_envelope open_payload
  decrypt_data now em encrypted_data = do o ← read_envelope encrypted_data; open_payload now em o

  unfoldable pub cache_key : EncryptionManager → String → KeyPair p → EncryptionManager
  cache_key em key_id kp = record em { key_cache = insert key_id kp em.key_cache }

  unfoldable pub remove_key : EncryptionManager → String → EncryptionManager
  remove_key em key_id = record em { key_cache = remove key_id em.key_cache }

  unfoldable pub generate_data_encryption_key :
      Records p
      → Seed
      → Seed
      → Seed
      → ℤ
      → EncryptionManager
      → String
      → EncryptionManager × Result (KeyPair p)
  unfolding generate_key_pair cache_key
  generate_data_encryption_key r s1 s2 s3 now em name =
      elim (generate_key_pair p r s1 s2 s3 now name "encryption") [
        | err e ↦ (em, err e)
        | ok kp ↦ (cache_key em kp.id kp, ok kp)
      ]

  unfoldable pub encrypt_private_key :
      ℤ → Seed → Seed → EncryptionManager → PrivateKey → Result String
  unfolding encrypt_data
  encrypt_private_key now s s' em key = elim em.master_key [
    | none ↦ err "no master key set"
    | some kp ↦ do
      key_bytes ← wrap "failed to marshal private key" (private_key_bytes key)
      encrypt_data now s s' em key_bytes (kp.id)
  ]

  unfoldable pub decrypt_private_key : ℤ → EncryptionManager → String → Result PrivateKey
  unfolding decrypt_data
  decrypt_private_key now em encrypted_key = elim em.master_key [
    | none ↦ err "no master key set"
    | some kp ↦ do
      key_bytes ← wrap "failed to decrypt private key" (decrypt_data now em encrypted_key)
      unmarshal_kyber_private_key p key_bytes
  ]
