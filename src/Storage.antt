-- ===== src/Storage.antt =====
-- go/internal/storage/storage.go: FileStorage. The files below its directory are maps: the document
-- files of a collection by identifier, the blobs by path. Collection names and identifiers are taken
-- to be single path components. What the operating system may do besides is a parameter (Disk).
-- The lock of the storage is part of the model, since calls that hold it make calls that take it.
pub mod Files
pub mod Reading
pub mod Changes
pub mod Locks
pub mod Copies
pub mod Directories
pub mod Frame
pub mod Reads
pub mod Deletes
pub mod Inserts
pub mod Marks
pub mod Restored
pub mod Accepted
pub mod Instance
pub mod IndexMethods
use Prim.Native.String.{◌++◌ as append}
use knirvbase.Base.{
  String, Bool, true, false, ◌&&◌, ◌||◌, Option, none, some, List, [], ◌∷◌, if◌then◌else◌, ◌==◌,
  is_some,
}
use knirvbase.Base.Int.{ℤ}
use knirvbase.Base.Text.{str_lt}
use knirvbase.GoMap.{GoMap, nil, made, entries, lookup, insert, remove}
use knirvbase.GoStrings.{has_suffix}
use knirvbase.Outcome.{Outcome, returns, panics}
use knirvbase.Result.{Result, ok, err, wrap, required, ◌>>=◌}
use knirvbase.Floats.{Floats}
use knirvbase.Types.{entry_type_memory}
use knirvbase.Value.{
  Value, Document, as_string, as_document, null, bool, str, obj, entry_type, fields_of,
}
use knirvbase.Json.{Codec, as_object}
use knirvbase.Index.{Index, IndexType}
use knirvbase.IndexManager.{Indexes, IndexError, insert_document, delete_document}
use knirvbase.Crypto.{Primitives}
use knirvbase.Crypto.Keys.{KeyPair}
use knirvbase.Crypto.Encryption.{
  EncryptionManager, new_encryption_manager, encrypt_data, decrypt_data,
}

-- IsEncryptedCollection
unfoldable pub is_encrypted_collection : String → Bool
is_encrypted_collection c =
    c == "credentials"
    || c == "pqc_keys"
    || c == "sessions"
    || c == "audit_log"
    || c == "threat_events"
    || c == "access_control"

unfoldable pub is_sensitive_field : String → String → Bool
is_sensitive_field c field_name =
    (c == "credentials" && (field_name == "hash" || field_name == "salt"))
    || (c == "pqc_keys"
        && (field_name == "kyber_private_key" || field_name == "dilithium_private_key"))
    || (c == "sessions" && field_name == "token_hash")
    || (c == "audit_log" && field_name == "details")
    || (c == "threat_events" && field_name == "indicators")
    || (c == "access_control" && field_name == "permissions")

module _ (p : Primitives) (fl : Floats) (c : Codec fl.Float p.Byte) where
  open p use {Byte, Seed}
  open fl use {Float}

  -- The errors of the operating system, by collection and identifier, and the files elsewhere. A
  -- write that fails leaves the file with some contents, or missing.
  pub record Disk : Type 0 where
    pub write_error : String → String → Option (String × Option (List Byte))
    pub remove_error : String → String → Option String
    pub read_error : String → String → Option String
    pub list_error : String → Option String
    -- the contents of a blob's file after a write of some bytes, and whether its removal fails
    pub blob_written : String → List Byte → Option (List Byte)
    pub blob_stays : String → Bool
    pub other_file : String → Option (List Byte)

  pub record FileStorage : Type 0 where
    pub base_dir : String
    pub documents : List (String × List (String × List Byte))
    pub blobs : List (String × List Byte)
    pub indexes : Indexes fl
    pub encryption : EncryptionManager p fl c

  abbrev pub directory : FileStorage → String → Option (List (String × List Byte))
  directory fs collection = lookup collection fs.documents

  abbrev pub document_file : FileStorage → String → String → Option (List Byte)
  document_file fs collection id = elim (directory fs collection) [
    | none ↦ none
    | some dir ↦ lookup id dir
  ]

  -- the directory of a collection, empty if it is not there
  abbrev pub files_of : FileStorage → String → List (String × List Byte)
  files_of fs collection = elim (directory fs collection) [ none ↦ [] | some dir ↦ dir ]

  -- a document file with these contents, or removed
  unfoldable pub set_file : FileStorage → String → String → Option (List Byte) → FileStorage
  set_file fs collection id (some bs) = record fs {
    documents = insert collection (insert id bs (files_of fs collection)) fs.documents;
  }
  set_file fs collection id none = record fs {
    documents = insert collection (remove id (files_of fs collection)) fs.documents;
  }

  abbrev pub blob_path : FileStorage → String → String → String
  blob_path fs collection id =
      append fs.base_dir (append "/" (append collection (append "/blobs/" id)))

  -- a map[string]interface{} as a value
  abbrev pub map_value : GoMap (Value Float) → Value Float
  map_value nil = null
  map_value (made es) = obj (fields_of es)

  abbrev pub map_of : Result (Value Float) → Result (GoMap (Value Float))
  map_of (err e) = err e
  map_of (ok null) = ok nil
  map_of (ok v) = do es ← as_object fl v; ok (made es)

  -- json.Unmarshal into a map
  abbrev pub decode_map : List Byte → Result (GoMap (Value Float))
  decode_map bs = map_of (c.decode bs)

  -- the errors of Marshal and Unmarshal are dropped, which leaves the copy nil
  unfoldable pub deep_copy_doc : GoMap (Value Float) → GoMap (Value Float)
  deep_copy_doc doc = elim (c.encode (map_value doc)) [
    | err e ↦ nil
    | ok bs ↦ elim (decode_map bs) [ err e ↦ nil | ok copy ↦ copy ]
  ]

  -- encryptPayload; the seeds that the encryption of a field uses
  unfoldable pub encrypt_payload :
      ℤ
      → (String → Seed × Seed)
      → EncryptionManager p fl c
      → String
      → List (String × Value Float)
      → String
      → Result (List (String × Value Float))
  unfolding is_sensitive_field encrypt_data
  encrypt_payload now seeds em collection [] key_id = ok []
  encrypt_payload now seeds em collection ((k, v) ∷ es) key_id = do
    rest ← encrypt_payload now seeds em collection es key_id
    (if is_sensitive_field collection k
        then (do
          bs ← wrap (append "failed to marshal field " k) (c.encode v)
          s ←
              wrap (append "failed to encrypt field " k)
                (encrypt_data p fl c now ((seeds k).0) ((seeds k).1) em bs key_id)
          ok (insert (append k "_encrypted") (bool true) (insert k (str s) rest)))
        else ok (insert k v rest))

  -- payload[key+"_encrypted"].(bool)
  abbrev pub is_marked : List (String × Value Float) → String → Bool
  is_marked payload k = elim (lookup (append k "_encrypted") payload) [
    | some (bool b) ↦ b
    | _ ↦ false
  ]

  unfoldable pub decrypt_field :
      ℤ → EncryptionManager p fl c → String → Value Float → Result (Value Float)
  unfolding decrypt_data
  decrypt_field now em k v = do
    s ← required (append "encrypted field " (append k " is not a string")) (as_string v)
    bs ← wrap (append "failed to decrypt field " k) (decrypt_data p fl c now em s)
    wrap (append "failed to unmarshal decrypted field " k) (c.decode bs)

  -- decryptPayload: the loop over the entries of a payload
  unfoldable pub decrypt_entries :
      ℤ
      → EncryptionManager p fl c
      → List (String × Value Float)
      → List (String × Value Float)
      → Result (List (String × Value Float))
  unfolding decrypt_field has_suffix
  decrypt_entries now em payload [] = ok []
  decrypt_entries now em payload ((k, v) ∷ es) = do
    rest ← decrypt_entries now em payload es
    (if has_suffix k "_encrypted"
        then ok rest
        else if is_marked payload k
        then (do d ← decrypt_field now em k v; ok (insert k d rest))
        else ok (insert k v rest))

  unfoldable pub decrypt_payload :
      ℤ
      → EncryptionManager p fl c
      → List (String × Value Float)
      → Result (List (String × Value Float))
  unfolding decrypt_entries
  decrypt_payload now em payload = decrypt_entries now em payload payload

  -- doc["payload"].(map[string]interface{})
  abbrev pub payload_of : List (String × Value Float) → Option (List (String × Value Float))
  payload_of doc = elim (lookup "payload" doc) [ none ↦ none | some v ↦ as_document v ]

  unfoldable pub encrypt_document :
      ℤ
      → (String → Seed × Seed)
      → EncryptionManager p fl c
      → KeyPair p
      → String
      → GoMap (Value Float)
      → Result (GoMap (Value Float))
  unfolding encrypt_payload as_document
  encrypt_document now seeds em key collection doc = elim (payload_of (entries doc)) [
    | none ↦ ok doc
    | some payload ↦ do
      encrypted ←
          wrap "failed to encrypt payload"
            (encrypt_payload now seeds em collection payload (key.id))
      ok (
          made (
            insert "encryption_key_id" (str (key.id)) (
              insert "encrypted" (bool true)
                (insert "payload" (obj (fields_of encrypted)) (entries doc)))))
  ]

  unfoldable pub decrypt_document :
      ℤ → EncryptionManager p fl c → GoMap (Value Float) → Result (GoMap (Value Float))
  unfolding decrypt_payload as_document
  decrypt_document now em doc = do
    key_id ←
        required "missing encryption_key_id"
          (elim (lookup "encryption_key_id" (entries doc)) [ none ↦ none | some v ↦ as_string v ])
    elim (payload_of (entries doc)) [
      | none ↦ ok (made (remove "encryption_key_id" (remove "encrypted" (entries doc))))
      | some payload ↦ do
        decrypted ← wrap "failed to decrypt payload" (decrypt_payload now em payload)
        ok (
            made (
              remove "encryption_key_id"
                (remove "encrypted" (insert "payload" (obj (fields_of decrypted)) (entries doc)))))
    ]
