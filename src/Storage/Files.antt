-- ===== src/Storage/Files.antt =====
-- go/internal/storage/storage.go: FileStorage and its Insert. A time, the seeds of the fields to
-- encrypt and the disk are parameters; the lock that a call finds is an argument.
use knirvbase.Base.{String, Bool, false, Option, none, some, List, [], if◌then◌else◌, ◌==◌}
use knirvbase.Base.Int.{ℤ}
use knirvbase.GoMap.{GoMap, made, entries, lookup, insert, remove}
use knirvbase.Outcome.{Outcome, returns, panics}
use knirvbase.Result.{Result, ok, err, wrap}
use knirvbase.Call.{Mutex, Call, done, ◌>>=◌, of_outcome, with_lock}
use knirvbase.Floats.{Floats}
use knirvbase.Types.{entry_type_memory}
use knirvbase.Value.{Value, str, obj, entry_type, fields_of}
use knirvbase.Json.{Codec}
use knirvbase.IndexManager.{Indexes, document_id, insert_document}
use knirvbase.Crypto.{Primitives}
use knirvbase.Crypto.Keys.{KeyPair}
use knirvbase.Crypto.Encryption.{new_encryption_manager, set_master_key}
use knirvbase.Storage.{
  is_encrypted_collection, Disk, FileStorage, files_of, set_file, blob_path, map_value,
  deep_copy_doc, payload_of, encrypt_document,
}

module _ (p : Primitives) (fl : Floats) (c : Codec fl.Float p.Byte) where
  open p use {Byte, Seed}
  open fl use {Float}

  -- NewFileStorage, given the files below its directory and the indexes that LoadIndexes has read
  unfoldable pub new_file_storage :
      String
      → List (String × List (String × List Byte))
      → List (String × List Byte)
      → Indexes fl
      → FileStorage p fl c
  unfolding new_encryption_manager
  new_file_storage base_dir documents blobs indexes = record {
    base_dir = base_dir;
    documents = documents;
    blobs = blobs;
    indexes = indexes;
    encryption = new_encryption_manager p fl c;
  }

  unfoldable pub set_storage_key : FileStorage p fl c → KeyPair p → FileStorage p fl c
  unfolding set_master_key
  set_storage_key fs kp = record fs { encryption = set_master_key p fl c fs.encryption kp }

  -- doc["entryType"] as a types.EntryType, which Insert tests for
  abbrev pub is_memory_type : Option (Value Float) → Bool
  is_memory_type (some (entry_type s)) = s == entry_type_memory
  is_memory_type _ = false

  module _ (disk : Disk p fl c) (now : ℤ) (seeds : String → Seed × Seed) where
    -- The error of json.Marshal is dropped, and so is that of the write.
    unfoldable pub save_blob :
        FileStorage p fl c → String → String → Value Float → FileStorage p fl c
    save_blob fs collection id blob =
        let path = blob_path p fl c fs collection id in
        let bytes : List Byte = elim (c.encode blob) [ err e ↦ [] | ok bs ↦ bs ] in
        record fs {
          blobs = elim (disk.blob_written path bytes) [
            | none ↦ remove path fs.blobs
            | some bs ↦ insert path bs fs.blobs
          ];
        }

    -- the blob of a MEMORY entry to a file of its own
    unfoldable pub move_blob :
        FileStorage p fl c
        → String
        → GoMap (Value Float)
        → Outcome (FileStorage p fl c × GoMap (Value Float))
    unfolding save_blob document_id
    move_blob fs collection doc =
        if is_memory_type (lookup "entryType" (entries doc))
        then elim (payload_of p fl c (entries doc)) [
          | none ↦ returns (fs, doc)
          | some payload ↦ elim (lookup "blob" payload) [
            | none ↦ returns (fs, doc)
            | some blob ↦ elim (document_id fl (entries doc)) [
              | panics ↦ panics
              | returns id ↦ returns (
                save_blob fs collection id blob,
                made (
                    insert "payload"
                      (obj (
                        fields_of (
                          remove "blob"
                            (insert "blobRef" (str (blob_path p fl c fs collection id)) payload))))
                      (entries doc)),
              )
            ]
          ]
        ]
        else returns (fs, doc)

    unfoldable pub encrypt_if_sensitive :
        FileStorage p fl c → String → GoMap (Value Float) → Result (GoMap (Value Float))
    unfolding is_encrypted_collection encrypt_document
    encrypt_if_sensitive fs collection doc =
        if is_encrypted_collection collection
        then elim fs.encryption.master_key [
          | none ↦ ok doc
          | some key ↦
              wrap "failed to encrypt document"
                (encrypt_document p fl c now seeds fs.encryption key collection doc)
        ]
        else ok doc

    -- os.WriteFile of a document
    unfoldable pub write_file :
        FileStorage p fl c → String → String → List Byte → FileStorage p fl c × Option String
    unfolding set_file
    write_file fs collection id bs = elim (disk.write_error collection id) [
      | some failed ↦ (set_file p fl c fs collection id (failed.1), some (failed.0))
      | none ↦ (set_file p fl c fs collection id (some bs), none)
    ]

    -- the return statement of Insert
    unfoldable pub index_document :
        FileStorage p fl c
        → String
        → GoMap (Value Float)
        → Call (FileStorage p fl c × Option String)
    unfolding insert_document
    index_document fs collection doc = do
      im ← of_outcome (insert_document fl fs.indexes collection (entries doc))
      done (record fs { indexes = im }, none)

    -- Insert from the call of json.Marshal on
    unfoldable pub write_document :
        FileStorage p fl c
        → String
        → String
        → GoMap (Value Float)
        → GoMap (Value Float)
        → Call (FileStorage p fl c × Option String)
    unfolding write_file index_document
    write_document fs collection id stored doc = elim (c.encode (map_value p fl c stored)) [
      | err e ↦ done (fs, some e)
      | ok bs ↦
          let (fs', failed) = write_file fs collection id bs in
          elim failed [ some e ↦ done (fs', some e) | none ↦ index_document fs' collection doc ]
    ]

    -- Insert from the encryption of the copy on
    unfoldable pub store_copy :
        FileStorage p fl c
        → String
        → String
        → GoMap (Value Float)
        → GoMap (Value Float)
        → Call (FileStorage p fl c × Option String)
    unfolding encrypt_if_sensitive write_document
    store_copy fs collection id copy doc = elim (encrypt_if_sensitive fs collection copy) [
      | err e ↦ done (fs, some e)
      | ok stored ↦ write_document fs collection id stored doc
    ]

    -- Insert, once it has the lock and the directory
    unfoldable pub store_document :
        FileStorage p fl c
        → String
        → String
        → GoMap (Value Float)
        → Call (FileStorage p fl c × Option String)
    unfolding deep_copy_doc move_blob store_copy
    store_document fs collection id doc = do
      moved ← of_outcome (move_blob fs collection (deep_copy_doc p fl c doc))
      store_copy (moved.0) collection id (moved.1) doc

    -- os.MkdirAll
    unfoldable pub make_directory : FileStorage p fl c → String → FileStorage p fl c
    make_directory fs collection = record fs {
      documents = insert collection (files_of p fl c fs collection) fs.documents;
    }

    unfoldable pub insert_doc :
        Mutex
        → FileStorage p fl c
        → String
        → GoMap (Value Float)
        → Call (FileStorage p fl c × Option String)
    unfolding document_id store_document make_directory
    insert_doc m fs collection doc = with_lock m λ held. do
      id ← of_outcome (document_id fl (entries doc))
      store_document (make_directory fs collection) collection id doc
