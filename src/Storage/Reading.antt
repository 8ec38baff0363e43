-- ===== src/Storage/Reading.antt =====
-- go/internal/storage/storage.go: Find and FindAll of FileStorage. A time and the disk are parameters;
-- the lock that a call finds is an argument.
use Prim.Native.String.{◌++◌ as append}
use knirvbase.Base.{
  String, Bool, false, ◌&&◌, Option, none, some, List, [], ◌∷◌, if◌then◌else◌, ◌==◌, is_some,
}
use knirvbase.Base.Int.{ℤ}
use knirvbase.Base.Text.{str_lt}
use knirvbase.GoMap.{GoMap, nil, made, entries, lookup, insert, remove}
use knirvbase.Result.{Result, ok, err, wrap}
use knirvbase.Call.{Mutex, read_locked_writer_waits, Call, done, ◌>>=◌, with_read_lock}
use knirvbase.Floats.{Floats}
use knirvbase.Types.{entry_type_memory}
use knirvbase.Value.{Value, Document, null, bool, str, obj, fields_of}
use knirvbase.Json.{Codec}
use knirvbase.Crypto.{Primitives}
use knirvbase.Storage.{
  Disk, FileStorage, document_file, files_of, decode_map, payload_of, decrypt_document,
}

module _ (p : Primitives) (fl : Floats) (c : Codec fl.Float p.Byte) where
  open p use {Byte, Seed}
  open fl use {Float}

  -- doc["entryType"] as a string, as Find reads it
  abbrev pub is_memory_text : Option (Value Float) → Bool
  is_memory_text (some (str s)) = s == entry_type_memory
  is_memory_text _ = false

  unfoldable pub load_blob : Disk p fl c → FileStorage p fl c → String → Option (Value Float)
  load_blob disk fs path = elim (lookup path fs.blobs) [
    | some bs ↦ some (elim (c.decode bs) [ err e ↦ null | ok v ↦ v ])
    | none ↦ elim (disk.other_file path) [
      | none ↦ none
      | some bs ↦ some (elim (c.decode bs) [ err e ↦ null | ok v ↦ v ])
    ]
  ]

  module _ (disk : Disk p fl c) (now : ℤ) (seeds : String → Seed × Seed) where
    -- Find, from json.Unmarshal on
    unfoldable pub restore_blob : FileStorage p fl c → GoMap (Value Float) → GoMap (Value Float)
    unfolding load_blob
    restore_blob fs doc =
        if is_memory_text (lookup "entryType" (entries doc))
        then elim (payload_of p fl c (entries doc)) [
          | none ↦ doc
          | some payload ↦ elim (lookup "blobRef" payload) [
            | some (str path) ↦ elim (load_blob disk fs path) [
              | none ↦ doc
              | some blob ↦ made (
                  insert "payload" (obj (fields_of (remove "blobRef" (insert "blob" blob payload))))
                    (entries doc))
            ]
            | _ ↦ doc
          ]
        ]
        else doc

    abbrev pub is_true : Option (Value Float) → Bool
    is_true (some (bool b)) = b
    is_true _ = false

    unfoldable pub decrypt_if_encrypted :
        FileStorage p fl c → GoMap (Value Float) → Result (GoMap (Value Float))
    unfolding decrypt_document
    decrypt_if_encrypted fs doc =
        if is_true (lookup "encrypted" (entries doc)) && is_some fs.encryption.master_key
        then wrap "failed to decrypt document" (decrypt_document p fl c now fs.encryption doc)
        else ok doc

    unfoldable pub read_document : FileStorage p fl c → List Byte → Result (GoMap (Value Float))
    unfolding decrypt_if_encrypted restore_blob
    read_document fs bs = elim (decode_map p fl c bs) [
      | err e ↦ err e
      | ok doc ↦ elim (decrypt_if_encrypted fs doc) [
        | err e ↦ err e
        | ok plain ↦ ok (restore_blob fs plain)
      ]
    ]

    -- Find, once it has the lock
    unfoldable pub read_file : FileStorage p fl c → String → String → Result (GoMap (Value Float))
    unfolding read_document
    read_file fs collection id = elim (disk.read_error collection id) [
      | some e ↦ err e
      | none ↦ elim (document_file p fl c fs collection id) [
        | none ↦ ok nil
        | some bs ↦ read_document fs bs
      ]
    ]

    unfoldable pub find_doc :
        Mutex → FileStorage p fl c → String → String → Call (Result (GoMap (Value Float)))
    unfolding read_file
    find_doc m fs collection id = with_read_lock m λ held. done (read_file fs collection id)

    -- os.ReadDir sorts the entries by their names, that is identifiers with ".json"
    unfoldable pub insert_name : String → List String → List String
    insert_name id [] = id ∷ []
    insert_name id (j ∷ ids) =
        if str_lt (append id ".json") (append j ".json")
        then id ∷ j ∷ ids
        else j ∷ insert_name id ids

    unfoldable pub file_names : List (String × List Byte) → List String
    unfolding insert_name
    file_names [] = []
    file_names ((id, bs) ∷ files) = insert_name id (file_names files)

    -- a document that Find has returned; nil and errors are passed over
    abbrev pub and_found :
        Result (GoMap (Value Float)) → List (Document Float) → List (Document Float)
    and_found (ok (made es)) docs = es ∷ docs
    and_found _ docs = docs

    -- The loop of FindAll: each Find takes the lock again, in the state in which it then is.
    unfoldable pub find_each :
        (String → Mutex) → FileStorage p fl c → String → List String → Call (List (Document Float))
    unfolding find_doc
    find_each lock fs collection [] = done []
    find_each lock fs collection (id ∷ ids) = do
      found ← find_doc (lock id) fs collection id
      docs ← find_each lock fs collection ids
      done (and_found found docs)

    -- FindAll. `writer_waits` says at which of the documents another goroutine waits for the lock.
    unfoldable pub find_all :
        (String → Bool)
        → Mutex
        → FileStorage p fl c
        → String
        → Call (Result (List (Document Float)))
    unfolding find_each file_names
    find_all writer_waits m fs collection = with_read_lock m λ held.
        elim (disk.list_error collection) [
          | some e ↦ done (err e)
          | none ↦ do
            docs ←
                find_each (λ id. if writer_waits id then read_locked_writer_waits else held) fs
                  collection (file_names (files_of p fl c fs collection))
            done (ok docs)
        ]
