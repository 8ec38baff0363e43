-- ===== src/Storage/Reads.antt =====
-- go/internal/storage/storage.go: what Find reads after an Insert and after a Delete.
use knirvbase.Base.{
  String, ◌≡◌, refl, sym, ap, subst, ◌∙◌, true, false, ◌&&◌, Option, none, some, List, inl, inr,
  Bool-cases, Option-cases, is_some,
}
use knirvbase.Base.Int.{ℤ}
use knirvbase.GoMap.{GoMap, nil, made, entries, lookup}
use knirvbase.Outcome.{returns}
use knirvbase.Result.{ok, err, Result-cases}
use knirvbase.Call.{unlocked, done, not_done}
use knirvbase.Floats.{Floats}
use knirvbase.Value.{Value, Document, null, bool}
use knirvbase.Json.{Codec, JsonDecodes, json_value, as_object}
use knirvbase.Json.Laws.{
  json_document, json_fields-fields_of, document-fields_of, lookup-json_document, json_option,
  json_document_idem,
}
use knirvbase.IndexManager.{document_id}
use knirvbase.Crypto.{Primitives}
use knirvbase.Storage.{
  Disk, FileStorage, document_file, set_file, deep_copy_doc, map_value, decode_map,
  is_encrypted_collection,
}
use knirvbase.Storage.Reading.{
  is_memory_text, is_true, decrypt_if_encrypted, restore_blob, read_document, read_file, find_doc,
}
use knirvbase.Storage.Files.{
  encrypt_if_sensitive, write_file, index_document, write_document, store_copy, store_document,
  make_directory, insert_doc,
}
use knirvbase.Storage.Copies.{deep_copy_doc-json}
use knirvbase.Storage.Directories.{document_file-set_file}
use knirvbase.Storage.Frame.{store_document-copy, index_document-done}

module _ (p : Primitives) (fl : Floats) (c : Codec fl.Float p.Byte) (disk : Disk p fl c) (now : ℤ)
    (seeds : String → p.Seed × p.Seed) where
  open p use {Byte}
  open fl use {Float}

  -- what is in a document's file after its Insert
  pub record Stored (fs fs' : FileStorage p fl c) (collection id : String)
      (stored : GoMap (Value Float)) : Type 0 where
    pub bytes : List Byte
    pub encoded : c.encode (map_value p fl c stored) ≡ ok bytes
    pub in_file : document_file p fl c fs' collection id ≡ some bytes
    pub same_encryption : fs'.encryption ≡ fs.encryption

  index_document-Stored :
      (fs fs' : FileStorage p fl c) (collection id : String) (stored doc : GoMap (Value Float))
      (bs : List Byte)
      → c.encode (map_value p fl c stored) ≡ ok bs
      → index_document p fl c disk now seeds
          (set_file p fl c fs collection id (some bs))
          collection
          doc
        ≡ done (fs', none)
      → Stored fs fs' collection id stored
  unfolding set_file
  index_document-Stored fs fs' collection id stored doc bs g h =
      let (im, _, same, _) =
        index_document-done p fl c disk now seeds _ fs' collection doc none h in
      rw same (record {
        bytes = bs;
        encoded = g;
        in_file = document_file-set_file p fl c fs collection id bs;
        same_encryption = refl;
      })

  write_document-Stored :
      (fs fs' : FileStorage p fl c) (collection id : String) (stored doc : GoMap (Value Float))
      → write_document p fl c disk now seeds fs collection id stored doc ≡ done (fs', none)
      → Stored fs fs' collection id stored
  unfolding write_document write_file
  write_document-Stored fs fs' collection id stored doc h =
      elim (Result-cases (c.encode (map_value p fl c stored))) [
        | inr (text, g) ↦ elim (not_done (rw (g, write_document) at h)) [ ]
        | inl (bs, g) ↦ elim (Option-cases (disk.write_error collection id)) [
          | inr (failed, f) ↦ elim (not_done (rw (g, write_document, f, write_file) at h)) [ ]
          | inl f ↦
              let w : (write_file p fl c disk now seeds fs collection id bs).0
                  ≡ set_file p fl c fs collection id (some bs) =
                rw (f, write_file) refl in
              let none_failed : (write_file p fl c disk now seeds fs collection id bs).1 ≡ none =
                rw (f, write_file) refl in
              index_document-Stored fs fs' collection id stored doc bs g (
                subst
                  (λ r. index_document p fl c disk now seeds r collection doc ≡ done (fs', none)) w
                  (rw (g, write_document, none_failed, write_document) at h))
        ]
      ]

  insert_doc-Stored :
      JsonDecodes fl c
      → (fs fs' : FileStorage p fl c) (collection id : String) (doc stored : GoMap (Value Float))
      → document_id fl (entries doc) ≡ returns id
      → encrypt_if_sensitive p fl c disk now seeds fs collection (deep_copy_doc p fl c doc)
        ≡ ok stored
      → insert_doc p fl c disk now seeds unlocked fs collection doc ≡ done (fs', none)
      → Stored fs fs' collection id stored
  unfolding insert_doc store_copy make_directory encrypt_if_sensitive
  insert_doc-Stored json fs fs' collection id doc stored has e h =
      let dir = make_directory p fl c disk now seeds fs collection in
      let k : store_document p fl c disk now seeds dir collection id doc ≡ done (fs', none) =
        rw has at h in
      let k' = sym (store_document-copy p fl c disk now seeds json dir collection id doc) ∙ k in
      let z = write_document-Stored dir fs' collection id stored doc (rw (e, store_copy) at k') in
      record {
        bytes = z.bytes;
        encoded = z.encoded;
        in_file = z.in_file;
        same_encryption = z.same_encryption;
      }

  decode_map-encode :
      JsonDecodes fl c
      → (es : Document Float) (bs : List Byte) → c.encode (map_value p fl c (made es)) ≡ ok bs
      → decode_map p fl c bs ≡ ok (made (json_document fl es))
  unfolding json_value as_object
  decode_map-encode json es bs h =
      rw (json _ bs h, json_fields-fields_of fl es, document-fields_of (json_document fl es)) refl

  -- a document that Find returns as its file has it: it is not marked as encrypted, or there is no
  -- key, and it is not a MEMORY entry
  abbrev pub IsPlain : FileStorage p fl c → Document Float → Type 0
  IsPlain fs es =
      ((is_true p fl c disk now seeds (lookup "encrypted" es) && is_some fs.encryption.master_key)
        ≡ false)
      × (is_memory_text p fl c (json_option fl (lookup "entryType" es)) ≡ false)

  is_true-json :
      (o : Option (Value Float))
      → is_true p fl c disk now seeds (json_option fl o) ≡ is_true p fl c disk now seeds o
  unfolding json_value
  is_true-json none = refl
  is_true-json (some v) = is_true-json_value v
    where
      is_true-json_value :
          (w : Value Float)
          → is_true p fl c disk now seeds (some (json_value fl w))
            ≡ is_true p fl c disk now seeds (some w)
      is_true-json_value (bool b) = refl
      is_true-json_value w = refl

  read_document-plain :
      (fs : FileStorage p fl c) (es : Document Float) (bs : List Byte)
      → decode_map p fl c bs ≡ ok (made (json_document fl es))
      → IsPlain fs es
      → read_document p fl c disk now seeds fs bs ≡ ok (made (json_document fl es))
  unfolding read_document decrypt_if_encrypted restore_blob
  read_document-plain fs es bs h (a, b) =
      let d : decrypt_if_encrypted p fl c disk now seeds fs (made (json_document fl es))
          ≡ ok (made (json_document fl es)) =
        rw (lookup-json_document fl "encrypted" es, is_true-json (lookup "encrypted" es), a) refl in
      let r : restore_blob p fl c disk now seeds fs (made (json_document fl es))
          ≡ made (json_document fl es) =
        rw (lookup-json_document fl "entryType" es, b) refl in
      rw (h, read_document, d, read_document, r) refl

  pub find_doc-file :
      (fs : FileStorage p fl c) (collection id : String) (bs : List Byte)
      → disk.read_error collection id ≡ none
      → document_file p fl c fs collection id ≡ some bs
      → find_doc p fl c disk now seeds unlocked fs collection id
        ≡ done (read_document p fl c disk now seeds fs bs)
  unfolding find_doc read_file
  find_doc-file fs collection id bs h f = rw (h, read_file, f, read_file) refl

  pub encrypt_if_sensitive-plain :
      (fs : FileStorage p fl c) (collection : String) (doc : GoMap (Value Float))
      → (is_encrypted_collection collection && is_some fs.encryption.master_key) ≡ false
      → encrypt_if_sensitive p fl c disk now seeds fs collection doc ≡ ok doc
  unfolding encrypt_if_sensitive
  encrypt_if_sensitive-plain fs collection doc h =
      elim (Bool-cases (is_encrypted_collection collection)) [
        | inr plain ↦ rw (plain, encrypt_if_sensitive) refl
        | inl sensitive ↦ elim (Option-cases fs.encryption.master_key) [
          | inl f ↦ rw (sensitive, encrypt_if_sensitive, f, encrypt_if_sensitive) refl
          | inr (key, f) ↦ elim (contradicts (rw (sensitive, f) at h)) [ ]
        ]
      ]
    where
      contradicts : true ≡ false → ⊥
      contradicts e = cc

  -- Find returns what Insert has stored: in a collection whose documents are not encrypted, or with
  -- no master key set, the document comes back as encoding/json leaves it, if it can be encoded, Insert
  -- reports no error and the file can be read.
  pub find_doc-insert_doc :
      JsonDecodes fl c
      → (fs fs' : FileStorage p fl c) (collection id : String) (es : Document Float)
        (bs : List Byte)
      → c.encode (map_value p fl c (made es)) ≡ ok bs
      → document_id fl es ≡ returns id
      → (is_encrypted_collection collection && is_some fs.encryption.master_key) ≡ false
      → IsPlain fs es
      → disk.read_error collection id ≡ none
      → insert_doc p fl c disk now seeds unlocked fs collection (made es) ≡ done (fs', none)
      → find_doc p fl c disk now seeds unlocked fs' collection id
        ≡ done (ok (made (json_document fl es)))
  find_doc-insert_doc json fs fs' collection id es bs g has plain flags readable h =
      let copy = deep_copy_doc-json p fl c json es bs g in
      let kept : encrypt_if_sensitive p fl c disk now seeds fs collection
            (deep_copy_doc p fl c (made es))
          ≡ ok (made (json_document fl es)) =
        rw copy (encrypt_if_sensitive-plain fs collection _ plain) in
      let z = insert_doc-Stored json fs fs' collection id (made es) _ has kept h in
      let d : decode_map p fl c z.bytes ≡ ok (made (json_document fl es)) =
        decode_map-encode json _ z.bytes z.encoded
        ∙ ap (λ m. ok (made m)) (json_document_idem fl es) in
      find_doc-file fs' collection id z.bytes readable z.in_file
      ∙ ap done (read_document-plain fs' es z.bytes d (rw z.same_encryption flags))

  -- Insert loses a document that cannot be encoded: it may report no error, but then the file holds
  -- null and Find returns nil. The documents are those of a collection that is not encrypted.
  pub find_doc-insert_doc_unencodable :
      JsonDecodes fl c
      → (fs fs' : FileStorage p fl c) (collection id : String) (es : Document Float)
        (error : String)
      → c.encode (map_value p fl c (made es)) ≡ err error
      → document_id fl es ≡ returns id
      → (is_encrypted_collection collection && is_some fs.encryption.master_key) ≡ false
      → disk.read_error collection id ≡ none
      → insert_doc p fl c disk now seeds unlocked fs collection (made es) ≡ done (fs', none)
      → find_doc p fl c disk now seeds unlocked fs' collection id ≡ done (ok nil)
  unfolding deep_copy_doc read_document decrypt_if_encrypted restore_blob lookup json_value
  find_doc-insert_doc_unencodable json fs fs' collection id es error g has plain readable h =
      let copy : deep_copy_doc p fl c (made es) ≡ nil = rw (g, deep_copy_doc) refl in
      let kept : encrypt_if_sensitive p fl c disk now seeds fs collection
            (deep_copy_doc p fl c (made es))
          ≡ ok nil =
        rw copy (encrypt_if_sensitive-plain fs collection _ plain) in
      let z = insert_doc-Stored json fs fs' collection id (made es) _ has kept h in
      find_doc-file fs' collection id z.bytes readable z.in_file
      ∙ ap done (rw (json null z.bytes z.encoded, read_document) refl)
