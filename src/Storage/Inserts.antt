-- ===== src/Storage/Inserts.antt =====
-- go/internal/storage/storage.go: when Insert and Delete succeed, and what Find reads then.
use knirvbase.Base.{String, ◌≡◌, refl, sym, ap, subst, ◌∙◌, false, ◌&&◌, none, some, List, is_some}
use knirvbase.Base.Int.{ℤ}
use knirvbase.GoMap.{GoMap, nil, made, entries, Distinct}
use knirvbase.Outcome.{returns}
use knirvbase.Result.{ok, err}
use knirvbase.Call.{unlocked, done}
use knirvbase.Floats.{Floats}
use knirvbase.Value.{Value, Document, null}
use knirvbase.Json.{Codec, JsonDecodes}
use knirvbase.Json.Laws.{json_document}
use knirvbase.IndexManager.{Indexes, insert_document, delete_document, document_id}
use knirvbase.Crypto.{Primitives}
use knirvbase.Storage.{
  Disk, FileStorage, set_file, files_of, deep_copy_doc, map_value, is_encrypted_collection,
}
use knirvbase.Storage.Files.{
  encrypt_if_sensitive, write_file, index_document, write_document, store_copy, store_document,
  make_directory, insert_doc,
}
use knirvbase.Storage.Reading.{find_doc}
use knirvbase.Storage.Changes.{remove_files, delete_doc}
use knirvbase.Storage.Copies.{deep_copy_doc-json}
use knirvbase.Storage.Frame.{store_document-copy, set_file-indexes}
use knirvbase.Storage.Reads.{
  IsPlain, encrypt_if_sensitive-plain, find_doc-insert_doc, find_doc-insert_doc_unencodable,
}
use knirvbase.Storage.Deletes.{find_doc-delete_doc}

module _ (p : Primitives) (fl : Floats) (c : Codec fl.Float p.Byte) (disk : Disk p fl c) (now : ℤ)
    (seeds : String → p.Seed × p.Seed) where
  open p use {Byte}
  open fl use {Float}

  index_document-returns :
      (fs : FileStorage p fl c) (collection : String) (doc : GoMap (Value Float)) (im : Indexes fl)
      → insert_document fl fs.indexes collection (entries doc) ≡ returns im
      → index_document p fl c disk now seeds fs collection doc
        ≡ done (record fs { indexes = im }, none)
  unfolding index_document
  index_document-returns fs collection doc im h = rw (h, index_document) refl

  write_document-returns :
      (fs : FileStorage p fl c) (collection id : String) (stored doc : GoMap (Value Float))
      (bs : List Byte) (im : Indexes fl)
      → c.encode (map_value p fl c stored) ≡ ok bs
      → disk.write_error collection id ≡ none
      → insert_document fl fs.indexes collection (entries doc) ≡ returns im
      → (fs' : FileStorage p fl c) × (write_document p fl c disk now seeds fs collection id stored
            doc
          ≡ done (fs', none))
  unfolding write_document write_file
  write_document-returns fs collection id stored doc bs im g f h =
      let written = set_file p fl c fs collection id (some bs) in
      let k : insert_document fl written.indexes collection (entries doc) ≡ returns im =
        rw (set_file-indexes p fl c disk now seeds fs collection id (some bs)) h in
      let w : (write_file p fl c disk now seeds fs collection id bs).0 ≡ written =
        rw (f, write_file) refl in
      let none_failed : (write_file p fl c disk now seeds fs collection id bs).1 ≡ none =
        rw (f, write_file) refl in
      (
        record written { indexes = im },
        rw (g, write_document, none_failed, write_document)
            (subst
              (λ r.
                index_document p fl c disk now seeds r collection doc
                ≡ done (record written { indexes = im }, none))
              (sym w) (index_document-returns written collection doc im k)),
      )

  store_copy-kept :
      (fs : FileStorage p fl c) (collection id : String) (copy stored doc : GoMap (Value Float))
      → encrypt_if_sensitive p fl c disk now seeds fs collection copy ≡ ok stored
      → store_copy p fl c disk now seeds fs collection id copy doc
        ≡ write_document p fl c disk now seeds fs collection id stored doc
  unfolding store_copy
  store_copy-kept fs collection id copy stored doc e = rw (e, store_copy) refl

  -- Insert of a document that is not encrypted succeeds if its copy can be encoded, the disk gives no
  -- error and the indexes take the document.
  insert_doc-returns :
      JsonDecodes fl c
      → (fs : FileStorage p fl c) (collection id : String) (doc stored : GoMap (Value Float))
        (bs : List Byte) (im : Indexes fl)
      → deep_copy_doc p fl c doc ≡ stored
      → c.encode (map_value p fl c stored) ≡ ok bs
      → document_id fl (entries doc) ≡ returns id
      → (is_encrypted_collection collection && is_some fs.encryption.master_key) ≡ false
      → disk.write_error collection id ≡ none
      → insert_document fl fs.indexes collection (entries doc) ≡ returns im
      → (fs' : FileStorage p fl c) × (insert_doc p fl c disk now seeds unlocked fs collection doc
          ≡ done (fs', none))
  unfolding insert_doc make_directory
  insert_doc-returns json fs collection id doc stored bs im copy g has plain writable h =
      let dir = make_directory p fl c disk now seeds fs collection in
      let (fs', w) = write_document-returns dir collection id stored doc bs im g writable h in
      let kept : encrypt_if_sensitive p fl c disk now seeds dir collection stored ≡ ok stored =
        encrypt_if_sensitive-plain p fl c disk now seeds dir collection stored plain in
      let put : store_document p fl c disk now seeds dir collection id doc ≡ done (fs', none) =
        store_document-copy p fl c disk now seeds json dir collection id doc
        ∙ ap (λ m. store_copy p fl c disk now seeds dir collection id m doc) copy
        ∙ store_copy-kept dir collection id stored stored doc kept
        ∙ w in
      (fs', rw has put)

  -- Insert succeeds, and Find returns what it has stored: in a collection whose documents are not
  -- encrypted, or with no master key set, the document comes back as encoding/json leaves it. It has an
  -- identifier, can be encoded, and again after that, it is neither marked as encrypted while a key is
  -- set nor a MEMORY entry, the disk gives no error and the indexes take it.
  pub find_doc-insert_doc_total :
      JsonDecodes fl c
      → (fs : FileStorage p fl c) (collection id : String) (es : Document Float)
        (bs again : List Byte) (im : Indexes fl)
      → c.encode (map_value p fl c (made es)) ≡ ok bs
      → c.encode (map_value p fl c (made (json_document fl es))) ≡ ok again
      → document_id fl es ≡ returns id
      → (is_encrypted_collection collection && is_some fs.encryption.master_key) ≡ false
      → IsPlain p fl c disk now seeds fs es
      → disk.write_error collection id ≡ none
      → disk.read_error collection id ≡ none
      → insert_document fl fs.indexes collection es ≡ returns im
      → (fs' : FileStorage p fl c) × (insert_doc p fl c disk now seeds unlocked fs collection
            (made es)
          ≡ done (fs', none))
        × (find_doc p fl c disk now seeds unlocked fs' collection id
            ≡ done (ok (made (json_document fl es))))
  find_doc-insert_doc_total json fs collection id es bs again im g g' has plain flags writable
        readable h =
      let (fs', inserted) =
        insert_doc-returns json fs collection id (made es) _ again im
          (deep_copy_doc-json p fl c json es bs g) g' has plain writable h in
      (
        fs',
        inserted,
        find_doc-insert_doc p fl c disk now seeds json fs fs' collection id es bs g has plain flags
            readable inserted,
      )

  -- Insert loses a document that cannot be encoded: it reports no error, but the file holds null and
  -- Find returns nil. The collection is one whose documents are not encrypted, or no master key is set,
  -- the disk gives no error and the indexes take the document.
  pub insert_doc_loses :
      JsonDecodes fl c
      → (fs : FileStorage p fl c) (collection id : String) (es : Document Float) (error : String)
        (bs : List Byte) (im : Indexes fl)
      → c.encode (map_value p fl c (made es)) ≡ err error
      → c.encode null ≡ ok bs
      → document_id fl es ≡ returns id
      → (is_encrypted_collection collection && is_some fs.encryption.master_key) ≡ false
      → disk.write_error collection id ≡ none
      → disk.read_error collection id ≡ none
      → insert_document fl fs.indexes collection es ≡ returns im
      → (fs' : FileStorage p fl c) × (insert_doc p fl c disk now seeds unlocked fs collection
            (made es)
          ≡ done (fs', none))
        × (find_doc p fl c disk now seeds unlocked fs' collection id ≡ done (ok nil))
  unfolding deep_copy_doc
  insert_doc_loses json fs collection id es error bs im g n has plain writable readable h =
      let copy : deep_copy_doc p fl c (made es) ≡ nil = rw (g, deep_copy_doc) refl in
      let (fs', inserted) =
        insert_doc-returns json fs collection id (made es) nil bs im copy n has plain writable h in
      (
        fs',
        inserted,
        find_doc-insert_doc_unencodable p fl c disk now seeds json fs fs' collection id es error g
            has plain readable inserted,
      )

  -- Delete succeeds, and Find returns nil afterwards, where a directory holds a name once, the disk
  -- gives no error and the indexes can be updated.
  find_doc-delete_doc_total :
      (fs : FileStorage p fl c) (collection id : String) (im : Indexes fl)
      → Distinct (files_of p fl c fs collection)
      → disk.remove_error collection id ≡ none
      → disk.read_error collection id ≡ none
      → delete_document fl fs.indexes collection id ≡ returns im
      → (fs' : FileStorage p fl c) × (delete_doc p fl c disk now seeds unlocked fs collection id
          ≡ done (fs', none))
        × (find_doc p fl c disk now seeds unlocked fs' collection id ≡ done (ok nil))
  unfolding delete_doc
  find_doc-delete_doc_total fs collection id im d removable readable h =
      let fs' = record (remove_files p fl c disk now seeds fs collection id) { indexes = im } in
      let deleted : delete_doc p fl c disk now seeds unlocked fs collection id ≡ done (fs', none) =
        rw (removable, delete_doc, h, delete_doc) refl in
      (
        fs',
        deleted,
        find_doc-delete_doc p fl c disk now seeds fs fs' collection id d readable deleted,
      )
