-- ===== src/Storage/Frame.antt =====
-- go/internal/storage/storage.go: what an Insert leaves as it was.
use knirvbase.Base.{
  arith, String, ◌≡◌, refl, sym, ◌∙◌, true, false, Option, none, some, List, inl, inr, eq_iff,
  Option-cases, is_some,
}
use knirvbase.Base.Int.{ℤ}
use knirvbase.GoMap.{GoMap, entries, lookup, Distinct}
use knirvbase.GoMap.Laws.{lookup-insert}
use knirvbase.Outcome.{returns}
use knirvbase.Result.{Result-cases}
use knirvbase.Call.{unlocked, done, of_outcome, bind-done, of_outcome-done}
use knirvbase.Floats.{Floats}
use knirvbase.Value.{Value}
use knirvbase.Json.{Codec, JsonDecodes}
use knirvbase.IndexManager.{Indexes, insert_document, document_id}
use knirvbase.Crypto.{Primitives}
use knirvbase.Storage.{
  Disk, FileStorage, document_file, files_of, set_file, deep_copy_doc, map_value,
}
use knirvbase.Storage.Copies.{deep_copy_doc-is_memory_type}
use knirvbase.Storage.Directories.{OnlyFile, set_file-OnlyFile}
use knirvbase.Storage.Files.{
  is_memory_type, move_blob, encrypt_if_sensitive, write_file, index_document, write_document,
  store_copy, store_document, make_directory, insert_doc,
}

module _ (p : Primitives) (fl : Floats) (c : Codec fl.Float p.Byte) (disk : Disk p fl c) (now : ℤ)
    (seeds : String → p.Seed × p.Seed) where
  open p use {Byte}
  open fl use {Float}

  -- what a call changes at most: the file of one document, the indexes
  pub record Touches (fs fs' : FileStorage p fl c) (collection id : String) : Type 0 where
    pub only_file : OnlyFile p fl c fs fs' collection id
    pub same_blobs : fs'.blobs ≡ fs.blobs
    pub same_encryption : fs'.encryption ≡ fs.encryption

  move_blob-text :
      (fs : FileStorage p fl c) (collection : String) (doc : GoMap (Value Float))
      → is_memory_type p fl c (lookup "entryType" (entries doc)) ≡ false
      → move_blob p fl c disk now seeds fs collection doc ≡ returns (fs, doc)
  unfolding move_blob
  move_blob-text fs collection doc h = rw h refl

  make_directory-file :
      (fs : FileStorage p fl c) (collection collection' id' : String)
      → document_file p fl c (make_directory p fl c disk now seeds fs collection) collection' id'
        ≡ document_file p fl c fs collection' id'
  unfolding make_directory lookup
  make_directory-file fs collection collection' id' = ground (
    arith,
    eq_iff collection collection',
    lookup-insert collection collection' (files_of p fl c fs collection) fs.documents,
  )

  make_directory-files_of :
      (fs : FileStorage p fl c) (collection collection' : String)
      → files_of p fl c (make_directory p fl c disk now seeds fs collection) collection'
        ≡ files_of p fl c fs collection'
  unfolding make_directory
  make_directory-files_of fs collection collection' = ground (
    arith,
    eq_iff collection collection',
    lookup-insert collection collection' (files_of p fl c fs collection) fs.documents,
  )

  set_file-Touches :
      (fs : FileStorage p fl c) (collection id : String) (o : Option (List Byte))
      → ((collection' : String) → Distinct (files_of p fl c fs collection'))
      → Touches fs (set_file p fl c fs collection id o) collection id
  unfolding set_file
  set_file-Touches fs collection id (some bs) d = record {
    only_file = set_file-OnlyFile p fl c fs collection id (some bs) d;
    same_blobs = refl;
    same_encryption = refl;
  }
  set_file-Touches fs collection id none d = record {
    only_file = set_file-OnlyFile p fl c fs collection id none d;
    same_blobs = refl;
    same_encryption = refl;
  }

  pub set_file-indexes :
      (fs : FileStorage p fl c) (collection id : String) (o : Option (List Byte))
      → (set_file p fl c fs collection id o).indexes ≡ fs.indexes
  unfolding set_file
  set_file-indexes fs collection id (some bs) = refl
  set_file-indexes fs collection id none = refl

  write_file-set_file :
      (fs : FileStorage p fl c) (collection id : String) (bs : List Byte)
      → (o : Option (List Byte)) × ((write_file p fl c disk now seeds fs collection id bs).0
          ≡ set_file p fl c fs collection id o)
  unfolding write_file
  write_file-set_file fs collection id bs = elim (Option-cases (disk.write_error collection id)) [
    | inl h ↦ (some bs, rw (h, write_file) refl)
    | inr ((text, o), h) ↦ (o, rw (h, write_file) refl)
  ]

  written-Touches :
      (fs : FileStorage p fl c) (collection id : String) (bs : List Byte)
      → ((collection' : String) → Distinct (files_of p fl c fs collection'))
      → Touches fs ((write_file p fl c disk now seeds fs collection id bs).0) collection id
        × ((write_file p fl c disk now seeds fs collection id bs).0.indexes ≡ fs.indexes)
  written-Touches fs collection id bs d =
      let (o, h) = write_file-set_file fs collection id bs in
      rw h (set_file-Touches fs collection id o d, set_file-indexes fs collection id o)

  pub index_document-done :
      (fs fs' : FileStorage p fl c) (collection : String) (doc : GoMap (Value Float))
      (e : Option String)
      → index_document p fl c disk now seeds fs collection doc ≡ done (fs', e)
      → (im : Indexes fl) × (insert_document fl fs.indexes collection (entries doc) ≡ returns im)
        × (fs' ≡ record fs { indexes = im })
        × (e ≡ none)
  unfolding index_document
  index_document-done fs fs' collection doc e h =
      let (im, f, k) =
        bind-done (of_outcome (insert_document fl fs.indexes collection (entries doc))) _ h in
      (im, of_outcome-done _ f, cc, cc)

  write_document-Touches :
      (fs fs' : FileStorage p fl c) (collection id : String) (stored doc : GoMap (Value Float))
      (e : Option String)
      → ((collection' : String) → Distinct (files_of p fl c fs collection'))
      → write_document p fl c disk now seeds fs collection id stored doc ≡ done (fs', e)
      → Touches fs fs' collection id × (is_some e ≡ true → fs'.indexes ≡ fs.indexes)
  unfolding write_document
  write_document-Touches fs fs' collection id stored doc e d h =
      elim (Result-cases (c.encode (map_value p fl c stored))) [
        | inr (text, g) ↦
            let k : done (fs, some text) ≡ done (fs', e) = rw (g, write_document) at h in
            let same : fs ≡ fs' = cc in
            rw (← same) (
              record { only_file = λ _ _ _. refl; same_blobs = refl; same_encryption = refl },
              λ _. refl,
            )
        | inl (bs, g) ↦
            elim (Option-cases ((write_file p fl c disk now seeds fs collection id bs).1)) [
              | inr (text, f) ↦
                  let k : done ((write_file p fl c disk now seeds fs collection id bs).0, some text)
                      ≡ done (fs', e) =
                    rw (g, write_document, f, write_document) at h in
                  let same : (write_file p fl c disk now seeds fs collection id bs).0 ≡ fs' = cc in
                  let (w, i) = written-Touches fs collection id bs d in rw (← same) (w, λ _. i)
              | inl f ↦
                  let k : index_document p fl c disk now seeds
                        ((write_file p fl c disk now seeds fs collection id bs).0) collection doc
                      ≡ done (fs', e) =
                    rw (g, write_document, f, write_document) at h in
                  let (im, _, same, no_error) = index_document-done _ fs' collection doc e k in
                  let (w, i) = written-Touches fs collection id bs d in
                  rw (same, no_error)
                    (
                      record {
                        only_file = w.only_file;
                        same_blobs = w.same_blobs;
                        same_encryption = w.same_encryption;
                      },
                      λ x. cc,
                    )
            ]
      ]

  store_copy-Touches :
      (fs fs' : FileStorage p fl c) (collection id : String) (copy doc : GoMap (Value Float))
      (e : Option String)
      → ((collection' : String) → Distinct (files_of p fl c fs collection'))
      → store_copy p fl c disk now seeds fs collection id copy doc ≡ done (fs', e)
      → Touches fs fs' collection id × (is_some e ≡ true → fs'.indexes ≡ fs.indexes)
  unfolding store_copy
  store_copy-Touches fs fs' collection id copy doc e d h =
      elim (Result-cases (encrypt_if_sensitive p fl c disk now seeds fs collection copy)) [
        | inr (text, g) ↦
            let k : done (fs, some text) ≡ done (fs', e) = rw (g, store_copy) at h in
            let same : fs ≡ fs' = cc in
            rw (← same) (
              record { only_file = λ _ _ _. refl; same_blobs = refl; same_encryption = refl },
              λ _. refl,
            )
        | inl (stored, g) ↦
            write_document-Touches fs fs' collection id stored doc e d (rw (g, store_copy) at h)
      ]

  -- The blob of a document is never moved to a file of its own.
  pub store_document-copy :
      JsonDecodes fl c
      → (fs : FileStorage p fl c) (collection id : String) (doc : GoMap (Value Float))
      → store_document p fl c disk now seeds fs collection id doc
        ≡ store_copy p fl c disk now seeds fs collection id (deep_copy_doc p fl c doc) doc
  unfolding store_document
  store_document-copy json fs collection id doc =
      rw
        (move_blob-text fs collection (deep_copy_doc p fl c doc)
          (deep_copy_doc-is_memory_type p fl c json doc))
        refl

  -- Insert changes at most the file of its document and the indexes, even where it fails: the files
  -- of all other documents, the blobs and the keys stay as they are. Where it returns an error, the
  -- indexes stay too.
  pub insert_doc-Touches :
      JsonDecodes fl c
      → (fs fs' : FileStorage p fl c) (collection : String) (doc : GoMap (Value Float))
        (e : Option String)
      → ((collection' : String) → Distinct (files_of p fl c fs collection'))
      → insert_doc p fl c disk now seeds unlocked fs collection doc ≡ done (fs', e)
      → (id : String) × (document_id fl (entries doc) ≡ returns id)
        × Touches fs fs' collection id
        × (is_some e ≡ true → fs'.indexes ≡ fs.indexes)
  unfolding insert_doc make_directory
  insert_doc-Touches json fs fs' collection doc e d h =
      let (id, f, g) = bind-done (of_outcome (document_id fl (entries doc))) _ h in
      let (w, i) =
        store_copy-Touches (make_directory p fl c disk now seeds fs collection) fs' collection id
          (deep_copy_doc p fl c doc) doc e
          (λ collection'. rw (make_directory-files_of fs collection collection') (d collection'))
          (sym (store_document-copy json _ collection id doc) ∙ g) in
      (
        id,
        of_outcome-done _ f,
        record {
          only_file = λ collection' id' other.
              w.only_file collection' id' other ∙ make_directory-file fs collection collection' id';
          same_blobs = w.same_blobs;
          same_encryption = w.same_encryption;
        },
        i,
      )
