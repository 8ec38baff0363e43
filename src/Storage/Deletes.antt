-- ===== src/Storage/Deletes.antt =====
-- go/internal/storage/storage.go: Delete.
use knirvbase.Base.{
  arith, String, ◌≡◌, refl, subst, subst, ◌&&◌, none, if◌then◌else◌, ◌==◌, inl, inr, eq_iff,
  eq_refl, Option-cases,
}
use knirvbase.Base.Int.{ℤ}
use knirvbase.GoMap.{nil, insert, remove, Distinct}
use knirvbase.GoMap.Laws.{lookup-insert, lookup-remove}
use knirvbase.Outcome.{returns}
use knirvbase.Result.{ok}
use knirvbase.Call.{unlocked, done, of_outcome, bind-done, not_done, of_outcome-done}
use knirvbase.Floats.{Floats}
use knirvbase.Json.{Codec}
use knirvbase.IndexManager.{Indexes, delete_document}
use knirvbase.Crypto.{Primitives}
use knirvbase.Storage.{Disk, FileStorage, directory, document_file, files_of}
use knirvbase.Storage.Reading.{read_file, find_doc}
use knirvbase.Storage.Changes.{remove_files, delete_doc}

module _ (p : Primitives) (fl : Floats) (c : Codec fl.Float p.Byte) (disk : Disk p fl c) (now : ℤ)
    (seeds : String → p.Seed × p.Seed) where
  open p use {Byte}
  open fl use {Float}

  -- what os.Remove leaves of the files below the directory
  remove_files-lookup :
      (fs : FileStorage p fl c) (collection id collection' id' : String)
      → Distinct (files_of p fl c fs collection)
      → document_file p fl c (remove_files p fl c disk now seeds fs collection id) collection' id'
        ≡ (if (collection == collection') && (id == id')
            then none
            else document_file p fl c fs collection' id')
  unfolding remove_files
  remove_files-lookup fs collection id collection' id' d =
      elim (Option-cases (directory p fl c fs collection)) [
        | inl h ↦
            let e : (remove_files p fl c disk now seeds fs collection id).documents ≡ fs.documents =
              rw (h, remove_files) refl in
            rw e (ground (arith, h, eq_iff collection collection'))
        | inr (dir, h) ↦
            let e : (remove_files p fl c disk now seeds fs collection id).documents
                ≡ insert collection (remove id dir) fs.documents =
              rw (h, remove_files) refl in
            let same : files_of p fl c fs collection ≡ dir = rw (h, files_of) refl in
            let d' : Distinct dir = subst Distinct same d in
            rw e (
              ground (
                arith,
                h,
                eq_iff collection collection',
                lookup-insert collection collection' (remove id dir) fs.documents,
                lookup-remove id id' dir d',
              ))
      ]

  delete_doc-done :
      (fs fs' : FileStorage p fl c) (collection id : String)
      → delete_doc p fl c disk now seeds unlocked fs collection id ≡ done (fs', none)
      → (im : Indexes fl) × (delete_document fl fs.indexes collection id ≡ returns im)
        × (fs' ≡ record (remove_files p fl c disk now seeds fs collection id) { indexes = im })
  unfolding delete_doc
  delete_doc-done fs fs' collection id h = elim (Option-cases (disk.remove_error collection id)) [
    | inr (e, f) ↦ elim (not_done (rw (f, delete_doc) at h)) [ ]
    | inl f ↦
        let (im, g, k) =
          bind-done (of_outcome (delete_document fl fs.indexes collection id)) _
            (rw (f, delete_doc) at h) in
        (im, of_outcome-done _ g, cc)
  ]

  delete_doc-removes :
      (fs fs' : FileStorage p fl c) (collection id : String)
      → Distinct (files_of p fl c fs collection)
      → delete_doc p fl c disk now seeds unlocked fs collection id ≡ done (fs', none)
      → document_file p fl c fs' collection id ≡ none
  delete_doc-removes fs fs' collection id d h =
      let (im, _, same) = delete_doc-done fs fs' collection id h in
      rw
        (same, remove_files-lookup fs collection id collection id d, eq_refl collection, eq_refl id)
        refl

  -- After a Delete that reports no error, Find returns nil, where a directory holds a name once.
  pub find_doc-delete_doc :
      (fs fs' : FileStorage p fl c) (collection id : String)
      → Distinct (files_of p fl c fs collection)
      → disk.read_error collection id ≡ none
      → delete_doc p fl c disk now seeds unlocked fs collection id ≡ done (fs', none)
      → find_doc p fl c disk now seeds unlocked fs' collection id ≡ done (ok nil)
  unfolding find_doc read_file
  find_doc-delete_doc fs fs' collection id d readable h =
      let gone = delete_doc-removes fs fs' collection id d h in
      rw (readable, read_file, gone, read_file) refl
