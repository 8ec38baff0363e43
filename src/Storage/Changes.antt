-- ===== src/Storage/Changes.antt =====
-- go/internal/storage/storage.go: Update and Delete of FileStorage. A time, the seeds of the fields to
-- encrypt and the disk are parameters; the lock that a call finds is an argument.
use knirvbase.Base.{String, Option, none, some, if◌then◌else◌}
use knirvbase.Base.Int.{ℤ}
use knirvbase.GoMap.{GoMap, nil, made, entries, insert, remove, insert_all}
use knirvbase.Result.{ok, err}
use knirvbase.Call.{Mutex, Call, done, ◌>>=◌, of_outcome, with_lock}
use knirvbase.Floats.{Floats}
use knirvbase.Value.{Value}
use knirvbase.Json.{Codec}
use knirvbase.IndexManager.{delete_document}
use knirvbase.Crypto.{Primitives}
use knirvbase.Storage.{Disk, FileStorage, directory, blob_path}
use knirvbase.Storage.Files.{insert_doc}
use knirvbase.Storage.Reading.{find_doc}

module _ (p : Primitives) (fl : Floats) (c : Codec fl.Float p.Byte) where
  open p use {Byte, Seed}
  open fl use {Float}

  module _ (disk : Disk p fl c) (now : ℤ) (seeds : String → Seed × Seed) where
    unfoldable pub update_doc :
        Mutex
        → FileStorage p fl c
        → String
        → String
        → GoMap (Value Float)
        → Call (FileStorage p fl c × Option String)
    unfolding find_doc insert_doc
    update_doc m fs collection id update = with_lock m λ held. do
      found ← find_doc p fl c disk now seeds held fs collection id
      elim found [
        | err e ↦ done (fs, some e)
        | ok nil ↦ done (fs, some "not found")
        | ok (made es) ↦
            insert_doc p fl c disk now seeds held fs collection
              (made (insert_all (entries update) es))
      ]

    -- the two calls of os.Remove, when the first one succeeds
    unfoldable pub remove_files : FileStorage p fl c → String → String → FileStorage p fl c
    remove_files fs collection id = record fs {
      documents = elim (directory p fl c fs collection) [
        | none ↦ fs.documents
        | some dir ↦ insert collection (remove id dir) fs.documents
      ];
      blobs =
          if disk.blob_stays (blob_path p fl c fs collection id)
          then fs.blobs
          else remove (blob_path p fl c fs collection id) fs.blobs;
    }

    unfoldable pub delete_doc :
        Mutex → FileStorage p fl c → String → String → Call (FileStorage p fl c × Option String)
    unfolding remove_files delete_document
    delete_doc m fs collection id = with_lock m λ held. elim (disk.remove_error collection id) [
      | some e ↦ done (fs, some e)
      | none ↦ do
        im ← of_outcome (delete_document fl fs.indexes collection id)
        done (record (remove_files fs collection id) { indexes = im }, none)
    ]
