-- ===== src/Storage/IndexMethods.antt =====
-- go/internal/storage/storage.go: the index methods of FileStorage, which it passes on to its index
-- manager. They take no lock of the storage.
use knirvbase.Base.{String, Bool, Option, List, ◌≡◌, refl}
use knirvbase.Base.Int.{ℤ}
use knirvbase.Outcome.{Outcome}
use knirvbase.Floats.{Floats}
use knirvbase.Value.{Document}
use knirvbase.Json.{Codec}
use knirvbase.Crypto.{Primitives}
use knirvbase.Index.{Index, IndexType}
use knirvbase.IndexManager
use knirvbase.IndexManager.{IndexError}
use knirvbase.Storage.{Disk, FileStorage}
use knirvbase.Storage.Instance.{file_store}
use knirvbase.Database.{
  DistributedDatabase, create_db_index, drop_db_index, get_db_index, get_db_indexes_for_collection,
  query_db_index,
}

module _ (p : Primitives) (fl : Floats) (c : Codec fl.Float p.Byte) where
  open fl use {Float}

  abbrev Fs : Type 0
  Fs = FileStorage p fl c

  -- `saved` is the error of saving the metadata of the new index.
  create_index :
      (Index Float → Option String)
      → Fs
      → String
      → String
      → IndexType
      → List String
      → Bool
      → String
      → Document Float
      → Fs × Option IndexError
  create_index saved fs collection name index_type indexed_fields unique partial_expr options =
      let (im, e) =
        IndexManager.create_index fl saved fs.indexes collection name index_type indexed_fields
          unique partial_expr options in
      (record fs { indexes = im }, e)

  drop_index : Fs → String → String → Fs × Option IndexError
  drop_index fs collection name =
      let (im, e) = IndexManager.drop_index fl fs.indexes collection name in
      (record fs { indexes = im }, e)

  get_index : Fs → String → String → Option (Index Float)
  get_index fs collection name = IndexManager.get_index fl fs.indexes collection name

  get_indexes_for_collection : Fs → String → List (Index Float)
  get_indexes_for_collection fs collection =
      IndexManager.get_indexes_for_collection fl fs.indexes collection

  query_index : Fs → String → String → Document Float → Outcome (List String × Option IndexError)
  query_index fs collection name query =
      IndexManager.query_index fl fs.indexes collection name query

  -- The index methods of a database over a file storage do to the storage what its own methods do, and
  -- nothing else.
  db_index_methods :
      (disk : Disk p fl c) (now : ℤ) (seeds : String → p.Seed × p.Seed)
      (writer_waits : String → Bool) (Byte : Type 0) (saved : Index Float → Option String)
      (db : DistributedDatabase fl (file_store p fl c disk now seeds writer_waits) Byte)
      (collection name : String) (index_type : IndexType) (indexed_fields : List String)
      (unique : Bool) (partial_expr : String) (options query : Document Float)
      → (create_db_index fl
            (file_store p fl c disk now seeds writer_waits)
            Byte
            saved
            db
            collection
            name
            index_type
            indexed_fields
            unique
            partial_expr
            options
          ≡ (let (fs, e) =
                create_index saved db.storage collection name index_type indexed_fields unique
                  partial_expr options in
              (record db { storage = fs }, e)))
        × (drop_db_index fl (file_store p fl c disk now seeds writer_waits) Byte db collection name
            ≡ (let (fs, e) = drop_index db.storage collection name in
                (record db { storage = fs }, e)))
        × (get_db_index fl (file_store p fl c disk now seeds writer_waits) Byte db collection name
            ≡ get_index db.storage collection name)
        × (get_db_indexes_for_collection fl
              (file_store p fl c disk now seeds writer_waits)
              Byte
              db
              collection
            ≡ get_indexes_for_collection db.storage collection)
        × (query_db_index fl
              (file_store p fl c disk now seeds writer_waits)
              Byte
              db
              collection
              name
              query
            ≡ query_index db.storage collection name query)
  unfolding create_index drop_index get_index get_indexes_for_collection query_index create_db_index
      drop_db_index get_db_index get_db_indexes_for_collection query_db_index
  db_index_methods disk now seeds writer_waits Byte saved db collection name index_type
        indexed_fields unique partial_expr options query =
      (refl, refl, refl, refl, refl)
