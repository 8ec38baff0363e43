-- ===== src/IndexManager/Files.antt =====
-- The metadata files of go/internal/storage/index.go: saveIndexMetadata, LoadIndexes, and what
-- CreateIndex and DropIndex do to the files. The tree below the base directory holds, for each
-- collection that has a directory "indexes", that directory's directories with their metadata.json, if
-- it is there and can be read. Names are taken to be single path components. The encoding of an Index
-- by encoding/json is a parameter.
use knirvbase.Base.{
  String, ◌≡◌, Bool, Option, none, some, List, [], ◌∷◌, if◌then◌else◌, ◌==◌, is_some,
}
use knirvbase.Base.Text.{str_lt}
use knirvbase.GoMap.{lookup, insert, remove}
use knirvbase.Result.{Result, ok, err}
use knirvbase.Floats.{Floats}
use knirvbase.Value.{Document}
use knirvbase.Json.Laws.{json_document}
use knirvbase.Index.{IndexType, Index, no_structure}
use knirvbase.IndexManager.{
  Indexes, IndexError, index_key, new_structure, new_index, create_index, drop_index,
}

pub record IndexCodec (F Byte : Type 0) : Type 0 where
  pub marshal_index : Index F → Result (List Byte)
  pub unmarshal_index : List Byte → Result (Index F)

abbrev pub MetadataFiles : Type 0 → Type 0
MetadataFiles Byte = List (String × List (String × Option (List Byte)))

-- a directory with an entry by that name, among its entries in the order of ReadDir
unfoldable pub put_entry {ℓ} : {A : Type ℓ} → String → A → List (String × A) → List (String × A)
put_entry k v [] = (k, v) ∷ []
put_entry k v ((j, w) ∷ es) =
    let rest = (j, w) ∷ put_entry k v es in
    if j == k then (k, v) ∷ es else if str_lt k j then (k, v) ∷ (j, w) ∷ es else rest

module _ (fl : Floats) {Byte : Type 0} (codec : IndexCodec fl.Float Byte) where
  open fl use {Float}
  open codec use {marshal_index, unmarshal_index}

  -- An index that is encoded comes back without its structures, and with its options as encoding/json
  -- gives them.
  abbrev pub IndexDecodes : Type 0
  IndexDecodes =
      (idx : Index Float) (bs : List Byte)
      → marshal_index idx ≡ ok bs
      → unmarshal_index bs
        ≡ ok (record idx { options = json_document fl idx.options; structure = no_structure })

  abbrev pub index_files : MetadataFiles Byte → String → List (String × Option (List Byte))
  index_files files collection = elim (lookup collection files) [ none ↦ [] | some dir ↦ dir ]

  -- the directory of an index, made where it is not there, with these contents of metadata.json
  unfoldable pub set_metadata :
      MetadataFiles Byte → String → String → Option (List Byte) → MetadataFiles Byte
  unfolding put_entry
  set_metadata files collection name contents =
      put_entry collection (put_entry name contents (index_files files collection)) files

  -- the contents of metadata.json before a save
  abbrev pub metadata : MetadataFiles Byte → String → String → Option (List Byte)
  metadata files collection name = elim (lookup name (index_files files collection)) [
    | none ↦ none
    | some contents ↦ contents
  ]

  -- saveIndexMetadata; the error of a write and what it leaves in the file
  unfoldable pub save_index_metadata :
      Option (String × Option (List Byte))
      → MetadataFiles Byte
      → Index Float
      → MetadataFiles Byte × Option String
  unfolding set_metadata
  save_index_metadata failed files idx = elim (marshal_index idx) [
    | err e ↦ (
      set_metadata files idx.collection idx.name (metadata files idx.collection idx.name),
      some e,
    )
    | ok bs ↦ elim failed [
      | some left ↦ (set_metadata files idx.collection idx.name (left.1), some (left.0))
      | none ↦ (set_metadata files idx.collection idx.name (some bs), none)
    ]
  ]

  -- CreateIndex with the files
  unfoldable pub create_saved_index :
      Option (String × Option (List Byte))
      → Indexes fl × MetadataFiles Byte
      → String
      → String
      → IndexType
      → List String
      → Bool
      → String
      → Document Float
      → (Indexes fl × MetadataFiles Byte) × Option IndexError
  unfolding create_index save_index_metadata
  create_saved_index failed (im, files) collection name t indexed_fields unique partial_expr
        options =
      let index : Index Float =
        new_index fl collection name t indexed_fields unique partial_expr options in
      let (saved, e) = save_index_metadata failed files index in
      let (im', error) =
        create_index fl (λ idx. (save_index_metadata failed files idx).1) im collection name t
          indexed_fields unique partial_expr options in
      ((im', if is_some (lookup (index_key collection name) im) then files else saved), error)

  -- DropIndex with the files; os.RemoveAll fails or not
  unfoldable pub drop_saved_index :
      Bool
      → Indexes fl × MetadataFiles Byte
      → String
      → String
      → (Indexes fl × MetadataFiles Byte) × Option IndexError
  unfolding drop_index
  drop_saved_index removed (im, files) collection name =
      let (im', error) = drop_index fl im collection name in
      let rest = put_entry collection (remove name (index_files files collection)) files in
      (
        (
          im',
          if is_some error
              then files
              else if removed
              then (if is_some (lookup collection files) then rest else files)
              else files,
        ),
        error,
      )

  -- the index with new, empty structures, as LoadIndexes makes them
  unfoldable pub reinitialized : Index Float → Index Float
  unfolding new_structure
  reinitialized idx = record idx { structure = new_structure fl idx.index_type idx.options }

  -- one turn of the inner loop of LoadIndexes
  unfoldable pub load_index : String → String → Option (List Byte) → Indexes fl → Indexes fl
  unfolding reinitialized
  load_index collection name none im = im
  load_index collection name (some bs) im = elim (unmarshal_index bs) [
    | err e ↦ im
    | ok idx ↦ insert (index_key collection name) (reinitialized idx) im
  ]

  unfoldable pub load_collection :
      String → List (String × Option (List Byte)) → Indexes fl → Indexes fl
  unfolding load_index
  load_collection collection [] im = im
  load_collection collection ((name, contents) ∷ es) im =
      load_collection collection es (load_index collection name contents im)

  -- LoadIndexes, when the base directory can be read
  unfoldable pub load_indexes : MetadataFiles Byte → Indexes fl → Indexes fl
  unfolding load_collection
  load_indexes [] im = im
  load_indexes ((collection, dir) ∷ files) im =
      load_indexes files (load_collection collection dir im)
