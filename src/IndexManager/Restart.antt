-- ===== src/IndexManager/Restart.antt =====
-- What a storage that is opened again has of its indexes (storage/index.go, LoadIndexes).
use knirvbase.Base.{
  String, ◌≡◌, refl, ◌∙◌, subst, Bool, false, Option, none, some, List, [], ◌∷◌, ◌==◌, arith, All,
  eq_iff, eq_refl, Bool-cases, inl, inr,
}
use knirvbase.Base.Text.{str_lt}
use knirvbase.GoMap.{lookup, insert}
use knirvbase.GoMap.Laws.{lookup-insert}
use knirvbase.Result.{Result, ok, err}
use knirvbase.Floats.{Floats}
use knirvbase.Value.{Document}
use knirvbase.Json.Laws.{json_document}
use knirvbase.Index.{IndexType, Index}
use knirvbase.IndexManager.{Indexes, index_key, new_index, create_index, get_index}
use knirvbase.IndexManager.Files.{
  IndexCodec, MetadataFiles, put_entry, IndexDecodes, index_files, save_index_metadata,
  set_metadata, create_saved_index, reinitialized, load_index, load_collection, load_indexes,
}

-- no index below the directory of a collection has this key
abbrev pub AbsentIn : {A : Type 0} → String → String → List (String × A) → Type 0
AbsentIn k collection es = All (λ e. (index_key collection (e.0) == k) ≡ false) es

-- no index of any collection has this key
abbrev pub Absent : {Byte : Type 0} → String → MetadataFiles Byte → Type 0
Absent k files = All (λ e. AbsentIn k (e.0) (e.1)) files

module _ (fl : Floats) {Byte : Type 0} (codec : IndexCodec fl.Float Byte) where
  open fl use {Float}
  open codec use {marshal_index, unmarshal_index}

  lookup-load_index :
      (k collection name : String) (contents : Option (List Byte)) (im : Indexes fl)
      → (index_key collection name == k) ≡ false
      → lookup k (load_index fl codec collection name contents im) ≡ lookup k im
  unfolding load_index
  lookup-load_index k collection name none im h = refl
  lookup-load_index k collection name (some bs) im h = loaded (unmarshal_index bs) refl
    where
      loaded :
          (r : Result (Index Float))
          → unmarshal_index bs ≡ r
          → lookup k (load_index fl codec collection name (some bs) im) ≡ lookup k im
      loaded (err t) e = rw (e, load_index) refl
      loaded (ok idx) e =
          rw
            (
              e,
              load_index,
              lookup-insert (index_key collection name) k (reinitialized fl codec idx) im,
              h,
            )
            refl

  lookup-load_collection :
      (k collection : String) (es : List (String × Option (List Byte))) (im : Indexes fl)
      → AbsentIn k collection es
      → lookup k (load_collection fl codec collection es im) ≡ lookup k im
  unfolding load_collection
  lookup-load_collection k collection [] im h = refl
  lookup-load_collection k collection ((name, contents) ∷ es) im h =
      lookup-load_collection k collection es _ h.1
      ∙ lookup-load_index k collection name contents im h.0

  lookup-load_indexes :
      (k : String) (files : MetadataFiles Byte) (im : Indexes fl)
      → Absent k files
      → lookup k (load_indexes fl codec files im) ≡ lookup k im
  unfolding load_indexes
  lookup-load_indexes k [] im h = refl
  lookup-load_indexes k ((collection, dir) ∷ files) im h =
      lookup-load_indexes k files _ h.1 ∙ lookup-load_collection k collection dir im h.0

  module _ (bs : List Byte) (idx : Index Float) (decoded : unmarshal_index bs ≡ ok idx) where
    lookup-load_index_there :
        (collection name : String) (im : Indexes fl)
        → lookup (index_key collection name) (load_index fl codec collection name (some bs) im)
          ≡ some (reinitialized fl codec idx)
    unfolding load_index
    lookup-load_index_there collection name im =
        let k = index_key collection name in
        let put : lookup k (insert k (reinitialized fl codec idx) im)
            ≡ some (reinitialized fl codec idx) =
          ground (arith, lookup-insert k k (reinitialized fl codec idx) im, eq_refl k) in
        rw (decoded, load_index) put

    load_collection-put_entry :
        (collection name : String) (es : List (String × Option (List Byte))) (im : Indexes fl)
        → AbsentIn (index_key collection name) collection es
        → lookup
            (index_key collection name)
            (load_collection fl codec collection (put_entry name (some bs) es) im)
          ≡ some (reinitialized fl codec idx)
    unfolding load_collection put_entry
    load_collection-put_entry collection name [] im h = lookup-load_index_there collection name im
    load_collection-put_entry collection name ((j, contents) ∷ es) im h =
        elim (Bool-cases (j == name)) [
          | inl same ↦
              let e : j ≡ name = ground (arith, eq_iff j name, same) in
              let clash : (index_key collection name == index_key collection name) ≡ false =
                subst (λ x. (index_key collection x == index_key collection name) ≡ false) e h.0 in
              absurd (ground (arith, eq_refl (index_key collection name), clash))
          | inr other ↦ elim (Bool-cases (str_lt name j)) [
            | inl lt ↦
                rw (other, lt)
                  (lookup-load_collection (index_key collection name) collection
                      ((j, contents) ∷ es) (load_index fl codec collection name (some bs) im) h
                    ∙ lookup-load_index_there collection name im)
            | inr ge ↦
                rw (other, ge)
                  (load_collection-put_entry collection name es
                    (load_index fl codec collection j contents im) h.1)
          ]
        ]

    load_indexes-put_entry :
        (collection name : String) (dir : List (String × Option (List Byte)))
        (files : MetadataFiles Byte) (im : Indexes fl)
        → AbsentIn (index_key collection name) collection dir
        → Absent (index_key collection name) files
        → lookup
            (index_key collection name)
            (load_indexes fl codec (put_entry collection (put_entry name (some bs) dir) files) im)
          ≡ some (reinitialized fl codec idx)
    unfolding load_indexes put_entry
    load_indexes-put_entry collection name dir [] im d h =
        load_collection-put_entry collection name dir im d
    load_indexes-put_entry collection name dir ((j, other_dir) ∷ files) im d h =
        let k = index_key collection name in
        let put = put_entry name (some bs) dir in
        elim (Bool-cases (j == collection)) [
          | inl same ↦ rw same (
              lookup-load_indexes k files (load_collection fl codec collection put im) h.1
              ∙ load_collection-put_entry collection name dir im d)
          | inr other ↦ elim (Bool-cases (str_lt collection j)) [
            | inl lt ↦
                rw (other, lt)
                  (lookup-load_indexes k ((j, other_dir) ∷ files)
                      (load_collection fl codec collection put im) h
                    ∙ load_collection-put_entry collection name dir im d)
            | inr ge ↦
                rw (other, ge)
                  (load_indexes-put_entry collection name dir files
                    (load_collection fl codec j other_dir im) d h.1)
          ]
        ]

  Absent-index_files :
      (k collection : String) (files : MetadataFiles Byte)
      → Absent k files
      → AbsentIn k collection (index_files fl codec files collection)
  unfolding lookup
  Absent-index_files k collection [] h = tt
  Absent-index_files k collection ((j, dir) ∷ files) h = elim (Bool-cases (j == collection)) [
    | inl same ↦
        let e : j ≡ collection = ground (arith, eq_iff j collection, same) in
        rw (same, index_files) (subst (λ c. AbsentIn k c dir) e h.0)
    | inr other ↦ rw (other, index_files) (Absent-index_files k collection files h.1)
  ]

  module _ (decodes : IndexDecodes fl codec) (im : Indexes fl) (files : MetadataFiles Byte)
      (collection name : String) (t : IndexType) (indexed_fields : List String) (unique : Bool)
      (partial_expr : String) (options : Document Float) (bs : List Byte) where
    -- the index with these options
    abbrev pub with_options : Document Float → Index Float
    with_options o = new_index fl collection name t indexed_fields unique partial_expr o

    abbrev pub saved_files : MetadataFiles Byte
    saved_files = set_metadata fl codec files collection name (some bs)

    pub save_index_metadata-saved :
        marshal_index (with_options options) ≡ ok bs
        → save_index_metadata fl codec none files (with_options options) ≡ (saved_files, none)
    unfolding save_index_metadata set_metadata
    save_index_metadata-saved encoded = rw (encoded, save_index_metadata) refl

    pub create_saved_index-saved :
        lookup (index_key collection name) im ≡ none
        → marshal_index (with_options options) ≡ ok bs
        → create_saved_index fl codec none
            (im, files)
            collection
            name
            t
            indexed_fields
            unique
            partial_expr
            options
          ≡ ((insert (index_key collection name) (with_options options) im, saved_files), none)
    unfolding create_saved_index
    create_saved_index-saved free encoded =
        let index : Index Float = with_options options in
        let saved = save_index_metadata-saved encoded in
        let created : create_index fl (λ idx. (save_index_metadata fl codec none files idx).1) im
              collection name t indexed_fields unique partial_expr options
            ≡ (insert (index_key collection name) index im, none) =
          rw (free, create_index, saved, create_index) refl in
        rw (created, free, saved) refl

    pub get_index-load_indexes :
        marshal_index (with_options options) ≡ ok bs
        → Absent (index_key collection name) files
        → get_index fl (load_indexes fl codec saved_files []) collection name
          ≡ some (with_options (json_document fl options))
    unfolding get_index reinitialized set_metadata
    get_index-load_indexes encoded absent =
        load_indexes-put_entry bs _ (decodes _ bs encoded) collection name
          (index_files fl codec files collection) files []
          (Absent-index_files (index_key collection name) collection files absent) absent

    -- With an encoding that comes back, and no file yet with the index's key, an index that is created
    -- without an error is there again when the indexes are loaded into a new manager, with its options as
    -- encoding/json gives them, and empty.
    pub load_indexes-create_saved_index :
        lookup (index_key collection name) im ≡ none
        → marshal_index (with_options options) ≡ ok bs
        → Absent (index_key collection name) files
        → (im' : Indexes fl) × (files' : MetadataFiles Byte) × (create_saved_index fl codec none
              (im, files)
              collection
              name
              t
              indexed_fields
              unique
              partial_expr
              options
            ≡ ((im', files'), none))
          × (get_index fl (load_indexes fl codec files' []) collection name
              ≡ some (
                  new_index fl collection name t indexed_fields unique partial_expr
                    (json_document fl options)))
    load_indexes-create_saved_index free encoded absent = (
      insert (index_key collection name) (with_options options) im,
      saved_files,
      create_saved_index-saved free encoded,
      get_index-load_indexes encoded absent,
    )
