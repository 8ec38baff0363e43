-- ===== src/IndexManager/Forgets.antt =====
-- What queries find in the indexes of a storage that is opened again (storage/index.go).
use knirvbase.Base.{
  String, ◌≡◌, refl, sym, ap, ◌∙◌, true, false, none, some, List, [], ◌∷◌, if◌then◌else◌, eq_refl,
}
use knirvbase.GoMap.{lookup, insert}
use knirvbase.GoMap.Laws.{lookup-insert}
use knirvbase.Outcome.{returns}
use knirvbase.Result.{ok}
use knirvbase.Floats.{Floats}
use knirvbase.Value.{Value, Document, str}
use knirvbase.Value.Print.{sprint}
use knirvbase.Json.Laws.{json_document}
use knirvbase.Index.{btree, Index, matches_partial, build_composite_key}
use knirvbase.IndexManager.{
  Indexes, new_structure, new_index, get_index, insert_document, query_index, query_structure,
  index_key, query_btree,
}
use knirvbase.IndexManager.Lookup.{query-BtreeAt, query-insert_document}
use knirvbase.IndexManager.Files.{
  IndexCodec, MetadataFiles, IndexDecodes, set_metadata, create_saved_index, load_indexes,
}
use knirvbase.IndexManager.Restart.{Absent, create_saved_index-saved, get_index-load_indexes}

module _ (fl : Floats) where
  open fl use {Float}

  -- A B-tree index that is not unique is created without an error, with an encoding of indexes that
  -- comes back and a key that no index and no file has. A document with a text under "id" that its
  -- partial expression matches is then inserted into its collection. A query for the document's key
  -- finds the document, but after a restart, when the index has been loaded from its file, the same
  -- query finds nothing: LoadIndexes does not read the documents.
  pub restarted_index_forgets :
      {Byte : Type 0} (codec : IndexCodec Float Byte) (im im1 im2 : Indexes fl)
      (files files1 : MetadataFiles Byte) (collection name : String) (indexed_fields : List String)
      (partial_expr : String) (options : Document Float) (bs : List Byte)
      (doc query : Document Float) (id : String) (value : Value Float)
      → IndexDecodes fl codec
      → lookup (index_key collection name) im ≡ none
      → codec.marshal_index
          (new_index fl collection name btree indexed_fields false partial_expr options)
        ≡ ok bs
      → Absent (index_key collection name) files
      → create_saved_index fl codec none
          (im, files)
          collection
          name
          btree
          indexed_fields
          false
          partial_expr
          options
        ≡ ((im1, files1), none)
      → lookup "id" doc ≡ some (str id)
      → matches_partial fl
          (new_index fl collection name btree indexed_fields false partial_expr options)
          doc
        ≡ true
      → lookup "value" query ≡ some value
      → sprint fl value ≡ build_composite_key fl indexed_fields doc
      → insert_document fl im1 collection doc ≡ returns im2
      → (query_index fl im2 collection name query ≡ returns (id ∷ [], none))
        × (query_index fl (load_indexes fl codec files1 []) collection name query
            ≡ returns ([], none))
  unfolding query_index query_structure query_btree new_structure get_index lookup
  restarted_index_forgets codec im im1 im2 files files1 collection name indexed_fields partial_expr
        options bs doc query id value decodes free encoded absent created has matching asked key
        inserted =
      let index : Index Float =
        new_index fl collection name btree indexed_fields false partial_expr options in
      let k : String = index_key collection name in
      let same : ((insert k index im, set_metadata fl codec files collection name (some bs)), none)
          ≡ ((im1, files1), none) =
        sym (
          create_saved_index-saved fl codec decodes im files collection name btree indexed_fields
            false partial_expr options bs free encoded)
        ∙ created in
      let held : get_index fl im1 collection name ≡ some index = rw (← ap (λ r. r.0.0) same) (
        lookup-insert k k index im ∙ ap (λ b. if b then some index else lookup k im) (eq_refl k)) in
      let loaded : get_index fl (load_indexes fl codec files1 []) collection name
          ≡ some (
              new_index fl collection name btree indexed_fields false partial_expr
                (json_document fl options)) =
        rw (← ap (λ r. r.0.1) same) (
          get_index-load_indexes fl codec decodes im files collection name btree indexed_fields
            false partial_expr options bs encoded absent) in
      (
        query-insert_document fl im1 im2 collection name index [] id doc query value
            (record { there = held; of_collection = refl; of_type = refl; holds = refl }) has refl
            matching asked key inserted,
        query-BtreeAt fl (load_indexes fl codec files1 []) collection name
              (new_index fl collection name btree indexed_fields false partial_expr
                (json_document fl options))
              [] query
              (record { there = loaded; of_collection = refl; of_type = refl; holds = refl })
            ∙ rw (asked, query_btree) refl,
      )
