-- ===== src/Tests/RestartTests.antt =====
-- Indexes that are written and loaded again (go/internal/storage/index.go). A byte is a whole index
-- here, as encoding/json gives it back.
use knirvbase.Base.{ℕ, String, ◌≡◌, refl, ap, sym, false, none, some, List, [], ◌∷◌}
use knirvbase.GoMap.{lookup, insert}
use knirvbase.Outcome.{returns}
use knirvbase.Result.{Result, ok, err, ok-injective}
use knirvbase.Value.{Document, str}
use knirvbase.Value.Print.{sprint}
use knirvbase.Json.Laws.{json_document}
use knirvbase.Index.{
  insert_structure, matches_partial, build_composite_key, btree_index, Index, btree, no_structure,
}
use knirvbase.IndexManager.{
  Indexes, new_index, get_index, query_index, index_key, insert_document, insert_index,
}
use knirvbase.IndexManager.Files.{
  IndexCodec, MetadataFiles, IndexDecodes, create_saved_index, load_indexes, set_metadata,
}
use knirvbase.IndexManager.Restart.{load_indexes-create_saved_index}
use knirvbase.IndexManager.Forgets.{restarted_index_forgets}
use knirvbase.Tests.WholeFloats.{whole}

abbrev as_written : Index ℕ → Index ℕ
as_written idx = record idx { options = json_document whole idx.options; structure = no_structure }

abbrev first_index : List (Index ℕ) → Result (Index ℕ)
first_index [] = err "unexpected end of JSON input"
first_index (idx ∷ rest) = ok idx

abbrev whole_indexes : IndexCodec ℕ (Index ℕ)
whole_indexes = record {
  marshal_index = λ idx. ok (as_written idx ∷ []);
  unmarshal_index = first_index;
}

whole_indexes-IndexDecodes : IndexDecodes whole whole_indexes
whole_indexes-IndexDecodes idx bs h = ap first_index (sym (ok-injective h))

abbrev kinds : Index ℕ
kinds = new_index whole "memory" "kind" btree ("kind" ∷ []) false "" []

abbrev metadata_files : MetadataFiles (Index ℕ)
metadata_files = ("auth", ("name", none) ∷ []) ∷ ("memory", ("tags", none) ∷ []) ∷ []

load_indexes-create_saved_index_example :
    (im' : Indexes whole) × (files' : MetadataFiles (Index ℕ)) × (create_saved_index whole
        whole_indexes none
        ([], metadata_files)
        "memory"
        "kind"
        btree
        ("kind" ∷ [])
        false
        ""
        []
      ≡ ((im', files'), none))
    × (get_index whole (load_indexes whole whole_indexes files' []) "memory" "kind"
        ≡ some
            (new_index whole "memory" "kind" btree ("kind" ∷ []) false "" (json_document whole [])))
unfolding lookup index_key
load_indexes-create_saved_index_example =
    load_indexes-create_saved_index whole whole_indexes whole_indexes-IndexDecodes [] metadata_files
      "memory" "kind" btree ("kind" ∷ []) false "" [] (as_written kinds ∷ []) refl refl
      ((refl, tt), ((refl, tt), tt))

abbrev notes_with : String → List (String × Index ℕ)
notes_with i =
    ("memory:kind", record kinds { structure = btree_index (("note", i ∷ []) ∷ []) }) ∷ []

abbrev note : Document ℕ
note = ("id", str "d1") ∷ ("kind", str "note") ∷ []

restarted_index_forgets_example :
    (query_index whole (notes_with "d1") "memory" "kind" (("value", str "note") ∷ [])
      ≡ returns ("d1" ∷ [], none))
    × (query_index whole
          (load_indexes whole whole_indexes
            (set_metadata whole whole_indexes metadata_files "memory" "kind"
              (some (as_written kinds ∷ [])))
            [])
          "memory"
          "kind"
          (("value", str "note") ∷ [])
        ≡ returns ([], none))
unfolding index_key insert_document insert_index create_saved_index lookup insert matches_partial
    build_composite_key sprint insert_structure
restarted_index_forgets_example =
    restarted_index_forgets whole whole_indexes [] (("memory:kind", kinds) ∷ []) (notes_with "d1")
      metadata_files
      (set_metadata whole whole_indexes metadata_files "memory" "kind"
        (some (as_written kinds ∷ [])))
      "memory" "kind" ("kind" ∷ []) "" [] (as_written kinds ∷ []) note (("value", str "note") ∷ [])
      "d1" (str "note") whole_indexes-IndexDecodes refl refl ((refl, tt), ((refl, tt), tt)) refl
      refl refl refl refl refl
