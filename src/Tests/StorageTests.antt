-- ===== src/Tests/StorageTests.antt =====
-- Runs of go/internal/storage/storage.go on a small disk.
use knirvbase.Base.{String, ◌≡◌, refl, true, false, none, some, List, [], ◌∷◌, ◌==◌, inl, is_some}
use knirvbase.Base.Int.{pos}
use knirvbase.GoMap.{made, lookup, insert}
use knirvbase.Outcome.{returns}
use knirvbase.Result.{ok}
use knirvbase.Call.{unlocked, done, deadlocked}
use knirvbase.Value.{Document, str, int, fields_of}
use knirvbase.Json.{json_value, as_object}
use knirvbase.Json.Laws.{json_document}
use knirvbase.IndexManager.{document_id, insert_document}
use knirvbase.Storage.Inserts.{find_doc-insert_doc_total}
use knirvbase.Storage.{Disk, FileStorage, is_encrypted_collection, deep_copy_doc}
use knirvbase.Storage.Files.{insert_doc}
use knirvbase.Storage.Reading.{find_doc, find_all}
use knirvbase.Storage.Frame.{Touches, insert_doc-Touches}
use knirvbase.Storage.Locks.{find_all_deadlocks}
use knirvbase.Tests.WholeFloats.{whole}
use knirvbase.Tests.TestLibraries.{
  test_primitives, texts_codec, texts_codec-JsonDecodes, to_json, of_json,
}

abbrev pub disk : Disk test_primitives whole texts_codec
disk = record {
  write_error = λ c id. none;
  remove_error = λ c id. none;
  read_error = λ c id. none;
  list_error = λ c. none;
  blob_written = λ path bs. some bs;
  blob_stays = λ path. false;
  other_file = λ path. none;
}

abbrev pub seeds : String → String × String
seeds field = ("s1", "s2")

abbrev pub storage_of :
    List (String × List (String × List String)) → FileStorage test_primitives whole texts_codec
storage_of documents = record {
  base_dir = "data";
  documents = documents;
  blobs = [];
  indexes = [];
  encryption = record { master_key = none; key_cache = [] };
}

abbrev pub file : List String
file = "f" ∷ "id" ∷ "a" ∷ "title" ∷ "x" ∷ []

abbrev pub note : Document whole.Float
note = ("id", str "a") ∷ ("title", str "x") ∷ []

abbrev pub one_note : FileStorage test_primitives whole texts_codec
one_note = storage_of (("notes", ("a", file) ∷ []) ∷ [])

inserted :
    insert_doc test_primitives whole texts_codec disk
      (pos 1)
      seeds
      unlocked
      (storage_of [])
      "notes"
      (made note)
    ≡ done (one_note, none)
unfolding insert_doc to_json of_json deep_copy_doc lookup insert json_value fields_of as_object
inserted = refl

abbrev broken : Document whole.Float
broken = ("id", str "a") ∷ ("size", int (pos 3)) ∷ []

abbrev null_note : FileStorage test_primitives whole texts_codec
null_note = storage_of (("notes", ("a", "n" ∷ []) ∷ []) ∷ [])

insert_doc-Touches_example :
    (id : String) × (document_id whole note ≡ returns id)
    × Touches test_primitives whole texts_codec disk
        (pos 1)
        seeds
        (storage_of [])
        one_note
        "notes"
        id
    × (is_some {A = String} none ≡ true → one_note.indexes ≡ (storage_of []).indexes)
unfolding lookup
insert_doc-Touches_example =
    insert_doc-Touches test_primitives whole texts_codec disk (pos 1) seeds texts_codec-JsonDecodes
      (storage_of []) one_note "notes" (made note) none (λ collection. tt) inserted

find_all_deadlocks_example :
    find_all test_primitives whole texts_codec disk
      (pos 1)
      seeds
      (λ id. id == "a")
      unlocked
      one_note
      "notes"
    ≡ deadlocked
unfolding find_all lookup
find_all_deadlocks_example =
    find_all_deadlocks test_primitives whole texts_codec disk (pos 1) seeds (λ id. id == "a")
      one_note "notes" refl (inl refl)

find_doc-insert_doc_total_example :
    (fs' : FileStorage test_primitives whole texts_codec) × (insert_doc test_primitives whole
        texts_codec disk
        (pos 1)
        seeds
        unlocked
        (storage_of [])
        "notes"
        (made note)
      ≡ done (fs', none))
    × (find_doc test_primitives whole texts_codec disk (pos 1) seeds unlocked fs' "notes" "a"
        ≡ done (ok (made (json_document whole note))))
unfolding to_json document_id is_encrypted_collection lookup json_value fields_of json_document
    insert_document
find_doc-insert_doc_total_example =
    find_doc-insert_doc_total test_primitives whole texts_codec disk (pos 1) seeds
      texts_codec-JsonDecodes (storage_of []) "notes" "a" note file file [] refl refl refl refl
      (refl, refl) refl refl refl
