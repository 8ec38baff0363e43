-- ===== src/Tests/IndexTests.antt =====
-- A unique and a plain B-tree index of a collection (go/internal/storage/index.go).
use knirvbase.Base.{ℕ, ◌≡◌, refl, true, false, none, [], ◌∷◌, ◌++◌, arith}
use knirvbase.GoMap.{lookup, insert}
use knirvbase.Outcome.{returns}
use knirvbase.Value.{Document, str}
use knirvbase.Value.Print.{sprint}
use knirvbase.Index.{
  Index, btree, btree_index, Buckets, bucket, append_id, delete_id, insert_btree, matches_partial,
  build_composite_key, insert_structure,
}
use knirvbase.Index.Buckets.{AtMostOne, unique-AtMostOne}
use knirvbase.IndexManager.{Indexes, get_index, insert_document, delete_document, query_index}
use knirvbase.IndexManager.Lookup.{
  query-insert_document, query-delete_document-insert_document, BtreeAt,
}
use knirvbase.Tests.WholeFloats.{whole}

abbrev buckets : Buckets
buckets = ("x", "d1" ∷ []) ∷ ("y", "d2" ∷ []) ∷ []

abbrev index : Index ℕ
index = record {
  name = "kind";
  collection = "memory";
  index_type = btree;
  indexed_fields = "kind" ∷ [];
  unique = false;
  partial_expr = "";
  options = [];
  structure = btree_index buckets;
}

abbrev indexes : Indexes whole
indexes = ("memory:kind", index) ∷ []

abbrev note : Document ℕ
note = ("id", str "d3") ∷ ("kind", str "x") ∷ []

abbrev with_note : Indexes whole
with_note =
    (
      "memory:kind",
      record index { structure = btree_index (("x", "d1" ∷ "d3" ∷ []) ∷ ("y", "d2" ∷ []) ∷ []) },
    )
    ∷ []

abbrev query : Document ℕ
query = ("value", str "x") ∷ []

inserted : insert_document whole indexes "memory" note ≡ returns with_note
unfolding insert_document matches_partial insert_structure lookup insert sprint
inserted = refl

deleted : delete_document whole with_note "memory" "d3" ≡ returns indexes
unfolding delete_document delete_id knirvbase.Index.delete_structure
deleted = refl

found : BtreeAt whole indexes "memory" "kind" index buckets
unfolding get_index lookup
found = record { there = refl; of_collection = refl; of_type = refl; holds = refl }

query-insert_document_example :
    query_index whole with_note "memory" "kind" query
    ≡ returns (bucket (sprint whole (str "x")) buckets ++ "d3" ∷ [], none)
unfolding lookup matches_partial build_composite_key sprint
query-insert_document_example =
    query-insert_document whole indexes with_note "memory" "kind" index buckets "d3" note query
      (str "x") found refl refl refl refl refl inserted

query-delete_document-insert_document_example :
    query_index whole indexes "memory" "kind" query
    ≡ query_index whole indexes "memory" "kind" query
unfolding lookup
query-delete_document-insert_document_example =
    query-delete_document-insert_document whole indexes with_note indexes "memory" "kind" index
      buckets "d3" note query found (refl, (refl, tt)) (λ j. ground arith) refl inserted deleted

unique-AtMostOne_example :
    AtMostOne (insert_btree true "d3" "x" buckets) × AtMostOne (delete_id "d3" buckets)
unfolding lookup
unique-AtMostOne_example = unique-AtMostOne "d3" "x" buckets (refl, (refl, tt)) (λ j. ground arith)
