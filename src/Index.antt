-- ===== src/Index.antt =====
-- go/internal/storage/index.go: secondary indexes in memory. A Go map of document IDs by key is an
-- association list; the HNSW neighbours are the empty lists that the code stores.
pub mod Buckets
use knirvbase.Base.{
  ℕ, String, Bool, true, false, Option, none, some, List, [], ◌∷◌, ◌++◌, if◌then◌else◌, ◌==◌, ◌&&◌,
  not, length,
}
use knirvbase.Base.Int.{ℤ, pos}
use knirvbase.GoMap.{lookup, insert, remove}
use knirvbase.GoStrings.{split, trim_space, join, fields, to_lower}
use knirvbase.Floats.{Floats}
use knirvbase.Outcome.{Outcome, returns, panics, ◌>>=◌}
use knirvbase.Value.{
  Value, Items, Fields, Document, as_string, as_document, null, bool, int, float, str, entry_type,
  floats, arr, obj, no_items, item, no_fields, field, document, fields_of,
}
use knirvbase.Value.Print.{sprint}

-- The three constants, and any other string that a caller or a metadata file may give.
pub data IndexType : Type 0 where
  btree gin hnsw : IndexType
  other : String → IndexType

-- the IDs of documents, by key or by token
abbrev pub Buckets : Type 0
Buckets = List (String × List String)

-- The structure that an index's pointers hold: at most one of the three is set.
pub data Structure (F : Type 0) : Type 0 where
  btree_index gin_index : Buckets → Structure F
  hnsw_index : ℤ → List (String × List F) → List (String × List String) → Structure F
  no_structure : Structure F

pub record Index (F : Type 0) : Type 0 where
  pub name : String
  pub collection : String
  pub index_type : IndexType
  pub indexed_fields : List String
  pub unique : Bool
  pub partial_expr : String
  pub options : Document F
  pub structure : Structure F

abbrev pub bucket : String → Buckets → List String
bucket key b = elim (lookup key b) [ none ↦ [] | some ids ↦ ids ]

-- data[key] = append(data[key], docID)
unfoldable pub append_id : String → String → Buckets → Buckets
append_id doc_id key b = insert key (bucket key b ++ doc_id ∷ []) b

-- the inner loop of the deletions: the list without the first occurrence, if there is one
unfoldable pub cut_first : String → List String → Option (List String)
cut_first doc_id [] = none
cut_first doc_id (id ∷ ids) =
    if id == doc_id
    then some ids
    else elim (cut_first doc_id ids) [ none ↦ none | some rest ↦ some (id ∷ rest) ]

-- one key of the outer loop: a bucket that becomes empty is deleted
unfoldable pub put_back : String → List String → Option (List String) → Buckets → Buckets
put_back key ids none rest = (key, ids) ∷ rest
put_back key ids (some []) rest = rest
put_back key ids (some (id ∷ left)) rest = (key, id ∷ left) ∷ rest

-- the loop of deleteBTree and of deleteGIN
unfoldable pub delete_id : String → Buckets → Buckets
unfolding cut_first put_back
delete_id doc_id [] = []
delete_id doc_id ((key, ids) ∷ rest) =
    put_back key ids (cut_first doc_id ids) (delete_id doc_id rest)

abbrev pub delete_btree : String → Buckets → Buckets
delete_btree doc_id b = delete_id doc_id b

abbrev pub delete_gin : String → Buckets → Buckets
delete_gin doc_id b = delete_id doc_id b

-- insertBTree's test of uniqueness
unfoldable pub is_taken : String → Buckets → Bool
is_taken key b = elim (lookup key b) [ none ↦ false | some [] ↦ false | some (id ∷ ids) ↦ true ]

unfoldable pub insert_btree : Bool → String → String → Buckets → Buckets
unfolding is_taken append_id
insert_btree unique doc_id key b = if unique && is_taken key b then b else append_id doc_id key b

-- for _, token := range tokens { data[token] = append(data[token], docID) }
unfoldable pub insert_gin : String → List String → Buckets → Buckets
unfolding append_id
insert_gin doc_id [] b = b
insert_gin doc_id (token ∷ tokens) b = insert_gin doc_id tokens (append_id doc_id token b)

module _ (fl : Floats) where
  open fl use {Float, truncate, of_int, add, mul, div, is_zero, less}

  unfoldable pub build_parts : List String → Document Float → List String
  build_parts [] doc = []
  build_parts (f ∷ fs) doc = elim (lookup f doc) [
    | none ↦ build_parts fs doc
    | some val ↦ sprint fl val ∷ build_parts fs doc
  ]

  unfoldable pub build_composite_key : List String → Document Float → String
  unfolding build_parts
  build_composite_key fs doc = join "|" (build_parts fs doc)

  -- tokenizeValue: strings give their lower-case words, other values than maps and slices nothing
  unfoldable mutual
    pub tokenize_value : Value Float → List String
    tokenize_value (str s) = fields (to_lower s)
    tokenize_value (obj fs) = tokenize_fields fs
    tokenize_value (arr vs) = tokenize_items vs
    tokenize_value _ = []

    pub tokenize_items : Items Float → List String
    tokenize_items no_items = []
    tokenize_items (item v vs) = tokenize_value v ++ tokenize_items vs

    pub tokenize_fields : Fields Float → List String
    tokenize_fields no_fields = []
    tokenize_fields (field k v fs) = tokenize_value v ++ tokenize_fields fs

  unfoldable pub tokenize_json : Document Float → List String
  tokenize_json doc = tokenize_fields (fields_of doc)

  -- field=value, or true for an expression of another form
  unfoldable pub matches_parts : List String → Document Float → Bool
  matches_parts (f ∷ expected ∷ []) doc = elim (lookup (trim_space f) doc) [
    | none ↦ false
    | some val ↦ sprint fl val == trim_space expected
  ]
  matches_parts _ doc = true

  unfoldable pub matches_partial : Index Float → Document Float → Bool
  unfolding matches_parts
  matches_partial idx doc =
      if idx.partial_expr == "" then true else matches_parts (split b'=' idx.partial_expr) doc

  -- v.(float64) of each element, 0 for an element of another type
  unfoldable pub read_vector : Items Float → List Float
  read_vector no_items = []
  read_vector (item (float x) vs) = x ∷ read_vector vs
  read_vector (item _ vs) = of_int (pos 0) ∷ read_vector vs

  -- payload.vector of a document, where the payload is a map and the vector a slice
  unfoldable pub document_vector : Document Float → Option (List Float)
  unfolding read_vector
  document_vector doc = elim (lookup "payload" doc) [
    | some (obj fs) ↦ elim (lookup "vector" (document fs)) [
      | some (arr vs) ↦ some (read_vector vs)
      | _ ↦ none
    ]
    | _ ↦ none
  ]

  -- insertHNSW, given the document's vector if it has one
  unfoldable pub insert_hnsw :
      String
      → Option (List Float)
      → ℤ
      → List (String × List Float)
      → List (String × List String)
      → Structure Float
  insert_hnsw doc_id none dims vectors neighbors = hnsw_index dims vectors neighbors
  insert_hnsw doc_id (some vec) dims vectors neighbors =
      hnsw_index dims (insert doc_id vec vectors) (insert doc_id [] neighbors)

  -- The switch over idx.Type in Insert. A structure of another type than the index's is a nil
  -- pointer of the index's type, whose use panics.
  unfoldable pub insert_structure :
      IndexType
      → Index Float
      → String
      → Document Float
      → Structure Float
      → Outcome (Structure Float)
  unfolding insert_btree insert_gin build_composite_key tokenize_json document_vector insert_hnsw
  insert_structure btree idx doc_id doc (btree_index b) =
      returns (
        btree_index (insert_btree idx.unique doc_id (build_composite_key idx.indexed_fields doc) b))
  insert_structure btree idx doc_id doc _ = panics
  insert_structure gin idx doc_id doc (gin_index b) =
      returns (gin_index (insert_gin doc_id (tokenize_json doc) b))
  insert_structure gin idx doc_id doc _ = panics
  insert_structure hnsw idx doc_id doc (hnsw_index dims vectors neighbors) =
      returns (insert_hnsw doc_id (document_vector doc) dims vectors neighbors)
  insert_structure hnsw idx doc_id doc s = elim (document_vector doc) [
    | none ↦ returns s
    | some vec ↦ panics
  ]
  insert_structure (other t) idx doc_id doc s = returns s

  abbrev pub delete_hnsw :
      String → ℤ → List (String × List Float) → List (String × List String) → Structure Float
  delete_hnsw doc_id dims vectors neighbors =
      hnsw_index dims (remove doc_id vectors) (remove doc_id neighbors)

  -- the switch over idx.Type in Delete
  unfoldable pub delete_structure : IndexType → String → Structure Float → Outcome (Structure Float)
  unfolding delete_id
  delete_structure btree doc_id (btree_index b) = returns (btree_index (delete_btree doc_id b))
  delete_structure btree doc_id _ = panics
  delete_structure gin doc_id (gin_index b) = returns (gin_index (delete_gin doc_id b))
  delete_structure gin doc_id _ = panics
  delete_structure hnsw doc_id (hnsw_index dims vectors neighbors) =
      returns (delete_hnsw doc_id dims vectors neighbors)
  delete_structure hnsw doc_id _ = panics
  delete_structure (other t) doc_id s = returns s
