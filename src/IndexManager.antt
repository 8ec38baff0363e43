-- ===== src/IndexManager.antt =====
-- IndexManager of go/internal/storage/index.go. The state is the map from "collection:name" to
-- indexes; what becomes of the metadata file of a new index is an argument, which Files gives.
pub mod Laws
pub mod Lookup
pub mod Created
pub mod Files
pub mod Restart
pub mod Forgets
use Prim.Native.String.{◌++◌ as append}
use knirvbase.Base.{
  ℕ, String, Bool, true, false, Option, none, some, List, [], ◌∷◌, if◌then◌else◌, ◌==◌, take, eqb,
  length, map,
}
use knirvbase.Base.Int.{ℤ, pos, negsuc}
use knirvbase.GoMap.{lookup, insert, remove}
use knirvbase.Floats.{Floats}
use knirvbase.Outcome.{Outcome, returns, panics, ◌>>=◌}
use knirvbase.Value.{Value, Document, as_string, str, floats, int, float}
use knirvbase.Value.Print.{sprint}
use knirvbase.Index.{
  IndexType, btree, gin, hnsw, other, Structure, btree_index, gin_index, hnsw_index, no_structure,
  Index, Buckets, bucket, matches_partial, insert_structure, delete_structure,
}

pub data IndexError : Type 0 where
  already_exists does_not_exist not_found : String → IndexError
  unsupported : IndexError
  not_saved : String → IndexError

-- fmt.Sprintf("%s:%s", collection, name)
unfoldable pub index_key : String → String → String
index_key collection name = append collection (append ":" name)

module _ (fl : Floats) where
  open fl use {Float, truncate, of_int, add, mul, div, is_zero, less}

  abbrev pub Indexes : Type 0
  Indexes = List (String × Index Float)

  -- the dimensions that the options ask for, 768 by default
  unfoldable pub dimensions : Document Float → ℤ
  dimensions options = elim (lookup "dimensions" options) [
    | some (float d) ↦ truncate d
    | _ ↦ pos 768
  ]

  unfoldable pub new_structure : IndexType → Document Float → Structure Float
  unfolding dimensions
  new_structure btree options = btree_index []
  new_structure gin options = gin_index []
  new_structure hnsw options = hnsw_index (dimensions options) [] []
  new_structure (other t) options = no_structure

  -- the index that CreateIndex makes
  abbrev pub new_index :
      String → String → IndexType → List String → Bool → String → Document Float → Index Float
  new_index collection name index_type indexed_fields unique partial_expr options = record {
    name = name;
    collection = collection;
    index_type = index_type;
    indexed_fields = indexed_fields;
    unique = unique;
    partial_expr = partial_expr;
    options = options;
    structure = new_structure index_type options;
  }

  -- CreateIndex. `saved` is the error of saveIndexMetadata for the new index, if there is one; the
  -- index is in the map before it is saved.
  unfoldable pub create_index :
      (Index Float → Option String)
      → Indexes
      → String
      → String
      → IndexType
      → List String
      → Bool
      → String
      → Document Float
      → Indexes × Option IndexError
  unfolding index_key new_structure
  create_index saved im collection name index_type indexed_fields unique partial_expr options =
      let index : Index Float =
        new_index collection name index_type indexed_fields unique partial_expr options in
      elim (lookup (index_key collection name) im) [
        | some _ ↦ (im, some (already_exists (index_key collection name)))
        | none ↦ (
          insert (index_key collection name) index im,
          elim (saved index) [ none ↦ none | some e ↦ some (not_saved e) ],
        )
      ]

  unfoldable pub drop_index : Indexes → String → String → Indexes × Option IndexError
  unfolding index_key
  drop_index im collection name = elim (lookup (index_key collection name) im) [
    | none ↦ (im, some (does_not_exist (index_key collection name)))
    | some _ ↦ (remove (index_key collection name) im, none)
  ]

  unfoldable pub get_index : Indexes → String → String → Option (Index Float)
  unfolding index_key
  get_index im collection name = lookup (index_key collection name) im

  unfoldable pub get_indexes_for_collection : Indexes → String → List (Index Float)
  get_indexes_for_collection [] collection = []
  get_indexes_for_collection ((k, idx) ∷ im) collection =
      let rest = get_indexes_for_collection im collection in
      if idx.collection == collection then idx ∷ rest else rest

  -- docID := doc["id"].(string)
  unfoldable pub document_id : Document Float → Outcome String
  document_id doc = elim (lookup "id" doc) [ some (str id) ↦ returns id | _ ↦ panics ]

  -- one turn of the loop of Insert
  unfoldable pub insert_index : Document Float → Index Float → Outcome (Index Float)
  unfolding document_id
  insert_index doc idx =
      if matches_partial fl idx doc
      then (do
        id ← document_id doc
        s ← insert_structure fl idx.index_type idx id doc idx.structure
        returns (record idx { structure = s }))
      else returns idx

  unfoldable pub delete_index : String → Index Float → Outcome (Index Float)
  delete_index doc_id idx = do
    s ← delete_structure fl idx.index_type doc_id idx.structure
    returns (record idx { structure = s })

  -- The loop over the collection's indexes: each is a pointer, so its change shows in the map.
  unfoldable pub update_indexes :
      String → (Index Float → Outcome (Index Float)) → Indexes → Outcome Indexes
  update_indexes collection f [] = returns []
  update_indexes collection f ((k, idx) ∷ im) = do
    idx' ← (if idx.collection == collection then f idx else returns idx)
    im' ← update_indexes collection f im
    returns ((k, idx') ∷ im')

  unfoldable pub insert_document : Indexes → String → Document Float → Outcome Indexes
  unfolding update_indexes insert_index
  insert_document im collection doc = update_indexes collection (insert_index doc) im

  unfoldable pub delete_document : Indexes → String → String → Outcome Indexes
  unfolding update_indexes delete_index
  delete_document im collection doc_id = update_indexes collection (delete_index doc_id) im

  -- queryBTree and queryGIN
  unfoldable pub query_btree : Buckets → Document Float → List String
  query_btree b query = elim (lookup "value" query) [
    | none ↦ []
    | some value ↦ bucket (sprint fl value) b
  ]

  unfoldable pub query_gin : Buckets → Document Float → List String
  query_gin b query = elim (lookup "token" query) [ some (str token) ↦ bucket token b | _ ↦ [] ]

  -- the sums of cosineSimilarity over vectors of one length
  unfoldable pub sum_products : List Float → List Float → Float → Float
  sum_products (a ∷ as') (b ∷ bs) sum = sum_products as' bs (add sum (mul a b))
  sum_products _ _ sum = sum

  unfoldable pub cosine_similarity : List Float → List Float → Float
  unfolding sum_products
  cosine_similarity a b =
      let zero_float = of_int (pos 0) in
      let norm_a = sum_products a a zero_float in
      let norm_b = sum_products b b zero_float in
      if eqb (length a) (length b)
      then (if is_zero norm_a
          then zero_float
          else if is_zero norm_b
          then zero_float
          else div (sum_products a b zero_float) (mul norm_a norm_b))
      else zero_float

  -- sort.Slice by falling score; documents with equal scores keep their order here
  unfoldable pub insert_scored : String → Float → List (String × Float) → List (String × Float)
  insert_scored id score [] = (id, score) ∷ []
  insert_scored id score ((j, s) ∷ rest) =
      if less s score then (id, score) ∷ (j, s) ∷ rest else (j, s) ∷ insert_scored id score rest

  unfoldable pub scored : List Float → List (String × List Float) → List (String × Float)
  unfolding cosine_similarity insert_scored
  scored query_vec [] = []
  scored query_vec ((id, vec) ∷ vectors) =
      insert_scored id (cosine_similarity query_vec vec) (scored query_vec vectors)

  -- the query's limit where it is an int, 10 by default; the loop stops at once at a negative one
  unfoldable pub query_limit : Document Float → ℕ
  query_limit query = elim (lookup "limit" query) [
    | some (int (pos n)) ↦ n
    | some (int (negsuc n)) ↦ 0
    | _ ↦ 10
  ]

  unfoldable pub query_hnsw : List (String × List Float) → Document Float → List String
  unfolding scored query_limit
  query_hnsw vectors query = elim (lookup "vector" query) [
    | some (floats query_vec) ↦ map (λ e. e.0) (take (query_limit query) (scored query_vec vectors))
    | _ ↦ []
  ]

  -- The switch of QueryIndex. A structure of another type than the index's panics, but for a query
  -- that does not come to read it.
  unfoldable pub query_structure :
      IndexType → Structure Float → Document Float → Outcome (List String)
  unfolding query_btree query_gin query_hnsw
  query_structure btree (btree_index b) query = returns (query_btree b query)
  query_structure btree _ query = elim (lookup "value" query) [
    | none ↦ returns []
    | some _ ↦ panics
  ]
  query_structure gin (gin_index b) query = returns (query_gin b query)
  query_structure gin _ query = elim (lookup "token" query) [
    | some (str t) ↦ panics
    | _ ↦ returns []
  ]
  query_structure hnsw (hnsw_index dims vectors neighbors) query =
      returns (query_hnsw vectors query)
  query_structure hnsw _ query = elim (lookup "vector" query) [
    | some (floats v) ↦ panics
    | _ ↦ returns []
  ]
  query_structure (other t) s query = returns []

  -- an index type that QueryIndex knows
  abbrev pub is_supported : IndexType → Bool
  is_supported (other t) = false
  is_supported _ = true

  unfoldable pub query_index :
      Indexes → String → String → Document Float → Outcome (List String × Option IndexError)
  unfolding get_index index_key query_structure
  query_index im collection name query = elim (get_index im collection name) [
    | none ↦ returns ([], some (not_found (index_key collection name)))
    | some idx ↦
        if is_supported idx.index_type
        then (do ids ← query_structure idx.index_type idx.structure query; returns (ids, none))
        else returns ([], some unsupported)
  ]
