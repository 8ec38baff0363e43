-- ===== src/Optimizer.antt =====
-- go/internal/query/optimizer.go: the choice of an index for the filters of a query.
pub mod Choice
pub mod Plan
use knirvbase.Base.{
  ℕ, String, Bool, true, false, Option, none, some, List, [], ◌∷◌, if◌then◌else◌, ◌==◌, ◌&&◌,
}
use knirvbase.Base.Int.{ℤ, pos, negsuc, ltb_ℤ}
use knirvbase.GoMap.{lookup, insert}
use knirvbase.Floats.{Floats}
use knirvbase.Index.{Index, IndexType, btree, gin, hnsw, other}
use knirvbase.Query.{Query, Filter}

pub data ScanType : Type 0 where
  full_scan index_scan index_only_scan : ScanType

pub record IndexStats (F : Type 0) : Type 0 where
  pub cardinality : ℤ
  pub selectivity : F
  pub avg_bucket_size : F

pub record CollectionStats (F : Type 0) : Type 0 where
  pub total_documents : ℤ
  pub index_stats : List (String × IndexStats F)

-- The sort order is left out: the code never sets it.
pub record QueryPlan (F : Type 0) : Type 0 where
  pub use_index : Bool
  pub index_name : String
  pub index_type : IndexType
  pub scan_type : ScanType
  pub filters : List (Filter F)
  pub limit : ℤ
  pub estimated_cost : F
  pub estimated_rows : ℤ
  pub index_filters : List (Filter F)
  pub post_filters : List (Filter F)

pub record QueryOptimizer (F : Type 0) : Type 0 where
  pub collection : String
  pub indexes : List (Index F)
  pub stats : CollectionStats F

-- An index with the filters that it serves, those that it does not, and the estimates.
pub record IndexCandidate (F : Type 0) : Type 0 where
  pub index : Index F
  pub index_filters : List (Filter F)
  pub post_filters : List (Filter F)
  pub cost : F
  pub rows : ℤ

module _ (fl : Floats) where
  open fl use {Float, of_int, literal, add, mul, div, less, truncate}

  unfoldable pub default_stats : List (Index Float) → List (String × IndexStats Float)
  default_stats [] = []
  default_stats (idx ∷ idxs) =
      insert idx.name
        (record {
          cardinality = pos 100;
          selectivity = literal 1 10;
          avg_bucket_size = literal 10 1;
        })
        (default_stats idxs)

  -- NewQueryOptimizer; none is a nil pointer to the statistics
  unfoldable pub new_query_optimizer :
      String → List (Index Float) → Option (CollectionStats Float) → QueryOptimizer Float
  unfolding default_stats
  new_query_optimizer collection indexes (some stats) = record {
    collection = collection;
    indexes = indexes;
    stats = stats;
  }
  new_query_optimizer collection indexes none = record {
    collection = collection;
    indexes = indexes;
    stats = record { total_documents = pos 1000; index_stats = default_stats indexes };
  }

  unfoldable pub can_use_btree_index : List String → String → Bool
  can_use_btree_index [] key = false
  can_use_btree_index (f ∷ fs) key = if key == f then true else can_use_btree_index fs key

  unfoldable pub can_use_index : Index Float → Filter Float → Bool
  unfolding can_use_btree_index
  can_use_index idx f = elim idx.index_type [
    | btree ↦ can_use_btree_index idx.indexed_fields f.key
    | gin ↦ true
    | hnsw ↦ false
    | other t ↦ false
  ]

  -- analyzeIndexSuitability: the filters that can use the index, and those that cannot
  unfoldable pub usable : Index Float → List (Filter Float) → List (Filter Float)
  usable idx [] = []
  usable idx (f ∷ fs) = let rest = usable idx fs in if can_use_index idx f then f ∷ rest else rest

  unfoldable pub unusable : Index Float → List (Filter Float) → List (Filter Float)
  unusable idx [] = []
  unusable idx (f ∷ fs) =
      let rest = unusable idx fs in if can_use_index idx f then rest else f ∷ rest

  unfoldable pub estimate_filter_selectivity : CollectionStats Float → Index Float → Float
  estimate_filter_selectivity stats idx = elim (lookup idx.name stats.index_stats) [
    | none ↦ literal 1 10
    | some st ↦ elim idx.index_type [
      | btree ↦
          if ltb_ℤ (pos 0) st.cardinality
          then div (literal 1 1) (of_int st.cardinality)
          else st.selectivity
      | gin ↦ literal 1 100
      | hnsw ↦ st.selectivity
      | other t ↦ st.selectivity
    ]
  ]

  unfoldable pub apply_selectivity : Float → List (Filter Float) → Float → Float
  apply_selectivity selectivity [] rows = rows
  apply_selectivity selectivity (f ∷ fs) rows =
      apply_selectivity selectivity fs (mul rows selectivity)

  -- int(math.Max(1, rows))
  unfoldable pub at_least_one : Float → ℤ
  at_least_one rows = truncate (if less rows (literal 1 1) then literal 1 1 else rows)

  unfoldable pub estimate_index_rows : CollectionStats Float → Index Float → List (Filter Float) → ℤ
  unfolding estimate_filter_selectivity apply_selectivity at_least_one
  estimate_index_rows stats idx [] = stats.total_documents
  estimate_index_rows stats idx (f ∷ fs) = elim (lookup idx.name stats.index_stats) [
    | none ↦ truncate (mul (of_int stats.total_documents) (literal 1 10))
    | some st ↦ at_least_one (
        apply_selectivity (estimate_filter_selectivity stats idx) (f ∷ fs)
          (of_int stats.total_documents))
  ]

  unfoldable pub estimate_index_cost : CollectionStats Float → Index Float → ℤ → Float
  estimate_index_cost stats idx rows = add (literal 1 1) (
      mul (of_int rows) (elim (lookup idx.name stats.index_stats) [
        | none ↦ literal 10 1
        | some st ↦ st.avg_bucket_size
      ]))

  unfoldable pub candidate :
      CollectionStats Float → List (Filter Float) → Index Float → IndexCandidate Float
  unfolding usable unusable estimate_index_rows estimate_index_cost
  candidate stats filters idx =
      let rows = estimate_index_rows stats idx (usable idx filters) in
      record {
        index = idx;
        index_filters = usable idx filters;
        post_filters = unusable idx filters;
        cost = estimate_index_cost stats idx rows;
        rows = rows;
      }

  -- the loop over the indexes: those that serve a filter
  unfoldable pub candidates :
      CollectionStats Float → List (Filter Float) → List (Index Float) → List (IndexCandidate Float)
  unfolding candidate
  candidates stats filters [] = []
  candidates stats filters (idx ∷ idxs) =
      let rest = candidates stats filters idxs in
      elim (usable idx filters) [ [] ↦ rest | f ∷ fs ↦ candidate stats filters idx ∷ rest ]

  -- sort.Slice by rising cost; candidates of one cost keep their order here
  unfoldable pub insert_candidate :
      IndexCandidate Float → List (IndexCandidate Float) → List (IndexCandidate Float)
  insert_candidate c [] = c ∷ []
  insert_candidate c (d ∷ ds) =
      let rest = insert_candidate c ds in if less d.cost c.cost then d ∷ rest else c ∷ d ∷ ds

  unfoldable pub sort_candidates : List (IndexCandidate Float) → List (IndexCandidate Float)
  unfolding insert_candidate
  sort_candidates [] = []
  sort_candidates (c ∷ cs) = insert_candidate c (sort_candidates cs)

  abbrev pub first : List (IndexCandidate Float) → Option (IndexCandidate Float)
  first [] = none
  first (c ∷ cs) = some c

  unfoldable pub select_best_index :
      QueryOptimizer Float → List (Filter Float) → Option (IndexCandidate Float)
  unfolding candidates sort_candidates
  select_best_index qo filters = first (sort_candidates (candidates qo.stats filters qo.indexes))

  unfoldable pub scan_type_for : List (Filter Float) → ScanType
  scan_type_for [] = index_only_scan
  scan_type_for (f ∷ fs) = index_scan

  abbrev pub full_scan_plan : QueryOptimizer Float → Query Float → QueryPlan Float
  full_scan_plan qo q = record {
    use_index = false;
    index_name = "";
    index_type = other "";
    scan_type = full_scan;
    filters = q.filters;
    limit = q.limit;
    estimated_cost = of_int qo.stats.total_documents;
    estimated_rows = qo.stats.total_documents;
    index_filters = [];
    post_filters = q.filters;
  }

  abbrev pub index_plan :
      QueryOptimizer Float → Query Float → IndexCandidate Float → QueryPlan Float
  index_plan qo q best =
      let rows = estimate_index_rows qo.stats best.index best.index_filters in
      record {
        use_index = true;
        index_name = best.index.name;
        index_type = best.index.index_type;
        scan_type = scan_type_for best.post_filters;
        filters = q.filters;
        limit = q.limit;
        estimated_cost = estimate_index_cost qo.stats best.index rows;
        estimated_rows = rows;
        index_filters = best.index_filters;
        post_filters = best.post_filters;
      }

  abbrev pub plan_with :
      QueryOptimizer Float → Query Float → Option (IndexCandidate Float) → QueryPlan Float
  plan_with qo q none = full_scan_plan qo q
  plan_with qo q (some best) = index_plan qo q best

  abbrev pub plan_for : QueryOptimizer Float → Query Float → List (Filter Float) → QueryPlan Float
  plan_for qo q [] = full_scan_plan qo q
  plan_for qo q (f ∷ fs) = plan_with qo q (select_best_index qo (f ∷ fs))

  -- Optimize. It returns no error. With no filters the plan's post filters are nil, which are the
  -- query's filters.
  unfoldable pub optimize : QueryOptimizer Float → Query Float → QueryPlan Float
  unfolding select_best_index scan_type_for
  optimize qo q = plan_for qo q q.filters

  -- UpdateStats
  unfoldable pub update_stats :
      QueryOptimizer Float → ℤ → List (String × IndexStats Float) → QueryOptimizer Float
  update_stats qo document_count index_stats = record qo {
    stats = record { total_documents = document_count; index_stats = index_stats };
  }
