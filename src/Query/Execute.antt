-- ===== src/Query/Execute.antt =====
-- go/internal/query/knirvql.go from executeGet: the execution of GET queries on the indexes of the
-- database and the documents of a collection. The collection is an interface: what the calls of
-- FindAll and Find return, with none for an error; a document that Find does not have is none too,
-- since the code passes over both. Query/Statements fills it by a distributed collection.
use knirvbase.Base.{
  String, Bool, true, false, not, ◌&&◌, Option, none, some, List, [], ◌∷◌, if◌then◌else◌, ◌==◌, ltb,
  length, take,
}
use knirvbase.Base.Int.{ℤ, pos, negsuc, ltb_ℤ}
use knirvbase.Base.Text.{str_lt}
use knirvbase.GoMap.{lookup}
use knirvbase.GoStrings.{contains, has_prefix}
use knirvbase.Floats.{Floats}
use knirvbase.Outcome.{Outcome, panics}
use knirvbase.Call.{Call, done, ◌>>=◌, of_outcome}
use knirvbase.Types.{entry_type_auth}
use knirvbase.Value.{Value, Document, as_document}
use knirvbase.Value.Print.{sprint}
use knirvbase.IndexManager.{Indexes, IndexError, query_index, get_indexes_for_collection}
use knirvbase.Query.{Query, Filter}
use knirvbase.Optimizer.{
  ScanType, full_scan, index_scan, index_only_scan, QueryPlan, QueryOptimizer, new_query_optimizer,
  optimize,
}

pub record Collection (F : Type 0) : Type 0 where
  pub find_all : Call (Option (List (Document F)))
  pub find : String → Call (Option (Document F))

pub data QueryResult (F : Type 0) : Type 0 where
  documents : List (Document F) → QueryResult F
  ids : List String → QueryResult F
  find_failed : QueryResult F
  index_failed : IndexError → QueryResult F

-- results[:limit] where a positive limit is smaller than the results
unfoldable pub limited {ℓ} : {A : Type ℓ} → ℤ → List A → List A
limited (pos n) xs = if ltb 0 n && ltb n (length xs) then take n xs else xs
limited (negsuc n) xs = xs

module _ (fl : Floats) where
  open fl use {Float}

  unfoldable pub compare_values : Value Float → Value Float → ℤ
  compare_values a b =
      if str_lt (sprint fl a) (sprint fl b)
      then negsuc 0
      else if str_lt (sprint fl b) (sprint fl a)
      then pos 1
      else pos 0

  -- the switch of matchesFilter, on the value of the filter's key
  unfoldable pub matches_operator : String → Value Float → Value Float → Bool
  unfolding compare_values contains has_prefix
  matches_operator op val operand =
      if op == "="
      then sprint fl val == sprint fl operand
      else if op == "!="
      then not (sprint fl val == sprint fl operand)
      else if op == ">"
      then ltb_ℤ (pos 0) (compare_values val operand)
      else if op == "<"
      then ltb_ℤ (compare_values val operand) (pos 0)
      else if op == ">="
      then not (ltb_ℤ (compare_values val operand) (pos 0))
      else if op == "<="
      then not (ltb_ℤ (pos 0) (compare_values val operand))
      else if op == "CONTAINS"
      then contains (sprint fl val) (sprint fl operand)
      else if op == "STARTS_WITH"
      then has_prefix (sprint fl val) (sprint fl operand)
      else false

  unfoldable pub matches_filter : Document Float → Filter Float → Bool
  unfolding matches_operator
  matches_filter payload f = elim (lookup f.key payload) [
    | none ↦ false
    | some val ↦ matches_operator f.operator val f.operand
  ]

  unfoldable pub matches_filters : Document Float → List (Filter Float) → Bool
  unfolding matches_filter
  matches_filters payload [] = true
  matches_filters payload (f ∷ fs) = matches_filter payload f && matches_filters payload fs

  -- matchesFiltersWithPlan
  unfoldable pub matches_filters_with_plan : Document Float → List (Filter Float) → Bool
  unfolding matches_filters as_document
  matches_filters_with_plan doc filters = elim (lookup "payload" doc) [
    | none ↦ false
    | some p ↦ elim (as_document p) [
      | none ↦ false
      | some payload ↦ matches_filters payload filters
    ]
  ]

  unfoldable pub matching : List (Filter Float) → List (Document Float) → List (Document Float)
  unfolding matches_filters_with_plan
  matching filters [] = []
  matching filters (d ∷ ds) =
      let rest = matching filters ds in
      if matches_filters_with_plan d filters then d ∷ rest else rest

  abbrev pub scanned_all : QueryPlan Float → Option (List (Document Float)) → QueryResult Float
  scanned_all plan none = find_failed
  scanned_all plan (some docs) = documents (limited plan.limit (matching plan.post_filters docs))

  unfoldable pub execute_full_scan : QueryPlan Float → Collection Float → Call (QueryResult Float)
  unfolding matching limited
  execute_full_scan plan c = do docs ← c.find_all; done (scanned_all plan docs)

  -- db.QueryIndex(plan.IndexName, plan.IndexName, {"value": plan.IndexFilters[0].Value})
  unfoldable pub query_plan_index :
      Indexes fl → QueryPlan Float → List (Filter Float) → Outcome (List String × Option IndexError)
  unfolding query_index
  query_plan_index im plan [] = panics
  query_plan_index im plan (f ∷ fs) =
      query_index fl im plan.index_name plan.index_name (("value", f.operand) ∷ [])

  -- the documents behind the identifiers, without those that cannot be read
  abbrev pub and_document : Option (Document Float) → List (Document Float) → List (Document Float)
  and_document none docs = docs
  and_document (some doc) docs = doc ∷ docs

  unfoldable pub found : Collection Float → List String → Call (List (Document Float))
  found c [] = done []
  found c (i ∷ is) = do doc ← c.find i; docs ← found c is; done (and_document doc docs)

  abbrev pub scanned :
      QueryPlan Float
      → Collection Float
      → List String × Option IndexError
      → Call (QueryResult Float)
  scanned plan c (is, some e) = done (index_failed e)
  scanned plan c (is, none) = do
    docs ← found c is
    done (documents (limited plan.limit (matching plan.post_filters docs)))

  unfoldable pub execute_index_scan :
      QueryPlan Float → Indexes fl → Collection Float → Call (QueryResult Float)
  unfolding query_plan_index found matching limited
  execute_index_scan plan im c = do
    r ← of_outcome (query_plan_index im plan plan.index_filters)
    scanned plan c r

  abbrev pub scanned_only : QueryPlan Float → List String × Option IndexError → QueryResult Float
  scanned_only plan (is, some e) = index_failed e
  scanned_only plan (is, none) = ids (limited plan.limit is)

  unfoldable pub execute_index_only_scan : QueryPlan Float → Indexes fl → Call (QueryResult Float)
  unfolding query_plan_index limited
  execute_index_only_scan plan im = do
    r ← of_outcome (query_plan_index im plan plan.index_filters)
    done (scanned_only plan r)

  abbrev pub execute_scan :
      ScanType → QueryPlan Float → Indexes fl → Collection Float → Call (QueryResult Float)
  execute_scan full_scan plan im c = execute_full_scan plan c
  execute_scan index_scan plan im c = execute_index_scan plan im c
  execute_scan index_only_scan plan im c = execute_index_only_scan plan im

  unfoldable pub execute_plan :
      QueryPlan Float → Indexes fl → Collection Float → Call (QueryResult Float)
  unfolding execute_full_scan execute_index_scan execute_index_only_scan
  execute_plan plan im c = execute_scan plan.scan_type plan im c

  abbrev pub collection_name : Query Float → String
  collection_name q =
      if q.collection == ""
      then (if q.entry_type == entry_type_auth then "auth" else "memory")
      else q.collection

  abbrev pub optimizer_of : Query Float → Indexes fl → QueryOptimizer Float
  optimizer_of q im =
      let name = collection_name q in
      new_query_optimizer fl name (get_indexes_for_collection fl im name) none

  -- the plan that executeGet makes
  abbrev pub plan_of : Query Float → Indexes fl → QueryPlan Float
  plan_of q im = optimize fl (optimizer_of q im) q

  unfoldable pub execute_get :
      Query Float → Indexes fl → Collection Float → Call (QueryResult Float)
  unfolding execute_plan
  execute_get q im c = execute_plan (plan_of q im) im c
