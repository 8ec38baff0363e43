-- ===== src/Query/Results.antt =====
-- What GET queries return (query/knirvql.go from executeGet).
use mathlib.Core.List.{Perm}
use mathlib.Core.List.Perm
use knirvbase.Base.{
  eq_iff, String, ◌≡◌, refl, Bool, true, false, not, ◌&&◌, ◌||◌, Option, none, some, List, [], ◌∷◌,
  ◌++◌, arith, All, inl, inr, ◌≢◌,
}
use knirvbase.Base.Text.{str_lt-swap, str_lt_irrefl}
use knirvbase.GoMap.{lookup}
use knirvbase.Floats.{Floats}
use knirvbase.Outcome.{returns}
use knirvbase.Call.{Call, done, panicked, deadlocked}
use knirvbase.Value.{Value, Document}
use knirvbase.Value.Print.{sprint}
use knirvbase.IndexManager.{Indexes, IndexError, not_found, index_key, query_index, get_index}
use knirvbase.Query.{Query, Filter}
use knirvbase.Optimizer.{QueryPlan, optimize, scan_type_for}
use knirvbase.Optimizer.Plan.{optimize_plans}
use knirvbase.Query.Execute.{
  Collection, QueryResult, documents, find_failed, index_failed, limited, compare_values,
  matches_operator, matches_filters_with_plan, query_plan_index, execute_index_scan,
  execute_index_only_scan, execute_scan, execute_plan, optimizer_of, plan_of, execute_get,
}

-- of three tests exactly one holds, and three others are their complements
abbrev pub Agree : (String → Bool) → Type 0
Agree m =
    ((m "<" && m "=") ≡ false)
    × ((m "<" && m ">") ≡ false)
    × ((m "=" && m ">") ≡ false)
    × ((m "<" || m "=" || m ">") ≡ true)
    × (m "!=" ≡ not (m "="))
    × (m "<=" ≡ not (m ">"))
    × (m ">=" ≡ not (m "<"))

module _ (fl : Floats) where
  open fl use {Float}

  -- The tests of matchesFilter agree with each other, whatever the two values are: of "<", "=" and
  -- ">" exactly one holds, and "!=", "<=" and ">=" are the complements of "=", ">" and "<".
  pub operator_laws : (v w : Value Float) → Agree (λ op. matches_operator fl op v w)
  unfolding matches_operator compare_values
  operator_laws v w =
      let s = sprint fl v in
      let t = sprint fl w in
      ground (arith, str_lt-swap s t, str_lt_irrefl s, str_lt_irrefl t, eq_iff s t)

  -- Of the documents, which match the filters, with those that do not.
  abbrev pub Selected : List (Filter Float) → List (Document Float) → List (Document Float) → Type 0
  Selected fs docs rs =
      (rejected : List (Document Float)) × Perm (rs ++ rejected) docs
      × All (λ d. matches_filters_with_plan fl d fs ≡ true) rs
      × All (λ d. matches_filters_with_plan fl d fs ≡ false) rejected

  -- The result of a query without an index, by what becomes of the call of FindAll.
  abbrev pub Answered :
      Query Float → Call (QueryResult Float) → Call (Option (List (Document Float))) → Type 0
  Answered q r (done none) = r ≡ done find_failed
  Answered q r (done (some docs)) =
      (rs : List (Document Float)) × Selected q.filters docs rs
      × (r ≡ done (documents (limited q.limit rs)))
  Answered q r panicked = r ≡ panicked
  Answered q r deadlocked = r ≡ deadlocked

  query_plan_index-none :
      (im : Indexes fl) (p : QueryPlan Float) (fs : List (Filter Float))
      → fs ≢ []
      → get_index fl im p.index_name p.index_name ≡ none
      → query_plan_index fl im p fs
        ≡ returns ([], some (not_found (index_key p.index_name p.index_name)))
  unfolding query_plan_index query_index lookup
  query_plan_index-none im p [] n h = absurd (n refl)
  query_plan_index-none im p (f ∷ fs) n h = simp (query_plan_index, query_index, h)

  execute_scan-failed :
      (im : Indexes fl) (p : QueryPlan Float) (c : Collection Float) (fs : List (Filter Float))
      {e : IndexError}
      → query_plan_index fl im p p.index_filters ≡ returns ([], some e)
      → execute_scan fl (scan_type_for fl fs) p im c ≡ done (index_failed e)
  unfolding execute_index_scan execute_index_only_scan scan_type_for
  execute_scan-failed im p c [] h = rw h refl
  execute_scan-failed im p c (f ∷ fs) h = rw h refl

  -- A query whose plan uses an index fails, if no index is kept with that index's name both as its
  -- collection and as its name, since that is how it is looked up.
  pub execute_get-index_failed :
      (q : Query Float) (im : Indexes fl) (c : Collection Float)
      → (plan_of fl q im).use_index ≡ true
      → get_index fl im (plan_of fl q im).index_name (plan_of fl q im).index_name ≡ none
      → let name = (plan_of fl q im).index_name in
        execute_get fl q im c ≡ done (index_failed (not_found (index_key name name)))
  unfolding execute_get execute_plan optimize
  execute_get-index_failed q im c u h = elim (optimize_plans fl (optimizer_of fl q im) q) [
    | inl (no_index, scan, index_filters, post_filters, none_serves) ↦ cc
    | inr (idx, m, uses, name, type, served, filters, scan) ↦ rw scan (
        execute_scan-failed im (plan_of fl q im) c (plan_of fl q im).post_filters
          (query_plan_index-none im (plan_of fl q im) _ filters h))
  ]
