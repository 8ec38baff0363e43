-- ===== src/Optimizer/Plan.antt =====
-- The plans of QueryOptimizer.Optimize (query/optimizer.go).
use mathlib.Core.List.{Mem}
use mathlib.Core.Path.{subst}
use knirvbase.Base.{
  ◌≡◌, refl, sym, true, false, Option, none, some, List, [], ◌∷◌, All, inl, inr, ◌≢◌, ◌⊎◌,
}
use knirvbase.Floats.{Floats}
use knirvbase.Index.{Index}
use knirvbase.Query.{Query, Filter}
use knirvbase.Optimizer.{
  IndexCandidate, QueryOptimizer, QueryPlan, usable, candidate, candidates, select_best_index,
  optimize, index_plan, plan_for, plan_with, full_scan, scan_type_for,
}
use knirvbase.Optimizer.Choice.{
  Served, usable-Served, Candidate, candidates-All, first-All, first-none, Cheapest, Priced,
  first-Cheapest,
}

module _ (fl : Floats) where
  open fl use {Float, less}

  -- A plan that reads the whole collection: no index serves a filter.
  abbrev pub FullScan : QueryOptimizer Float → Query Float → QueryPlan Float → Type 0
  FullScan qo q p =
      (p.use_index ≡ false)
      × (p.scan_type ≡ full_scan)
      × (p.index_filters ≡ [])
      × (p.post_filters ≡ q.filters)
      × All (λ idx. usable fl idx q.filters ≡ []) qo.indexes

  -- A plan that reads an index of the collection, with at least one filter that it serves.
  abbrev pub IndexScan : QueryOptimizer Float → Query Float → QueryPlan Float → Type 0
  IndexScan qo q p =
      (idx : Index Float) × Mem idx qo.indexes
      × (p.use_index ≡ true)
      × (p.index_name ≡ idx.name)
      × (p.index_type ≡ idx.index_type)
      × Served fl idx p.index_filters
      × (p.index_filters ≢ [])
      × (p.scan_type ≡ scan_type_for fl p.post_filters)

  candidates-nil :
      (qo : QueryOptimizer Float) (fs : List (Filter Float)) (idxs : List (Index Float))
      → candidates fl qo.stats fs idxs ≡ []
      → All (λ idx. usable fl idx fs ≡ []) idxs
  unfolding candidates
  candidates-nil qo fs [] h = tt
  candidates-nil qo fs (idx ∷ idxs) h =
      with_use (usable fl idx fs) refl (candidates-nil qo fs idxs) h
    where
      with_use :
          (us : List (Filter Float))
          → usable fl idx fs ≡ us
          → (candidates fl qo.stats fs idxs ≡ [] → All (λ i. usable fl i fs ≡ []) idxs)
          → (elim us [
            | [] ↦ candidates fl qo.stats fs idxs
            | f ∷ gs ↦ candidate fl qo.stats fs idx ∷ candidates fl qo.stats fs idxs
          ])
            ≡ []
          → All (λ idx. usable fl idx fs ≡ []) (idx ∷ idxs)
      with_use [] e rest n = (e, rest n)
      with_use (f ∷ gs) e rest n = cc

  no_filters : (idxs : List (Index Float)) → All (λ idx. usable fl idx [] ≡ []) idxs
  unfolding usable
  no_filters [] = tt
  no_filters (idx ∷ idxs) = (refl, no_filters idxs)

  index_plan-IndexScan :
      (qo : QueryOptimizer Float) (q : Query Float) (best : IndexCandidate Float)
      → Candidate fl qo q.filters best
      → IndexScan qo q (index_plan fl qo q best)
  unfolding candidate
  index_plan-IndexScan qo q best (idx, m, e, ne) =
      subst (λ c. IndexScan qo q (index_plan fl qo q c)) (sym e)
        (idx, m, refl, refl, refl, usable-Served fl idx q.filters, ne, refl)

  -- Whatever the query, its plan is a full scan, and then no index serves any of its filters, or the
  -- scan of one of the collection's indexes, with a filter for it to look up and only filters that it
  -- serves, which is an index-only scan when nothing is left to filter.
  pub optimize_plans :
      (qo : QueryOptimizer Float) (q : Query Float)
      → FullScan qo q (optimize fl qo q) ⊎ IndexScan qo q (optimize fl qo q)
  unfolding optimize select_best_index
  optimize_plans qo q = go q.filters refl
    where
      go :
          (fs : List (Filter Float))
          → q.filters ≡ fs
          → FullScan qo q (plan_for fl qo q fs) ⊎ IndexScan qo q (plan_for fl qo q fs)
      go [] e = inl (refl, refl, refl, refl, rw e (no_filters qo.indexes))
      go (f ∷ fs) e = with_best (select_best_index fl qo (f ∷ fs)) refl
        where
          with_best :
              (o : Option (IndexCandidate Float))
              → select_best_index fl qo (f ∷ fs) ≡ o
              → FullScan qo q (plan_with fl qo q o) ⊎ IndexScan qo q (plan_with fl qo q o)
          with_best none b = inl (
            refl,
            refl,
            refl,
            refl,
            rw e (candidates-nil qo (f ∷ fs) qo.indexes (first-none fl _ b)),
          )
          with_best (some best) b = inr (
              index_plan-IndexScan qo q best (
                rw e (
                  first-All fl (Candidate fl qo (f ∷ fs))
                    (candidates fl qo.stats (f ∷ fs) qo.indexes)
                    (candidates-All fl qo (f ∷ fs) qo.indexes (λ i m. m)) b)))

  -- no candidate that the query has in this optimizer is cheaper than the plan
  abbrev pub CheapestPlan : QueryOptimizer Float → Query Float → QueryPlan Float → Type 0
  CheapestPlan qo q p =
      All (λ c. less c.cost p.estimated_cost ≡ false) (candidates fl qo.stats q.filters qo.indexes)

  index_plan-CheapestPlan :
      (qo : QueryOptimizer Float) (q : Query Float) (best : IndexCandidate Float)
      → Candidate fl qo q.filters best
      → Cheapest fl best (candidates fl qo.stats q.filters qo.indexes)
      → CheapestPlan qo q (index_plan fl qo q best)
  unfolding candidate
  index_plan-CheapestPlan qo q best (idx, m, e, ne) all =
      subst (λ c. CheapestPlan qo q (index_plan fl qo q c)) (sym e)
        (subst (λ c. Cheapest fl c (candidates fl qo.stats q.filters qo.indexes)) e all)

  -- If the comparison of costs is asymmetric and its complement is transitive where the middle cost is
  -- a number, and the costs of the query's candidates are numbers, then no index that serves a filter
  -- of the query has a candidate that costs less than a plan that uses an index.
  pub optimize_cheapest :
      (IsNumber : Float → Type 0)
      → ((x y : Float) → less x y ≡ true → less y x ≡ false)
      → ((x y z : Float) → IsNumber y → less x y ≡ false → less y z ≡ false → less x z ≡ false)
      → (qo : QueryOptimizer Float) (q : Query Float)
      → Priced fl IsNumber (candidates fl qo.stats q.filters qo.indexes)
      → (optimize fl qo q).use_index ≡ true
      → CheapestPlan qo q (optimize fl qo q)
  unfolding optimize select_best_index
  optimize_cheapest IsNumber asym le_trans qo q priced u = go q.filters refl u
    where
      go :
          (fs : List (Filter Float))
          → q.filters ≡ fs
          → (plan_for fl qo q fs).use_index ≡ true
          → CheapestPlan qo q (plan_for fl qo q fs)
      go [] e u = cc
      go (f ∷ fs) e u = with_best (select_best_index fl qo (f ∷ fs)) refl u
        where
          with_best :
              (o : Option (IndexCandidate Float))
              → select_best_index fl qo (f ∷ fs) ≡ o
              → (plan_with fl qo q o).use_index ≡ true
              → CheapestPlan qo q (plan_with fl qo q o)
          with_best none b u = cc
          with_best (some best) b u =
              let cs = candidates fl qo.stats (f ∷ fs) qo.indexes in
              let known =
                first-All fl (Candidate fl qo (f ∷ fs)) cs
                  (candidates-All fl qo (f ∷ fs) qo.indexes (λ i m. m)) b in
              index_plan-CheapestPlan qo q best (rw e known)
                (rw e (first-Cheapest fl IsNumber asym le_trans cs (rw e at priced) b))
