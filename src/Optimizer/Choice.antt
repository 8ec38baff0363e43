-- ===== src/Optimizer/Choice.antt =====
-- What a plan is made of (query/optimizer.go): the filters that an index serves, and the first of the
-- sorted candidates, which is the cheapest.
use mathlib.Core.List.{Mem, mem-cons_of_mem, mem-cons_self}
use mathlib.Core.Path.{subst}
use mathlib.Core.Option.{some-injective}
use knirvbase.Base.{
  ◌≡◌, refl, sym, ◌∙◌, true, false, none, some, List, [], ◌∷◌, if◌then◌else◌, All, Bool-cases, inl,
  inr, ◌≢◌, ◌⊎◌, Option-cases,
}
use knirvbase.Floats.{Floats}
use knirvbase.Index.{Index}
use knirvbase.Query.{Filter}
use knirvbase.Optimizer.{
  IndexCandidate, QueryOptimizer, can_use_index, usable, candidate, candidates, insert_candidate,
  sort_candidates, first,
}

module _ (fl : Floats) where
  open fl use {Float, less}

  -- every filter of the list can use the index
  abbrev pub Served : Index Float → List (Filter Float) → Type 0
  Served idx fs = All (λ f. can_use_index fl idx f ≡ true) fs

  pub usable-Served : (idx : Index Float) (fs : List (Filter Float)) → Served idx (usable fl idx fs)
  unfolding usable
  usable-Served idx [] = tt
  usable-Served idx (f ∷ fs) = elim (Bool-cases (can_use_index fl idx f)) [
    | inl e ↦ rw e (e, usable-Served idx fs)
    | inr e ↦ rw e (usable-Served idx fs)
  ]

  -- What a candidate is: an index that serves a filter, with the filters dealt out.
  abbrev pub Candidate : QueryOptimizer Float → List (Filter Float) → IndexCandidate Float → Type 0
  Candidate qo fs c =
      (idx : Index Float) × Mem idx qo.indexes
      × (c ≡ candidate fl qo.stats fs idx)
      × (usable fl idx fs ≢ [])

  pub candidates-All :
      (qo : QueryOptimizer Float) (fs : List (Filter Float)) (idxs : List (Index Float))
      → ((i : Index Float) → Mem i idxs → Mem i qo.indexes)
      → All (Candidate qo fs) (candidates fl qo.stats fs idxs)
  unfolding candidates
  candidates-All qo fs [] sub = tt
  candidates-All qo fs (idx ∷ idxs) sub =
      let rest = candidates-All qo fs idxs (λ i m. sub i (mem-cons_of_mem idx m)) in
      with_use (usable fl idx fs) refl rest
    where
      with_use :
          (us : List (Filter Float))
          → usable fl idx fs ≡ us
          → All (Candidate qo fs) (candidates fl qo.stats fs idxs)
          → All (Candidate qo fs) (elim us [
            | [] ↦ candidates fl qo.stats fs idxs
            | f ∷ gs ↦ candidate fl qo.stats fs idx ∷ candidates fl qo.stats fs idxs
          ])
      with_use [] e rest = rest
      with_use (f ∷ gs) e rest = ((idx, sub idx mem-cons_self, refl, λ n. cc), rest)

  -- the head of the sorted list after one more candidate
  first-insert_candidate :
      (c : IndexCandidate Float) (cs : List (IndexCandidate Float))
      → first fl (insert_candidate fl c cs)
        ≡ elim (first fl cs) [ none ↦ some c | some d ↦ some (if less d.cost c.cost then d else c) ]
  unfolding insert_candidate
  first-insert_candidate c [] = refl
  first-insert_candidate c (d ∷ ds) = elim (Bool-cases (less d.cost c.cost)) [
    | inl e ↦ rw e refl
    | inr e ↦ rw e refl
  ]

  -- the head is the newest or the head of the rest, whichever the comparison takes
  first-sort_candidates :
      (c : IndexCandidate Float) (cs : List (IndexCandidate Float)) {best : IndexCandidate Float}
      → first fl (sort_candidates fl (c ∷ cs)) ≡ some best
      → ((first fl (sort_candidates fl cs) ≡ none) × (c ≡ best))
        ⊎ ((d : IndexCandidate Float) × (first fl (sort_candidates fl cs) ≡ some d)
            × ((if less d.cost c.cost then d else c) ≡ best))
  unfolding sort_candidates
  first-sort_candidates c cs {best} h =
      let g = sym (first-insert_candidate c (sort_candidates fl cs)) ∙ h in
      elim (Option-cases (first fl (sort_candidates fl cs))) [
        | inl e ↦
            let s : some c ≡ some best = sym (rw e refl) ∙ g in inl (e, some-injective c best s)
        | inr (d, e) ↦
            let s : some (if less d.cost c.cost then d else c) ≡ some best = sym (rw e refl) ∙ g in
            inr (d, e, some-injective _ best s)
      ]

  pub first-All :
      (P : IndexCandidate Float → Type 0) (cs : List (IndexCandidate Float))
      {best : IndexCandidate Float}
      → All P cs
      → first fl (sort_candidates fl cs) ≡ some best
      → P best
  unfolding sort_candidates
  first-All P [] all h = cc
  first-All P (c ∷ cs) {best} (p, all) h = elim (first-sort_candidates c cs h) [
    | inl (e, s) ↦ subst P s p
    | inr (d, e, s) ↦ elim (Bool-cases (less d.cost c.cost)) [
      | inl b ↦ let t : d ≡ best = sym (rw b refl) ∙ s in subst P t (first-All P cs all e)
      | inr b ↦ let t : c ≡ best = sym (rw b refl) ∙ s in subst P t p
    ]
  ]

  pub first-none :
      (cs : List (IndexCandidate Float)) → first fl (sort_candidates fl cs) ≡ none → cs ≡ []
  unfolding sort_candidates
  first-none [] h = refl
  first-none (c ∷ cs) h =
      let g = sym (first-insert_candidate c (sort_candidates fl cs)) ∙ h in
      elim (Option-cases (first fl (sort_candidates fl cs))) [
        | inl e ↦ let s : some c ≡ none = sym (rw e refl) ∙ g in cc
        | inr (d, e) ↦
            let s : some (if less d.cost c.cost then d else c) ≡ none = sym (rw e refl) ∙ g in cc
      ]

  -- no candidate of the list is cheaper
  abbrev pub Cheapest : IndexCandidate Float → List (IndexCandidate Float) → Type 0
  Cheapest best cs = All (λ d. less d.cost best.cost ≡ false) cs

  -- the cost of each is a number, which a NaN is not
  abbrev pub Priced : (Float → Type 0) → List (IndexCandidate Float) → Type 0
  Priced IsNumber cs = All (λ c. IsNumber c.cost) cs

  Cheapest-trans :
      (IsNumber : Float → Type 0)
      → ((x y z : Float) → IsNumber y → less x y ≡ false → less y z ≡ false → less x z ≡ false)
      → (c d : IndexCandidate Float) (cs : List (IndexCandidate Float)) → IsNumber d.cost
      → Cheapest d cs
      → less d.cost c.cost ≡ false
      → Cheapest c cs
  Cheapest-trans IsNumber le_trans c d [] m all h = tt
  Cheapest-trans IsNumber le_trans c d (x ∷ xs) m (p, all) h =
      (le_trans x.cost d.cost c.cost m p h, Cheapest-trans IsNumber le_trans c d xs m all h)

  pub first-Cheapest :
      (IsNumber : Float → Type 0)
      → ((x y : Float) → less x y ≡ true → less y x ≡ false)
      → ((x y z : Float) → IsNumber y → less x y ≡ false → less y z ≡ false → less x z ≡ false)
      → (cs : List (IndexCandidate Float)) {best : IndexCandidate Float} → Priced IsNumber cs
      → first fl (sort_candidates fl cs) ≡ some best
      → Cheapest best cs
  unfolding sort_candidates
  first-Cheapest IsNumber asym le_trans [] m h = tt
  first-Cheapest IsNumber asym le_trans (c ∷ cs) {best} (n, m) h =
      elim (first-sort_candidates c cs h) [
        | inl (e, s) ↦
            let empty : cs ≡ [] = first-none cs e in
            subst (λ b. Cheapest b (c ∷ cs)) s (irrefl c, rw empty tt)
        | inr (d, e, s) ↦ elim (Bool-cases (less d.cost c.cost)) [
          | inl b ↦
              let t : d ≡ best = sym (rw b refl) ∙ s in
              subst (λ x. Cheapest x (c ∷ cs)) t
                (asym d.cost c.cost b, first-Cheapest IsNumber asym le_trans cs m e)
          | inr b ↦
              let t : c ≡ best = sym (rw b refl) ∙ s in
              subst (λ x. Cheapest x (c ∷ cs)) t
                (
                  irrefl c,
                  Cheapest-trans IsNumber le_trans c d cs (first-All (λ x. IsNumber x.cost) cs m e)
                      (first-Cheapest IsNumber asym le_trans cs m e) b,
                )
        ]
      ]
    where
      irrefl : (x : IndexCandidate Float) → less x.cost x.cost ≡ false
      irrefl x = elim (Bool-cases (less x.cost x.cost)) [ inl b ↦ asym x.cost x.cost b | inr b ↦ b ]
