-- ===== src/Query/Clauses.antt =====
-- What the parser makes of GET and DELETE (query/knirvql.go) beyond the well-formed texts.
use knirvbase.Base.{
  String, ◌≡◌, refl, sym, ap, ◌∙◌, ◌↔◌, ◌⊎◌, inl, inr, false, some, List, [], ◌∷◌, ◌++◌, ◌==◌,
  arith, eq_iff, All,
}
use knirvbase.Base.Int.{ℤ, pos}
use knirvbase.Floats.{Floats}
use knirvbase.Query.{Filter}
use knirvbase.Query.Parsed.{out_of_range}
use knirvbase.Query.Parse.{
  Clause, parse_clauses, parse_filter, parse_delete, parse_get, no_clause, get_query,
}
use knirvbase.Query.Values.{parse_vector, atoi}

module _ (fl : Floats) where
  open fl use {Float}

  -- one condition: key, operator and value
  pub record Condition : Type 0 where
    pub key : String
    pub operator : String
    pub word : String

  abbrev pub words_of_conditions : List Condition → List String
  words_of_conditions [] = []
  words_of_conditions (c ∷ cs) = c.key ∷ c.operator ∷ c.word ∷ words_of_conditions cs

  abbrev pub filters_of : List Condition → List (Filter Float)
  filters_of [] = []
  filters_of (c ∷ cs) = parse_filter fl c.key c.operator c.word ∷ filters_of cs

  -- no condition has a key that the loop takes for a clause
  abbrev pub IsCondition : Condition → Type 0
  IsCondition c = ((c.key == "SIMILAR") ≡ false) × ((c.key == "LIMIT") ≡ false)

  append_assoc_cons :
      (fs gs : List (Filter Float)) (f : Filter Float) → (fs ++ f ∷ []) ++ gs ≡ fs ++ f ∷ gs
  append_assoc_cons [] gs f = refl
  append_assoc_cons (x ∷ fs) gs f = ap (◌∷◌ x) (append_assoc_cons fs gs f)

  nil_right : (fs : List (Filter Float)) → fs ++ [] ≡ fs
  nil_right [] = refl
  nil_right (f ∷ fs) = ap (◌∷◌ f) (nil_right fs)

  -- The loop of parseGet takes conditions three words at a time, and goes on with the words after.
  parse_clauses-conditions :
      (cs : List Condition) (rest : List String) (c : Clause fl)
      → All IsCondition cs
      → parse_clauses fl (words_of_conditions cs ++ rest) c
        ≡ parse_clauses fl rest (record c { filters = c.filters ++ filters_of cs })
  unfolding parse_clauses
  parse_clauses-conditions [] rest c h =
      ap (λ fs. parse_clauses fl rest (record c { filters = fs })) (sym (nil_right c.filters))
  parse_clauses-conditions (d ∷ cs) rest c h = ground (
    arith,
    parse_clauses-conditions cs rest
        (record c { filters = c.filters ++ parse_filter fl d.key d.operator d.word ∷ [] }),
    append_assoc_cons c.filters (filters_of cs) (parse_filter fl d.key d.operator d.word),
  )

  -- A GET with conditions, none of them on a key SIMILAR or LIMIT, and a limit that is a number is
  -- parsed to those filters and that limit.
  pub parse_get-limit :
      (t n : String) (l : ℤ) (cs : List Condition) (rest : List String)
      → All IsCondition cs
      → atoi n ≡ some l
      → parse_get fl (t ∷ "WHERE" ∷ (words_of_conditions cs ++ "LIMIT" ∷ n ∷ rest))
        ≡ get_query fl t (record { filters = filters_of cs; similar_to = []; limit = l })
  unfolding parse_get
  parse_get-limit t n l cs rest h e =
      ap (get_query fl t)
        (parse_clauses-conditions cs ("LIMIT" ∷ n ∷ rest) (no_clause fl) h ∙ limit_clause rest)
    where
      limit_clause :
          (rest : List String)
          → parse_clauses fl
              ("LIMIT" ∷ n ∷ rest)
              (record (no_clause fl) { filters = filters_of cs })
            ≡ record { filters = filters_of cs; similar_to = []; limit = l }
      limit_clause [] = ground arith
      limit_clause (r ∷ rest) = ground arith

  -- In a GET with conditions, none of them on a key SIMILAR or LIMIT, nothing is read behind
  -- SIMILAR TO and its vector: a LIMIT there is dropped, and the limit is 0, which means none.
  pub parse_get-similar :
      (t vec : String) (cs : List Condition) (rest : List String)
      → All IsCondition cs
      → parse_get fl (t ∷ "WHERE" ∷ (words_of_conditions cs ++ "SIMILAR" ∷ "TO" ∷ vec ∷ rest))
        ≡ get_query fl t
            (record { filters = filters_of cs; similar_to = parse_vector fl vec; limit = pos 0 })
  unfolding parse_get
  parse_get-similar t vec cs rest h =
      ap (get_query fl t)
        (parse_clauses-conditions cs ("SIMILAR" ∷ "TO" ∷ vec ∷ rest) (no_clause fl) h)

  -- A DELETE panics exactly on the words WHERE id and WHERE id =, with nothing after them.
  pub parse_delete_panics :
      (ws : List String)
      → (parse_delete fl ws ≡ out_of_range)
        ↔ ((ws ≡ "WHERE" ∷ "id" ∷ []) ⊎ (ws ≡ "WHERE" ∷ "id" ∷ "=" ∷ []))
  unfolding parse_delete
  parse_delete_panics [] = ((λ h. cc), (λ h. ground arith))
  parse_delete_panics (a ∷ []) = ((λ h. cc), (λ h. ground arith))
  parse_delete_panics (a ∷ b ∷ []) = (
    (λ h. inl (ground (arith, eq_iff a "WHERE", eq_iff b "id"))),
    (λ h. ground (arith, eq_iff a "WHERE", eq_iff b "id")),
  )
  parse_delete_panics (a ∷ b ∷ c ∷ []) = (
    (λ h. inr (ground (arith, eq_iff a "WHERE", eq_iff b "id", eq_iff c "="))),
    (λ h. ground (arith, eq_iff a "WHERE", eq_iff b "id", eq_iff c "=")),
  )
  parse_delete_panics (a ∷ b ∷ c ∷ d ∷ ws) = ((λ h. absurd (ground arith)), (λ h. ground arith))
