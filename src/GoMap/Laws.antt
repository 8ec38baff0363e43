-- ===== src/GoMap/Laws.antt =====
-- What the operations on maps do to every key.
use knirvbase.Base.{
  String, ◌≡◌, refl, sym, ap, ◌∙◌, Option, none, some, List, [], ◌∷◌, ◌++◌, ◌⊎◌, inr, if◌then◌else◌,
  ◌==◌, eq_iff, eq_refl, arith,
}
use mathlib.Core.List.{append-nil, append_assoc}
use knirvbase.GoMap.{lookup, insert, remove, insert_all, insert_new, Distinct}

-- the first of the two that is there
abbrev pub or_else {ℓ} : {V : Type ℓ} → Option V → Option V → Option V
or_else none b = b
or_else (some a) b = some a

pub or_else-none {ℓ} : {V : Type ℓ} (o : Option V) → or_else o none ≡ o
or_else-none none = refl
or_else-none (some a) = refl

module _ {ℓ} {V : Type ℓ} where
  pub lookup-insert :
      (k j : String) (v : V) (es : List (String × V))
      → lookup j (insert k v es) ≡ (if k == j then some v else lookup j es)
  unfolding lookup insert
  lookup-insert k j v [] = refl
  lookup-insert k j v ((i, w) ∷ es) =
      ground (arith, eq_iff k j, eq_iff i k, eq_iff i j, lookup-insert k j v es)

  pub insert-Distinct :
      (k : String) (v : V) (es : List (String × V)) → Distinct es → Distinct (insert k v es)
  unfolding lookup insert
  insert-Distinct k v [] d = (refl, tt)
  insert-Distinct k v ((i, w) ∷ es) d =
      ground (arith, eq_iff i k, eq_iff k i, lookup-insert k i v es, insert-Distinct k v es)

  pub lookup-remove :
      (k j : String) (es : List (String × V))
      → Distinct es
      → lookup j (remove k es) ≡ (if k == j then none else lookup j es)
  unfolding lookup remove
  lookup-remove k j [] d = ground arith
  lookup-remove k j ((i, w) ∷ es) d =
      ground (arith, eq_iff k j, eq_iff i k, eq_iff i j, lookup-remove k j es)

  pub remove-Distinct : (k : String) (es : List (String × V)) → Distinct es → Distinct (remove k es)
  unfolding lookup remove
  remove-Distinct k [] d = tt
  remove-Distinct k ((i, w) ∷ es) d =
      ground (arith, eq_iff i k, eq_iff k i, lookup-remove k i es, remove-Distinct k es)

  pub lookup-insert_all :
      (j : String) (es m : List (String × V))
      → Distinct es
      → lookup j (insert_all es m) ≡ or_else (lookup j es) (lookup j m)
  unfolding lookup insert_all
  lookup-insert_all j [] m d = refl
  lookup-insert_all j ((k, v) ∷ es) m d =
      ground (arith, eq_iff k j, lookup-insert k j v m, lookup-insert_all j es (insert k v m))

  pub lookup-insert_new :
      (j : String) (es m : List (String × V))
      → lookup j (insert_new es m) ≡ or_else (lookup j m) (lookup j es)
  unfolding lookup insert_new
  lookup-insert_new j [] m = ground arith
  lookup-insert_new j ((k, v) ∷ es) m = ground (
    arith,
    eq_iff k j,
    lookup-insert k j v m,
    lookup-insert_new j es m,
    lookup-insert_new j es (insert k v m),
  )

  pub insert_all-Distinct : (es m : List (String × V)) → Distinct m → Distinct (insert_all es m)
  unfolding insert_all
  insert_all-Distinct [] m d = d
  insert_all-Distinct ((k, v) ∷ es) m d =
      insert_all-Distinct es (insert k v m) (insert-Distinct k v m d)

  insert_new_key :
      (k : String) (v : V) (m : List (String × V))
      → lookup k m ≡ none
      → insert k v m ≡ m ++ (k, v) ∷ []
  unfolding lookup insert
  insert_new_key k v [] h = refl
  insert_new_key k v ((j, w) ∷ m) h = ground (arith, insert_new_key k v m)

  insert_all-append :
      (es m : List (String × V))
      → Distinct es
      → ((j : String) → (lookup j es ≡ none) ⊎ (lookup j m ≡ none))
      → insert_all es m ≡ m ++ es
  unfolding lookup insert_all
  insert_all-append [] m d apart = sym (append-nil m)
  insert_all-append ((k, v) ∷ es) m d apart =
      insert_all-append es (insert k v m) (d.1)
        (λ j. ground (arith, eq_iff k j, lookup-insert k j v m, apart j))
      ∙ ap (λ l. l ++ es) (insert_new_key k v m (ground (arith, eq_refl k, apart k)))
      ∙ append_assoc m ((k, v) ∷ []) es

  -- A map that is copied entry by entry is the same map.
  pub insert_all_nil : (es : List (String × V)) → Distinct es → insert_all es [] ≡ es
  unfolding lookup
  insert_all_nil es d = insert_all-append es [] d (λ j. inr refl)
