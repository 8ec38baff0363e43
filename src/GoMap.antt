-- ===== src/GoMap.antt =====
-- Go's maps with string keys: nil, or made, with the entries in one of the orders in which a
-- `range` may visit them. A read of nil finds nothing, and a range over nil visits nothing.
-- Every write in the modelled code goes to a map that was made, so `insert` and `remove` work on
-- the entries of such a map.
pub mod Laws
use knirvbase.Base.{
  String, ◌≡◌, Bool, true, false, Option, none, some, List, [], ◌∷◌, if◌then◌else◌, ◌==◌,
}

pub data GoMap {ℓ} (V : Type ℓ) : Type ℓ where
  nil : GoMap V
  made : List (String × V) → GoMap V

module _ {ℓ} {V : Type ℓ} where
  -- what `range m` visits
  abbrev pub entries : GoMap V → List (String × V)
  entries nil = []
  entries (made es) = es

  -- v, ok := m[k]
  unfoldable pub lookup : String → List (String × V) → Option V
  lookup k [] = none
  lookup k ((j, v) ∷ es) = if j == k then some v else lookup k es

  abbrev pub get : GoMap V → String → Option V
  get m k = lookup k (entries m)

  -- m[k] = v
  unfoldable pub insert : String → V → List (String × V) → List (String × V)
  insert k v [] = (k, v) ∷ []
  insert k v ((j, w) ∷ es) = if j == k then (k, v) ∷ es else (j, w) ∷ insert k v es

  -- delete(m, k)
  unfoldable pub remove : String → List (String × V) → List (String × V)
  remove k [] = []
  remove k ((j, w) ∷ es) = if j == k then es else (j, w) ∷ remove k es

  -- for k, v := range es { m[k] = v }
  unfoldable pub insert_all : List (String × V) → List (String × V) → List (String × V)
  insert_all [] m = m
  insert_all ((k, v) ∷ es) m = insert_all es (insert k v m)

  -- for k, v := range es { if _, ok := m[k]; !ok { m[k] = v } }
  unfoldable pub insert_new : List (String × V) → List (String × V) → List (String × V)
  insert_new [] m = m
  insert_new ((k, v) ∷ es) m =
      insert_new es (elim (lookup k m) [ none ↦ insert k v m | some _ ↦ m ])

  -- A map holds a key once.
  abbrev pub Distinct : List (String × V) → Type ℓ
  Distinct [] = Unit
  Distinct ((k, v) ∷ es) = (lookup k es ≡ none) × Distinct es

  abbrev pub IsMap : GoMap V → Type ℓ
  IsMap m = Distinct (entries m)
