-- ===== src/Clock/Merge.antt =====
-- Merge and Increment (clock/vector_clock.go): the merge is the least upper bound in the order
-- that Compare decides, and an increment moves a clock strictly forward.
use knirvbase.Base.{
  String, ◌≡◌, ◌≢◌, refl, sym, ap, ◌∙◌, ◌↔◌, Option, none, some, List, [], ◌∷◌, if◌then◌else◌, ◌==◌,
  eq_iff, eq_refl, arith,
}
use knirvbase.Base.Int.{
  ℤ, pos, ◌≤ℤ◌, ◌<ℤ◌, max_int64, IsInt64, add64, add64-one-lt, maxℤ, maxℤ_comm, maxℤ_assoc,
  maxℤ_self, le-max_left, le-max_right, max-le, ≤ℤ_trans,
}
use knirvbase.GoMap.{get, lookup, insert, insert_all, entries, Distinct, IsMap}
use knirvbase.GoMap.Laws.{lookup-insert, insert-Distinct, lookup-insert_all, insert_all-Distinct}
use knirvbase.Clock.{
  VectorClock, before, concurrent, or_zero, at, takes_over, merge_into, merge, increment, compare,
}
use knirvbase.Clock.Scan.{Leq}
use knirvbase.Clock.Order.{Related-compare}

-- the greater of two counters that may be missing
abbrev pub newest : Option ℤ → Option ℤ → Option ℤ
newest none b = b
newest (some a) none = some a
newest (some a) (some b) = some (maxℤ a b)

merge_into-Distinct : (es m : List (String × ℤ)) → Distinct m → Distinct (merge_into es m)
unfolding merge_into
merge_into-Distinct [] m d = d
merge_into-Distinct ((k, v) ∷ es) m d =
    merge_into-Distinct es _ (ground (arith, insert-Distinct k v m))

lookup-merge_into :
    (j : String) (es m : List (String × ℤ))
    → Distinct es
    → lookup j (merge_into es m) ≡ newest (lookup j m) (lookup j es)
unfolding merge_into lookup takes_over maxℤ
lookup-merge_into j [] m d = ground arith
lookup-merge_into j ((k, v) ∷ es) m d = ground (
  arith,
  eq_iff k j,
  lookup-insert k j v m,
  lookup-merge_into j es m,
  lookup-merge_into j es (insert k v m),
)

-- The merge of two clocks is a map again, with a key once.
pub merge-IsMap : (a b : VectorClock) → IsMap a → IsMap b → IsMap (merge a b)
unfolding merge
merge-IsMap a b da db = merge_into-Distinct (entries b) _ (insert_all-Distinct (entries a) [] tt)

-- Key by key, Merge keeps the greater counter, and a counter that one side lacks as it is.
pub get-merge :
    (a b : VectorClock) (k : String)
    → IsMap a
    → IsMap b
    → get (merge a b) k ≡ newest (get a k) (get b k)
unfolding merge lookup
get-merge a b k da db = ground (
  arith,
  lookup-merge_into k (entries b) (insert_all (entries a) []),
  lookup-insert_all k (entries a) [],
)

newest_comm : (a b : Option ℤ) → newest a b ≡ newest b a
newest_comm none none = refl
newest_comm none (some b) = refl
newest_comm (some a) none = refl
newest_comm (some a) (some b) = ap some (maxℤ_comm a b)

newest_assoc : (a b c : Option ℤ) → newest (newest a b) c ≡ newest a (newest b c)
newest_assoc none b c = refl
newest_assoc (some a) none c = refl
newest_assoc (some a) (some b) none = refl
newest_assoc (some a) (some b) (some c) = ap some (maxℤ_assoc a b c)

newest_self : (a : Option ℤ) → newest a a ≡ a
newest_self none = refl
newest_self (some a) = ap some (maxℤ_self a)

-- On clocks that are maps, Merge is commutative, associative and idempotent, key by key.
pub merge_semilattice :
    (a b c : VectorClock)
    → IsMap a
    → IsMap b
    → IsMap c
    → (k : String)
    → (get (merge a b) k ≡ get (merge b a) k)
      × (get (merge (merge a b) c) k ≡ get (merge a (merge b c)) k)
      × (get (merge a a) k ≡ get a k)
merge_semilattice a b c da db dc k = (
  get-merge a b k da db ∙ newest_comm (get a k) (get b k) ∙ sym (get-merge b a k db da),
  get-merge (merge a b) c k (merge-IsMap a b da db) dc
      ∙ ap (λ x. newest x (get c k)) (get-merge a b k da db)
      ∙ newest_assoc (get a k) (get b k) (get c k)
      ∙ sym (ap (newest (get a k)) (get-merge b c k db dc))
      ∙ sym (get-merge a (merge b c) k da (merge-IsMap b c db dc)),
  get-merge a a k da da ∙ newest_self (get a k),
)

-- No counter is negative: so it is with clocks that start empty and are only incremented, below
-- the greatest int64, and merged.
abbrev pub IsNatural : VectorClock → Type 0
IsNatural c = (k : String) → pos 0 ≤ℤ at c k

at-newest :
    (a b : Option ℤ)
    → pos 0 ≤ℤ or_zero a
    → pos 0 ≤ℤ or_zero b
    → or_zero (newest a b) ≡ maxℤ (or_zero a) (or_zero b)
unfolding maxℤ
at-newest none none h k = refl
at-newest none (some b) h k = ground arith
at-newest (some a) none h k = ground arith
at-newest (some a) (some b) h k = refl

module _ (a b : VectorClock) (da : IsMap a) (db : IsMap b) (na : IsNatural a)
    (nb : IsNatural b) where
  pub at-merge : (k : String) → at (merge a b) k ≡ maxℤ (at a k) (at b k)
  at-merge k = ap or_zero (get-merge a b k da db) ∙ at-newest (get a k) (get b k) (na k) (nb k)

  pub Leq-merge_left : Leq a (merge a b)
  Leq-merge_left k = rw (at-merge k) (le-max_left (at a k) (at b k))

  pub Leq-merge_right : Leq b (merge a b)
  Leq-merge_right k = rw (at-merge k) (le-max_right (at a k) (at b k))

  pub merge-Leq : (c : VectorClock) → Leq a c → Leq b c → Leq (merge a b) c
  merge-Leq c h l k = rw (at-merge k) (max-le (at a k) (at b k) (at c k) (h k) (l k))

  pub merge-IsNatural : IsNatural (merge a b)
  merge-IsNatural k = rw (at-merge k) (unfold maxℤ in ground (arith, na k, nb k))

  -- Of clocks with no negative counter, the merge is the least upper bound in the order of Compare:
  -- it is at or before a clock exactly if both clocks are.
  pub merge_least : (c : VectorClock) → Leq (merge a b) c ↔ (Leq a c × Leq b c)
  merge_least c = (
    (λ h. (
      (λ k. ≤ℤ_trans (at a k) (at (merge a b) k) (at c k) (Leq-merge_left k) (h k)),
      (λ k. ≤ℤ_trans (at b k) (at (merge a b) k) (at c k) (Leq-merge_right k) (h k)),
    )),
    (λ h. merge-Leq c h.0 h.1),
  )

pub get-increment :
    (c : VectorClock) (p k : String)
    → get (increment c p) k ≡ (if p == k then some (add64 (at c p) (pos 1)) else get c k)
unfolding increment
get-increment c p k = lookup-insert p k (add64 (at c p) (pos 1)) (entries c)

at-increment_ne : (c : VectorClock) (p k : String) → p ≢ k → at (increment c p) k ≡ at c k
at-increment_ne c p k h = ground (arith, get-increment c p k, eq_iff p k)

at-increment_self : (c : VectorClock) (p : String) → at (increment c p) p ≡ add64 (at c p) (pos 1)
at-increment_self c p = rw (get-increment c p p, eq_refl p)

module _ (c : VectorClock) (p : String) (r : IsInt64 (at c p)) (h : at c p <ℤ pos max_int64) where
  below : at c p <ℤ at (increment c p) p
  below = rw at-increment_self (add64-one-lt (at c p) r h).0

  Leq-increment : Leq c (increment c p)
  Leq-increment k = ground (arith, get-increment c p k, eq_iff p k, add64-one-lt (at c p))

  -- The increment of an int64 counter below the greatest gives a clock that Compare finds later.
  pub compare-increment : compare c (increment c p) ≡ before
  compare-increment = Related-compare c (increment c p) before (Leq-increment, (p, below))

-- Two different peers that increment the same clock, each with an int64 counter below the greatest,
-- get clocks that Compare finds concurrent.
pub increments_concurrent :
    (c : VectorClock) (p q : String)
    → p ≢ q
    → IsInt64 (at c p)
    → at c p <ℤ pos max_int64
    → IsInt64 (at c q)
    → at c q <ℤ pos max_int64
    → compare (increment c p) (increment c q) ≡ concurrent
increments_concurrent c p q ne rp hp rq hq =
    Related-compare (increment c p) (increment c q) concurrent (
      (q, rw (at-increment_ne c p q ne) (below c q rq hq)),
      (p, rw (at-increment_ne c q p (λ e. ne (sym e))) (below c p rp hp)),
    )
