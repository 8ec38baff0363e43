-- ===== src/Clock.antt =====
-- go/internal/clock/vector_clock.go: clocks are maps from peer IDs to int64 counters.
pub mod Scan
pub mod Order
pub mod Merge
use knirvbase.Base.{
  String, Bool, true, false, Option, none, some, List, [], ◌∷◌, if◌then◌else◌, ◌||◌, is_some,
}
use knirvbase.Base.Int.{ℤ, pos, add64, ltb_ℤ}
use knirvbase.GoMap.{GoMap, nil, made, entries, get, lookup, insert, insert_all}

abbrev pub VectorClock : Type 0
VectorClock = GoMap ℤ

pub data ComparisonResult : Type 0 where
  equal before after concurrent : ComparisonResult

-- clock[k] as an int64: 0 for a key that is not there
abbrev pub or_zero : Option ℤ → ℤ
or_zero none = pos 0
or_zero (some v) = v

abbrev pub at : VectorClock → String → ℤ
at c k = or_zero (get c k)

-- Increment: a nil clock is made first.
unfoldable pub increment : VectorClock → String → VectorClock
increment clock peer_id = made (insert peer_id (add64 (at clock peer_id) (pos 1)) (entries clock))

-- the test `existing, ok := merged[k]; !ok || v > existing`
unfoldable pub takes_over : Option ℤ → ℤ → Bool
takes_over none v = true
takes_over (some existing) v = ltb_ℤ existing v

-- the second loop of Merge
unfoldable pub merge_into : List (String × ℤ) → List (String × ℤ) → List (String × ℤ)
merge_into [] merged = merged
merge_into ((k, v) ∷ es) merged =
    merge_into es (if takes_over (lookup k merged) v then insert k v merged else merged)

unfoldable pub merge : VectorClock → VectorClock → VectorClock
merge clock1 clock2 = made (merge_into (entries clock2) (insert_all (entries clock1) []))

-- for k := range clock { allKeys[k] = struct{}{} }
unfoldable pub add_keys : List (String × ℤ) → List (String × Unit {0}) → List (String × Unit {0})
add_keys [] keys = keys
add_keys ((k, v) ∷ es) keys = add_keys es (insert k tt keys)

unfoldable pub all_keys : VectorClock → VectorClock → List (String × Unit {0})
unfolding add_keys
all_keys clock1 clock2 = add_keys (entries clock2) (add_keys (entries clock1) [])

-- the flags hasGreater and hasLess
pub record Flags : Type 0 where
  pub has_greater : Bool
  pub has_less : Bool

-- one turn of the loop over allKeys
unfoldable pub see : ℤ → ℤ → Flags → Flags
see v1 v2 f = record {
  has_greater = if ltb_ℤ v2 v1 then true else f.has_greater;
  has_less = if ltb_ℤ v1 v2 then true else f.has_less;
}

unfoldable pub scan : VectorClock → VectorClock → List (String × Unit {0}) → Flags → Flags
scan clock1 clock2 [] f = f
scan clock1 clock2 ((k, _) ∷ keys) f = scan clock1 clock2 keys (see (at clock1 k) (at clock2 k) f)

-- the final switch of Compare
unfoldable pub verdict : Bool → Bool → ComparisonResult
verdict false false = equal
verdict true false = after
verdict false true = before
verdict true true = concurrent

unfoldable pub compare : VectorClock → VectorClock → ComparisonResult
compare clock1 clock2 =
    let f =
      scan clock1 clock2 (all_keys clock1 clock2)
        (record { has_greater = false; has_less = false }) in
    verdict f.has_greater f.has_less

abbrev pub is_before : ComparisonResult → Bool
is_before before = true
is_before _ = false

abbrev pub is_equal : ComparisonResult → Bool
is_equal equal = true
is_equal _ = false

unfoldable pub happens_before : VectorClock → VectorClock → Bool
happens_before clock1 clock2 = is_before (compare clock1 clock2) || is_equal (compare clock1 clock2)

unfoldable pub new_vector_clock : VectorClock
new_vector_clock = made []

-- Clone: nil stays nil, else every entry is copied into a new map.
unfoldable pub clone : VectorClock → VectorClock
clone nil = nil
clone (made es) = made (insert_all es [])
