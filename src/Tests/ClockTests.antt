-- ===== src/Tests/ClockTests.antt =====
-- Clocks of two peers (go/internal/clock).
use knirvbase.Base.{◌≡◌, refl, ◌↔◌, [], ◌∷◌, arith}
use knirvbase.Base.Int.{pos}
use knirvbase.GoMap.{made, nil, get, lookup, IsMap, insert, insert_all}
use knirvbase.Clock.{
  VectorClock, concurrent, compare, merge, merge_into, takes_over, all_keys, scan, see, verdict,
}
use knirvbase.Clock.Scan.{Leq}
use knirvbase.Clock.Order.{Related, compare-Related}
use knirvbase.Clock.Merge.{newest, get-merge, merge_least, IsNatural}

abbrev pub left : VectorClock
left = made (("a", pos 2) ∷ ("b", pos 1) ∷ [])

abbrev pub right : VectorClock
right = made (("b", pos 3) ∷ ("a", pos 1) ∷ ("c", pos 4) ∷ [])

pub left-IsMap : IsMap left
unfolding lookup
left-IsMap = (refl, (refl, tt))

pub right-IsMap : IsMap right
unfolding lookup
right-IsMap = (refl, (refl, (refl, tt)))

pub left-IsNatural : IsNatural left
unfolding lookup
left-IsNatural k = ground arith

pub right-IsNatural : IsNatural right
unfolding lookup
right-IsNatural k = ground arith

-- a run of Compare, of Merge and of HappensBefore
compare_run : compare left right ≡ concurrent
unfolding compare all_keys scan see verdict lookup insert
compare_run = refl

merge_run : merge left right ≡ made (("a", pos 2) ∷ ("b", pos 3) ∷ ("c", pos 4) ∷ [])
unfolding merge merge_into takes_over lookup insert insert_all
merge_run = refl

compare-Related_example : Related (compare left right) left right
compare-Related_example = compare-Related left right

get-merge_example : get (merge left right) "b" ≡ newest (get left "b") (get right "b")
get-merge_example = get-merge left right "b" left-IsMap right-IsMap

merge_least_example : Leq (merge left right) nil ↔ (Leq left nil × Leq right nil)
merge_least_example =
    merge_least left right left-IsMap right-IsMap left-IsNatural right-IsNatural nil
