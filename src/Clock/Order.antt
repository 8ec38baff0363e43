-- ===== src/Clock/Order.antt =====
-- Compare and HappensBefore (clock/vector_clock.go) decide the pointwise order of clocks.
use knirvbase.Base.{
  String, ◌≡◌, refl, sym, ◌∙◌, ◌||◌, inl, inr, Bool, true, false, arith, Bool-cases, ◌↔◌,
}
use knirvbase.Base.Int.{eq_of_le, ≤ℤ_of_eq}
use knirvbase.Clock.{
  VectorClock, ComparisonResult, equal, before, after, concurrent, at, verdict, compare,
  happens_before, is_before, is_equal,
}
use knirvbase.Clock.Scan.{
  Leq, LessAt, greater, less, greater-true, greater-false, less-true, less-false, compare-verdict,
}

-- what each result says of the two clocks
abbrev pub Related : ComparisonResult → VectorClock → VectorClock → Type 0
Related equal a b = (k : String) → at a k ≡ at b k
Related before a b = Leq a b × LessAt a b
Related after a b = Leq b a × LessAt b a
Related concurrent a b = LessAt a b × LessAt b a

abbrev pub flip : ComparisonResult → ComparisonResult
flip equal = equal
flip before = after
flip after = before
flip concurrent = concurrent

module _ (a b : VectorClock) where
  -- The result of Compare holds of the two clocks, read as maps with 0 for the missing keys.
  pub compare-Related : Related (compare a b) a b
  unfolding verdict
  compare-Related = rw (compare-verdict a b) (decide (greater a b) (less a b) refl refl)
    where
      decide : (g l : Bool) → (greater a b) ≡ g → (less a b) ≡ l → Related (verdict g l) a b
      decide false false g l =
          λ k. eq_of_le (at a k) (at b k) ((greater-false a b) g k) ((less-false a b) l k)
      decide false true g l = ((greater-false a b) g, (less-true a b) l)
      decide true false g l = ((less-false a b) l, (greater-true a b) g)
      decide true true g l = ((less-true a b) l, (greater-true a b) g)

  greater_of_less : LessAt b a → (greater a b) ≡ true
  greater_of_less h = elim (Bool-cases (greater a b)) [
    | inl e ↦ e
    | inr e ↦ absurd (omega (arith, (greater-false a b) e h.0, h.1))
  ]

  greater_of_le : Leq a b → (greater a b) ≡ false
  greater_of_le h = elim (Bool-cases (greater a b)) [
    | inr e ↦ e
    | inl e ↦ let (k, lt) = (greater-true a b) e in absurd (omega (arith, h k, lt))
  ]

  less_of_less : LessAt a b → (less a b) ≡ true
  less_of_less h = elim (Bool-cases (less a b)) [
    | inl e ↦ e
    | inr e ↦ absurd (omega (arith, (less-false a b) e h.0, h.1))
  ]

  less_of_le : Leq b a → (less a b) ≡ false
  less_of_le h = elim (Bool-cases (less a b)) [
    | inr e ↦ e
    | inl e ↦ let (k, lt) = (less-true a b) e in absurd (omega (arith, h k, lt))
  ]

  -- A relation of two clocks that one of the results names is the result of Compare.
  pub Related-compare : (r : ComparisonResult) → Related r a b → compare a b ≡ r
  unfolding verdict
  Related-compare equal h = rw (
    (compare-verdict a b),
    greater_of_le (λ k. ≤ℤ_of_eq (h k)),
    less_of_le (λ k. ≤ℤ_of_eq (sym (h k))),
  )
  Related-compare before h = rw ((compare-verdict a b), greater_of_le h.0, less_of_less h.1)
  Related-compare after h = rw ((compare-verdict a b), greater_of_less h.1, less_of_le h.0)
  Related-compare concurrent h = rw ((compare-verdict a b), greater_of_less h.1, less_of_less h.0)

Related-flip : (r : ComparisonResult) (a b : VectorClock) → Related r a b → Related (flip r) b a
Related-flip equal a b h = λ k. sym (h k)
Related-flip before a b h = h
Related-flip after a b h = h
Related-flip concurrent a b h = (h.1, h.0)

-- Compare with the clocks exchanged.
pub compare-flip : (a b : VectorClock) → compare b a ≡ flip (compare a b)
compare-flip a b =
    Related-compare b a (flip (compare a b)) (Related-flip (compare a b) a b (compare-Related a b))

-- Two clocks that hold the same counters.
abbrev pub SameCounters : VectorClock → VectorClock → Type 0
SameCounters a b = (k : String) → at a k ≡ at b k

module _ (c c' d d' : VectorClock) (p : SameCounters c c') (q : SameCounters d d') where
  carry-Leq : Leq c' d' → Leq c d
  carry-Leq h k = rw (p k, q k) (h k)

  carry_less : LessAt c' d' → LessAt c d
  carry_less h = (h.0, rw (p h.0, q h.0) h.1)

module _ (a a' b b' : VectorClock) (p : SameCounters a a') (q : SameCounters b b') where
  carry : (r : ComparisonResult) → Related r a' b' → Related r a b
  carry equal h = λ k. p k ∙ h k ∙ sym (q k)
  carry before h = (carry-Leq a a' b b' p q h.0, carry_less a a' b b' p q h.1)
  carry after h = (carry-Leq b b' a a' q p h.0, carry_less b b' a a' q p h.1)
  carry concurrent h = (carry_less a a' b b' p q h.0, carry_less b b' a a' q p h.1)

  -- Clocks that hold the same counters compare alike.
  pub compare_congr : compare a b ≡ compare a' b'
  compare_congr =
      Related-compare a b (compare a' b') (carry (compare a' b') (compare-Related a' b'))

below_of_early :
    (r : ComparisonResult) (a b : VectorClock)
    → Related r a b
    → (is_before r || is_equal r) ≡ true
    → Leq a b
below_of_early equal a b h e = λ k. ≤ℤ_of_eq (h k)
below_of_early before a b h e = h.0
below_of_early after a b h e = cc
below_of_early concurrent a b h e = cc

early_of_below :
    (r : ComparisonResult) (a b : VectorClock)
    → Related r a b
    → Leq a b
    → (is_before r || is_equal r) ≡ true
early_of_below equal a b h l = refl
early_of_below before a b h l = refl
early_of_below after a b h l = let (k, lt) = h.1 in absurd (omega (arith, l k, lt))
early_of_below concurrent a b h l = let (k, lt) = h.1 in absurd (omega (arith, l k, lt))

-- HappensBefore holds exactly if no counter of the first clock is greater than the second's.
pub happens_before_iff : (a b : VectorClock) → (happens_before a b ≡ true) ↔ Leq a b
unfolding happens_before
happens_before_iff a b = (
  below_of_early (compare a b) a b (compare-Related a b),
  early_of_below (compare a b) a b (compare-Related a b),
)
