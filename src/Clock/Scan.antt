-- ===== src/Clock/Scan.antt =====
-- The loop of Compare (clock/vector_clock.go): which keys it visits and when it sets each flag.
use knirvbase.Base.{
  String, ◌≡◌, refl, sym, ap, ◌∙◌, ◌⊎◌, inl, inr, Bool, true, false, none, List, [], ◌∷◌,
  if◌then◌else◌, ◌==◌, eq_iff, arith, Bool-cases, is_some,
}
use knirvbase.Base.Int.{ℤ, ltb_ℤ, ◌≤ℤ◌, ◌<ℤ◌, ltb-lt, ltb-le}
use knirvbase.GoMap.{get, lookup, entries, insert}
use knirvbase.GoMap.Laws.{lookup-insert}
use knirvbase.Clock.{VectorClock, at, add_keys, all_keys, Flags, see, scan, verdict, compare}

-- every counter of `a` is at most that of `b`
abbrev pub Leq : VectorClock → VectorClock → Type 0
Leq a b = (k : String) → at a k ≤ℤ at b k

-- some counter of `a` is below that of `b`
abbrev pub LessAt : VectorClock → VectorClock → Type 0
LessAt a b = (k : String) × (at a k <ℤ at b k)

-- the keys that the loop visits are those of either clock
lookup-add_keys :
    (j : String) (es : List (String × ℤ)) (keys : List (String × Unit {0}))
    → is_some (lookup j (add_keys es keys))
      ≡ (if is_some (lookup j es) then true else is_some (lookup j keys))
unfolding lookup add_keys
lookup-add_keys j [] keys = refl
lookup-add_keys j ((k, v) ∷ es) keys =
    ground (arith, lookup-add_keys j es (insert k tt keys), lookup-insert k j tt keys)

module _ (a b : VectorClock) where
  lookup-all_keys :
      (j : String) → lookup j (all_keys a b) ≡ none → (get a j ≡ none) × (get b j ≡ none)
  unfolding all_keys lookup
  lookup-all_keys j h = ground (
    arith,
    lookup-add_keys j (entries b) (add_keys (entries a) []),
    lookup-add_keys j (entries a) [],
  )

  -- `hasGreater` stays set once it is.
  scan_greater :
      (keys : List (String × Unit {0})) (f : Flags)
      → f.has_greater ≡ true
      → (scan a b keys f).has_greater ≡ true
  unfolding scan see
  scan_greater [] f h = h
  scan_greater ((k, u) ∷ keys) f h = scan_greater keys (see (at a k) (at b k) f) (ground arith)

  -- If it is set in the end, it was set before or some key has set it.
  greater_key :
      (keys : List (String × Unit {0})) (f : Flags)
      → (scan a b keys f).has_greater ≡ true
      → (f.has_greater ≡ true) ⊎ LessAt b a
  unfolding scan see
  greater_key [] f h = inl h
  greater_key ((k, u) ∷ keys) f h = elim (greater_key keys (see (at a k) (at b k) f) h) [
    | inr found ↦ inr found
    | inl seen ↦ elim (Bool-cases (ltb_ℤ (at b k) (at a k))) [
      | inl e ↦ inr (k, ltb-lt (at b k) (at a k) e)
      | inr e ↦ inl (ground arith)
    ]
  ]

  -- A key that is visited and has the greater counter in `a` sets it.
  visit_greater :
      (j : String) (keys : List (String × Unit {0})) (f : Flags)
      → is_some (lookup j keys) ≡ true
      → ltb_ℤ (at b j) (at a j) ≡ true
      → (scan a b keys f).has_greater ≡ true
  unfolding scan lookup see
  visit_greater j [] f h g = ground arith
  visit_greater j ((k, u) ∷ keys) f h g = elim (Bool-cases (k == j)) [
    | inl e ↦ scan_greater keys (see (at a k) (at b k) f) (rw ((eq_iff k j).0 e, see, g))
    | inr e ↦ visit_greater j keys (see (at a k) (at b k) f) (ground arith) g
  ]

  -- A key with unequal counters is visited.
  visited : (j : String) → ltb_ℤ (at b j) (at a j) ≡ true → is_some (lookup j (all_keys a b)) ≡ true
  visited j g = ground (arith, lookup-all_keys j)

abbrev start : Flags
start = record { has_greater = false; has_less = false }

abbrev swap : Flags → Flags
swap f = record { has_greater = f.has_less; has_less = f.has_greater }

-- With the clocks exchanged the flags are exchanged.
scan-swap :
    (a b : VectorClock) (keys : List (String × Unit {0})) (f : Flags)
    → swap (scan a b keys f) ≡ scan b a keys (swap f)
unfolding scan see
scan-swap a b [] f = refl
scan-swap a b ((k, u) ∷ keys) f = scan-swap a b keys (see (at a k) (at b k) f)

module _ (a b : VectorClock) where
  pub greater : Bool
  greater = (scan a b (all_keys a b) start).has_greater

  pub less : Bool
  less = (scan a b (all_keys a b) start).has_less

  pub greater-true : greater ≡ true → LessAt b a
  unfolding greater
  greater-true h = elim (greater_key a b (all_keys a b) start h) [
    | inr found ↦ found
    | inl e ↦ absurd (ground arith)
  ]

  pub greater-false : greater ≡ false → Leq a b
  unfolding greater
  greater-false h j = elim (Bool-cases (ltb_ℤ (at b j) (at a j))) [
    | inr e ↦ ltb-le (at b j) (at a j) e
    | inl e ↦ ground (arith, visit_greater a b j (all_keys a b) start (visited a b j e) e)
  ]

  less_swap : less ≡ (scan b a (all_keys a b) start).has_greater
  unfolding less
  less_swap = ap (λ (f : Flags). f.has_greater) (scan-swap a b (all_keys a b) start)

  pub less-true : less ≡ true → LessAt a b
  less-true h = elim (greater_key b a (all_keys a b) start (sym less_swap ∙ h)) [
    | inr found ↦ found
    | inl e ↦ absurd (ground arith)
  ]

  pub less-false : less ≡ false → Leq b a
  less-false h j = elim (Bool-cases (ltb_ℤ (at a j) (at b j))) [
    | inr e ↦ ltb-le (at a j) (at b j) e
    | inl e ↦
        ground (arith, less_swap, visit_greater b a j (all_keys a b) start (visited_less j e) e)
  ]
    where
      visited_less :
          (j : String) → ltb_ℤ (at a j) (at b j) ≡ true → is_some (lookup j (all_keys a b)) ≡ true
      visited_less j g = ground (arith, lookup-all_keys a b j)

  pub compare-verdict : compare a b ≡ verdict greater less
  unfolding compare greater less
  compare-verdict = refl
