-- ===== src/Index/Buckets.antt =====
-- The B-tree and GIN buckets of storage/index.go: what an insertion and a deletion do to every key.
use knirvbase.Base.{
  ℕ, suc, ◌-◌, ◌≤◌, String, ◌≡◌, refl, ap, ◌∙◌, Bool, true, none, some, List, [], ◌∷◌, ◌++◌,
  if◌then◌else◌, ◌==◌, eq_iff, eq_refl, arith, length,
}
use knirvbase.GoMap.{lookup, Distinct}
use knirvbase.GoMap.Laws.{lookup-insert, insert-Distinct}
use knirvbase.Index.{Buckets, bucket, append_id, cut_first, delete_id, is_taken, insert_btree}

-- how often an ID stands in a bucket
abbrev pub count : String → List String → ℕ
count x [] = 0
count x (id ∷ ids) = if id == x then suc (count x ids) else count x ids

abbrev pub remove_first : String → List String → List String
remove_first doc_id ids = elim (cut_first doc_id ids) [ none ↦ ids | some rest ↦ rest ]

count-remove_first :
    (x doc_id : String) (ids : List String)
    → count x (remove_first doc_id ids) ≡ (if x == doc_id then count x ids - 1 else count x ids)
unfolding cut_first
count-remove_first x doc_id [] = ground arith
count-remove_first x doc_id (id ∷ ids) = ground (
  arith,
  eq_iff id doc_id,
  eq_iff id x,
  eq_iff x doc_id,
  count-remove_first x doc_id ids,
  cut_first_count doc_id ids,
)
  where
    cut_first_count :
        (doc_id : String) (ids : List String) → cut_first doc_id ids ≡ none → count doc_id ids ≡ 0
    cut_first_count doc_id [] h = refl
    cut_first_count doc_id (id ∷ ids) h =
        ground (arith, eq_iff id doc_id, cut_first_count doc_id ids)

pub bucket-append_id :
    (doc_id key j : String) (b : Buckets)
    → bucket j (append_id doc_id key b)
      ≡ (if key == j then bucket key b ++ doc_id ∷ [] else bucket j b)
unfolding append_id
bucket-append_id doc_id key j b =
    ground (arith, lookup-insert key j (bucket key b ++ doc_id ∷ []) b)

pub append_id-Distinct :
    (doc_id key : String) (b : Buckets) → Distinct b → Distinct (append_id doc_id key b)
unfolding append_id
append_id-Distinct doc_id key b = insert-Distinct key (bucket key b ++ doc_id ∷ []) b

-- a key that is not there does not come by a deletion
lookup-delete_id-none :
    (doc_id j : String) (b : Buckets) → lookup j b ≡ none → lookup j (delete_id doc_id b) ≡ none
unfolding lookup delete_id
lookup-delete_id-none doc_id j [] h = refl
lookup-delete_id-none doc_id j ((key, ids) ∷ rest) h =
    ground (arith, lookup-delete_id-none doc_id j rest)

pub delete_id-Distinct :
    (doc_id : String) (b : Buckets) → Distinct b → Distinct (delete_id doc_id b)
unfolding delete_id
delete_id-Distinct doc_id [] d = tt
delete_id-Distinct doc_id ((key, ids) ∷ rest) d =
    ground (arith, lookup-delete_id-none doc_id key rest, delete_id-Distinct doc_id rest)

-- A deletion takes the first occurrence of the ID out of every bucket.
pub bucket-delete_id :
    (doc_id j : String) (b : Buckets)
    → Distinct b
    → bucket j (delete_id doc_id b) ≡ remove_first doc_id (bucket j b)
unfolding lookup delete_id
bucket-delete_id doc_id j [] d = ground arith
bucket-delete_id doc_id j ((key, ids) ∷ rest) d =
    ground
      (arith, eq_iff key j, bucket-delete_id doc_id j rest, lookup-delete_id-none doc_id key rest)

-- In buckets with distinct keys, a deletion takes exactly one occurrence of the identifier out of
-- each bucket that has it, and no other identifier.
pub count-delete_id :
    (x doc_id j : String) (b : Buckets)
    → Distinct b
    → count x (bucket j (delete_id doc_id b))
      ≡ (if x == doc_id then count x (bucket j b) - 1 else count x (bucket j b))
count-delete_id x doc_id j b d =
    ap (count x) (bucket-delete_id doc_id j b d) ∙ count-remove_first x doc_id (bucket j b)

count-append :
    (x id : String) (ids : List String)
    → count x (ids ++ id ∷ []) ≡ (if id == x then suc (count x ids) else count x ids)
count-append x id [] = refl
count-append x id (y ∷ ids) = ground (arith, count-append x id ids)

remove_first-append :
    (doc_id : String) (ids : List String)
    → count doc_id ids ≡ 0
    → remove_first doc_id (ids ++ doc_id ∷ []) ≡ ids
unfolding cut_first
remove_first-append doc_id [] h = ground (arith, eq_refl doc_id)
remove_first-append doc_id (id ∷ ids) h =
    ground (arith, eq_iff id doc_id, remove_first-append doc_id ids)

remove_first_absent :
    (doc_id : String) (ids : List String) → count doc_id ids ≡ 0 → remove_first doc_id ids ≡ ids
unfolding cut_first
remove_first_absent doc_id [] h = refl
remove_first_absent doc_id (id ∷ ids) h =
    ground (arith, eq_iff id doc_id, remove_first_absent doc_id ids)

-- no bucket has the ID
abbrev pub Absent : String → Buckets → Type 0
Absent doc_id b = (j : String) → count doc_id (bucket j b) ≡ 0

pub bucket-delete_id-Absent :
    (doc_id j : String) (b : Buckets)
    → Distinct b
    → Absent doc_id b
    → bucket j (delete_id doc_id b) ≡ bucket j b
bucket-delete_id-Absent doc_id j b d absent =
    bucket-delete_id doc_id j b d ∙ remove_first_absent doc_id (bucket j b) (absent j)

-- In buckets with distinct keys, a deletion undoes the insertion of a document that no bucket had:
-- every bucket is as it was.
pub delete_id-insert_btree :
    (unique : Bool) (doc_id key : String) (b : Buckets)
    → Distinct b
    → Absent doc_id b
    → (j : String) → bucket j (delete_id doc_id (insert_btree unique doc_id key b)) ≡ bucket j b
unfolding insert_btree
delete_id-insert_btree unique doc_id key b d absent j = ground (
  arith,
  bucket-delete_id doc_id j b,
  bucket-delete_id doc_id j (append_id doc_id key b),
  append_id-Distinct doc_id key b d,
  bucket-append_id doc_id key j b,
  eq_iff key j,
  remove_first-append doc_id (bucket key b) (absent key),
  remove_first_absent doc_id (bucket j b) (absent j),
)

-- In buckets with distinct keys, a document that is inserted twice under one key is still found
-- after one deletion.
pub stale_after_delete :
    (doc_id key : String) (b : Buckets)
    → Distinct b
    → 1
      ≤ count doc_id (bucket key (delete_id doc_id (append_id doc_id key (append_id doc_id key b))))
stale_after_delete doc_id key b d = omega (arith, total)
  where
    twice : Buckets
    twice = append_id doc_id key (append_id doc_id key b)

    in_twice : count doc_id (bucket key twice) ≡ suc (suc (count doc_id (bucket key b)))
    in_twice = ground (
      arith,
      eq_refl key,
      eq_refl doc_id,
      bucket-append_id doc_id key key b,
      bucket-append_id doc_id key key (append_id doc_id key b),
      count-append doc_id doc_id (bucket key b),
      count-append doc_id doc_id (bucket key (append_id doc_id key b)),
    )

    total : count doc_id (bucket key (delete_id doc_id twice)) ≡ suc (count doc_id (bucket key b))
    total = ground (
      arith,
      eq_refl doc_id,
      in_twice,
      count-delete_id doc_id doc_id key twice (
          append_id-Distinct doc_id key (append_id doc_id key b)
            (append_id-Distinct doc_id key b d)),
    )

-- Under a unique index every key has at most one document.
abbrev pub AtMostOne : Buckets → Type 0
AtMostOne b = (j : String) → length (bucket j b) ≤ 1

length-remove_first :
    (doc_id : String) (ids : List String) → length (remove_first doc_id ids) ≤ length ids
unfolding cut_first
length-remove_first doc_id [] = omega arith
length-remove_first doc_id (id ∷ ids) = ground (arith, length-remove_first doc_id ids)

-- In buckets with distinct keys, each with one document at most, an insertion into a unique index
-- and a deletion keep every bucket at one document at most.
pub unique-AtMostOne :
    (doc_id key : String) (b : Buckets)
    → Distinct b
    → AtMostOne b
    → AtMostOne (insert_btree true doc_id key b) × AtMostOne (delete_id doc_id b)
unfolding insert_btree is_taken
unique-AtMostOne doc_id key b d one = (
  (λ j. ground (arith, one j, bucket-append_id doc_id key j b)),
  (λ j.
      rw (bucket-delete_id doc_id j b d)
        (omega (arith, one j, length-remove_first doc_id (bucket j b)))),
)
