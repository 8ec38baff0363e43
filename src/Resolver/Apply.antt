-- ===== src/Resolver/Apply.antt =====
-- ApplyOperation (resolver/crdt_resolver.go): what an operation leaves in the document, and what
-- becomes of two operations in either order.
use knirvbase.Base.{
  String, ◌≡◌, refl, sym, ap, inl, inr, Bool, true, false, some, none, Option, [], ◌∙◌, ◌⊎◌, arith,
  Bool-cases, if◌then◌else◌,
}
use knirvbase.Base.Int.{maxℤ, max-eq_left, le-max_right, ≤ℤ_of_eq, pos_part, neg_part}
use knirvbase.GoMap.{nil, made, entries, get, IsMap, insert_all, lookup}
use knirvbase.GoMap.Laws.{or_else, or_else-none, lookup-insert_all}
use knirvbase.Outcome.{returns, ◌>>=◌}
use knirvbase.Clock.{
  VectorClock, ComparisonResult, equal, before, after, concurrent, at, compare, merge, clone,
  or_zero,
}
use knirvbase.Clock.Scan.{Leq, LessAt}
use knirvbase.Clock.Order.{Related, compare-Related}
use knirvbase.Clock.Merge.{IsNatural, at-merge, merge-IsMap}
use knirvbase.Types.{
  DistributedDocument, CrdtOperation, op_insert, op_update, op_delete, op_other, OperationType,
}
use knirvbase.Resolver.{
  before_or_concurrent, merge_fields, apply_upsert, apply_delete, apply_operation, later_timestamp,
}

not_newer :
    (c : ComparisonResult) (a b : VectorClock)
    → Related c a b
    → Leq b a
    → before_or_concurrent c ≡ false
unfolding before_or_concurrent
not_newer equal a b h l = refl
not_newer before a b h l = let (k, lt) = h.1 in absurd (omega (arith, l k, lt))
not_newer after a b h l = refl
not_newer concurrent a b h l = let (k, lt) = h.0 in absurd (omega (arith, l k, lt))

newer :
    (c : ComparisonResult) (a b : VectorClock)
    → Related c a b
    → LessAt a b
    → before_or_concurrent c ≡ true
unfolding before_or_concurrent
newer equal a b h (k, lt) = absurd (omega (arith, ap pos_part (h k), ap neg_part (h k), lt))
newer before a b h l = refl
newer after a b h (k, lt) = absurd (omega (arith, h.0 k, lt))
newer concurrent a b h l = refl

below_of_not_newer :
    (c : ComparisonResult) (a b : VectorClock)
    → Related c a b
    → before_or_concurrent c ≡ false
    → Leq b a
unfolding before_or_concurrent
below_of_not_newer equal a b h e = λ k. ≤ℤ_of_eq (sym (h k))
below_of_not_newer before a b h e = cc
below_of_not_newer after a b h e = h.0
below_of_not_newer concurrent a b h e = cc

module _ (a b : VectorClock) where
  -- The guard of ApplyOperation passes exactly if some counter of the operation is news.
  pub guard_false : Leq b a → before_or_concurrent (compare a b) ≡ false
  guard_false = not_newer (compare a b) a b (compare-Related a b)

  pub guard_true : LessAt a b → before_or_concurrent (compare a b) ≡ true
  guard_true = newer (compare a b) a b (compare-Related a b)

  pub no_news : before_or_concurrent (compare a b) ≡ false → Leq b a
  no_news = below_of_not_newer (compare a b) a b (compare-Related a b)

abbrev pub is_upsert : OperationType → Bool
is_upsert op_insert = true
is_upsert op_update = true
is_upsert op_delete = false
is_upsert (op_other n) = false

abbrev pub is_known : OperationType → Bool
is_known (op_other n) = false
is_known _ = true

-- The document and the operation hold well-formed clocks with no negative counter, the operation is
-- of one of the three known types, and it carries a document.
pub record OperationValid (V : Type 0) (d : DistributedDocument V) (op : CrdtOperation V)
    (p : DistributedDocument V) : Type 0 where
  pub doc_map : IsMap d.vector
  pub doc_natural : IsNatural d.vector
  pub op_map : IsMap op.vector
  pub op_natural : IsNatural op.vector
  pub known : is_known op.op_type ≡ true
  pub carries : op.doc ≡ some p

module _ {V : Type 0} (d : DistributedDocument V) (op : CrdtOperation V)
    (p : DistributedDocument V) where
  -- the document after an operation whose guard passes
  written : OperationType → DistributedDocument V
  written op_delete = record d {
    deleted = true;
    vector = merge d.vector op.vector;
    timestamp = later_timestamp d.timestamp op.timestamp;
  }
  written _ = record d {
    payload = made (insert_all (entries p.payload) (entries d.payload));
    vector = merge d.vector op.vector;
    timestamp = later_timestamp d.timestamp op.timestamp;
  }

  -- the document after the operation
  pub applied : DistributedDocument V
  applied = if before_or_concurrent (compare d.vector op.vector) then written op.op_type else d

  vector-written : (t : OperationType) → (written t).vector ≡ merge d.vector op.vector
  unfolding written
  vector-written op_delete = refl
  vector-written _ = refl

  module _ (v : OperationValid V d op p) where
    -- On an existing document an operation returns, and leaves `applied`.
    pub apply-applied : apply_operation (some d) op ≡ returns (some applied)
    unfolding apply_operation apply_upsert apply_delete merge_fields applied written
    apply-applied = ground (arith, v.known, v.carries)

    vector-applied :
        before_or_concurrent (compare d.vector op.vector) ≡ true
        → applied.vector ≡ merge d.vector op.vector
    unfolding applied
    vector-applied e = rw e (vector-written op.op_type)

    -- The document's clock goes to the greater counter for every peer.
    pub at-applied : (k : String) → at applied.vector k ≡ maxℤ (at d.vector k) (at op.vector k)
    unfolding applied
    at-applied k = elim (Bool-cases (before_or_concurrent (compare d.vector op.vector))) [
      | inl e ↦
          rw (e, vector-written op.op_type)
            (at-merge d.vector op.vector v.doc_map v.op_map v.doc_natural v.op_natural k)
      | inr e ↦
          rw (e)
            (sym (max-eq_left (at d.vector k) (at op.vector k) (no_news d.vector op.vector e k)))
    ]

    Leq-applied : Leq op.vector applied.vector
    Leq-applied k = rw (at-applied k) (le-max_right (at d.vector k) (at op.vector k))

    pub applied-IsMap : IsMap applied.vector
    unfolding applied
    applied-IsMap = elim (Bool-cases (before_or_concurrent (compare d.vector op.vector))) [
      | inl e ↦
          rw (e, vector-written op.op_type) (merge-IsMap d.vector op.vector v.doc_map v.op_map)
      | inr e ↦ rw e v.doc_map
    ]

    pub applied-IsNatural : IsNatural applied.vector
    applied-IsNatural k =
        rw (at-applied k) (unfold maxℤ in ground (arith, v.doc_natural k, v.op_natural k))

    -- The fields of an insert or an update that is news are laid over the document's.
    pub fields-applied :
        (f : String)
        → before_or_concurrent (compare d.vector op.vector) ≡ true
        → is_upsert op.op_type ≡ true
        → IsMap p.payload
        → get applied.payload f ≡ or_else (get p.payload f) (get d.payload f)
    unfolding applied written
    fields-applied f e u m =
        ground (arith, lookup-insert_all f (entries p.payload) (entries d.payload))

  -- Applying an operation to a document that has it changes nothing.
  pub apply_known_operation :
      is_known op.op_type ≡ true
      → Leq op.vector d.vector
      → apply_operation (some d) op ≡ returns (some d)
  unfolding apply_operation apply_upsert apply_delete
  apply_known_operation h l = ground (arith, guard_false d.vector op.vector l)

Leq-clone : (c : VectorClock) → IsMap c → Leq c (clone c)
unfolding clone lookup
Leq-clone nil m k = ≤ℤ_of_eq {a = at nil k} refl
Leq-clone (made es) m k =
    ≤ℤ_of_eq (ap or_zero (sym (lookup-insert_all k es [] m ∙ or_else-none (lookup k es))))

module _ {V : Type 0} where
  -- An operation that carries the document p arrives where there is no document yet, or at one.
  abbrev pub Ready :
      Option (DistributedDocument V) → CrdtOperation V → DistributedDocument V → Type 0
  Ready none op p = IsMap op.vector × (is_known op.op_type ≡ true) × (op.doc ≡ some p)
  Ready (some d) op p = OperationValid V d op p

  -- the document that an operation creates
  abbrev created : CrdtOperation V → DistributedDocument V → DistributedDocument V
  created op p = record p {
    vector = clone op.vector;
    timestamp = op.timestamp;
    peer_id = op.peer_id;
  }

  apply_new_operation :
      (op : CrdtOperation V) (p : DistributedDocument V)
      → is_known op.op_type ≡ true
      → op.doc ≡ some p
      → (apply_operation none op ≡ returns none)
        ⊎ (apply_operation none op ≡ returns (some (created op p)))
  unfolding apply_operation apply_upsert apply_delete
  apply_new_operation op p known carries = go op.op_type refl
    where
      go :
          (t : OperationType)
          → op.op_type ≡ t
          → (apply_operation none op ≡ returns none)
            ⊎ (apply_operation none op ≡ returns (some (created op p)))
      go op_insert e = inr (ground (arith, e, carries))
      go op_update e = inr (ground (arith, e, carries))
      go op_delete e = inl (ground (arith, e))
      go (op_other n) e = inl (ground (arith, e))

  -- A known operation that carries a document and arrives a second time changes nothing, whether the
  -- first time found a document or not.
  pub apply_idempotent :
      (o : Option (DistributedDocument V)) (op : CrdtOperation V) (p : DistributedDocument V)
      → Ready o op p
      → (apply_operation o op >>= λ o'. apply_operation o' op) ≡ apply_operation o op
  apply_idempotent none op p (m, known, carries) = elim (apply_new_operation op p known carries) [
    | inl e ↦ rw (e, e) refl
    | inr e ↦ rw e (apply_known_operation (created op p) op p known (Leq-clone op.vector m))
  ]
  apply_idempotent (some d) op p v =
      rw (apply-applied d op p v)
        (apply_known_operation (applied d op p) op p v.known (Leq-applied d op p v))
