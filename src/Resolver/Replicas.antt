-- ===== src/Resolver/Replicas.antt =====
-- Two operations that reach two replicas in different orders (resolver/crdt_resolver.go).
use knirvbase.Base.{String, ◌≡◌, sym, ap, ◌∙◌, true, Option, none, some, arith}
use knirvbase.Base.Int.{ℤ, ◌<ℤ◌, maxℤ, maxℤ_comm, maxℤ_assoc}
use knirvbase.GoMap.{get, IsMap}
use knirvbase.GoMap.Laws.{or_else}
use knirvbase.Outcome.{Outcome, returns, ◌>>=◌}
use knirvbase.Clock.{at, compare}
use knirvbase.Types.{DistributedDocument, CrdtOperation}
use knirvbase.Resolver.{before_or_concurrent, apply_operation}
use knirvbase.Resolver.Apply.{
  OperationValid, is_upsert, applied, apply-applied, at-applied, applied-IsMap, applied-IsNatural,
  guard_true, fields-applied,
}

-- what a run has left in a document: its clock, and a field of its payload
abbrev pub counter_after :
    {V : Type 0} → Outcome (Option (DistributedDocument V)) → String → Option ℤ
counter_after (returns (some d)) k = some (at d.vector k)
counter_after _ k = none

abbrev pub field_after : {V : Type 0} → Outcome (Option (DistributedDocument V)) → String → Option V
field_after (returns (some d)) k = get d.payload k
field_after _ k = none

-- the first operation, then the second
abbrev pub apply_both :
    {V : Type 0}
    → DistributedDocument V
    → CrdtOperation V
    → CrdtOperation V
    → Outcome (Option (DistributedDocument V))
apply_both d op1 op2 = apply_operation (some d) op1 >>= λ o. apply_operation o op2

module _ {V : Type 0} (d : DistributedDocument V) (op1 op2 : CrdtOperation V)
    (p1 p2 : DistributedDocument V) (v1 : OperationValid V d op1 p1)
    (v2 : OperationValid V d op2 p2) where
  -- the second operation meets the document that the first has left
  then_valid : OperationValid V (applied d op1 p1) op2 p2
  then_valid = record {
    doc_map = applied-IsMap d op1 p1 v1;
    doc_natural = applied-IsNatural d op1 p1 v1;
    op_map = v2.op_map;
    op_natural = v2.op_natural;
    known = v2.known;
    carries = v2.carries;
  }

  pub apply_both-applied : apply_both d op1 op2 ≡ returns (some (applied (applied d op1 p1) op2 p2))
  apply_both-applied =
      rw (apply-applied d op1 p1 v1) (apply-applied (applied d op1 p1) op2 p2 then_valid)

  at-both :
      (k : String)
      → at (applied (applied d op1 p1) op2 p2).vector k
        ≡ maxℤ (maxℤ (at d.vector k) (at op1.vector k)) (at op2.vector k)
  at-both k =
      at-applied (applied d op1 p1) op2 p2 then_valid k
      ∙ ap (λ z. maxℤ z (at op2.vector k)) (at-applied d op1 p1 v1 k)

  -- the second operation has a counter that neither the document nor the first one has
  news_after_first :
      (k : String)
      → at d.vector k <ℤ at op2.vector k
      → at op1.vector k <ℤ at op2.vector k
      → before_or_concurrent (compare (applied d op1 p1).vector op2.vector) ≡ true
  news_after_first k h l =
      guard_true (applied d op1 p1).vector op2.vector
        (k, rw (at-applied d op1 p1 v1 k) (unfold maxℤ in ground arith))

  last_wins :
      (k f : String) (y : V)
      → at d.vector k <ℤ at op2.vector k
      → at op1.vector k <ℤ at op2.vector k
      → is_upsert op2.op_type ≡ true
      → IsMap p2.payload
      → get p2.payload f ≡ some y
      → field_after (apply_both d op1 op2) f ≡ some y
  last_wins k f y h l u m e = rw apply_both-applied (
      fields-applied (applied d op1 p1) op2 p2 then_valid f (news_after_first k h l) u m
      ∙ ap (λ x. or_else x (get (applied d op1 p1).payload f)) e)

module _ {V : Type 0} (d : DistributedDocument V) (op1 op2 : CrdtOperation V)
    (p1 p2 : DistributedDocument V) (v1 : OperationValid V d op1 p1)
    (v2 : OperationValid V d op2 p2) where
  -- Two known operations that carry documents, with maps of no negative counter as clocks, leave on
  -- a document with such a clock the same counter for every peer in either order: the greatest of
  -- the three.
  pub clocks_converge :
      (k : String)
      → (counter_after (apply_both d op1 op2) k ≡ counter_after (apply_both d op2 op1) k)
        × (counter_after (apply_both d op1 op2) k
            ≡ some (maxℤ (at d.vector k) (maxℤ (at op1.vector k) (at op2.vector k))))
  clocks_converge k = (
    rw (apply_both-applied d op1 op2 p1 p2 v1 v2, apply_both-applied d op2 op1 p2 p1 v2 v1)
        (ap some (
          first
          ∙ ap (maxℤ (at d.vector k)) (maxℤ_comm (at op1.vector k) (at op2.vector k))
          ∙ sym second)),
    rw (apply_both-applied d op1 op2 p1 p2 v1 v2) (ap some first),
  )
    where
      first :
          at (applied (applied d op1 p1) op2 p2).vector k
          ≡ maxℤ (at d.vector k) (maxℤ (at op1.vector k) (at op2.vector k))
      first =
          at-both d op1 op2 p1 p2 v1 v2 k
          ∙ maxℤ_assoc (at d.vector k) (at op1.vector k) (at op2.vector k)

      second :
          at (applied (applied d op2 p2) op1 p1).vector k
          ≡ maxℤ (at d.vector k) (maxℤ (at op2.vector k) (at op1.vector k))
      second =
          at-both d op2 op1 p2 p1 v2 v1 k
          ∙ maxℤ_assoc (at d.vector k) (at op2.vector k) (at op1.vector k)

  -- If at one peer the counter of a first insert or update is above both the document's and the second
  -- one's, and at another peer the second one's is above both the document's and the first one's, and
  -- both carry a field, with maps as payloads, then the document keeps in that field the value of the
  -- one that arrived last: after one order the second's value, after the other the first's. The
  -- operations are known and all clocks are maps with no negative
  -- counter.
  pub fields_diverge :
      (k1 k2 f : String) (x y : V)
      → at d.vector k1 <ℤ at op1.vector k1
      → at op2.vector k1 <ℤ at op1.vector k1
      → at d.vector k2 <ℤ at op2.vector k2
      → at op1.vector k2 <ℤ at op2.vector k2
      → is_upsert op1.op_type ≡ true
      → is_upsert op2.op_type ≡ true
      → IsMap p1.payload
      → IsMap p2.payload
      → get p1.payload f ≡ some x
      → get p2.payload f ≡ some y
      → (field_after (apply_both d op1 op2) f ≡ some y)
        × (field_after (apply_both d op2 op1) f ≡ some x)
  fields_diverge k1 k2 f x y a1 b1 a2 b2 u1 u2 m1 m2 e1 e2 = (
    last_wins d op1 op2 p1 p2 v1 v2 k2 f y a2 b2 u2 m2 e2,
    last_wins d op2 op1 p2 p1 v2 v1 k1 f x a1 b1 u1 m1 e1,
  )
