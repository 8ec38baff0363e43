-- ===== src/Tests/ResolverTests.antt =====
-- Documents of two peers and operations on them (go/internal/resolver).
use knirvbase.Base.{ℕ, ◌≡◌, refl, true, false, some, [], ◌∷◌, arith, inl}
use knirvbase.Base.Int.{pos, maxℤ}
use knirvbase.GoMap.{made, lookup, IsMap}
use knirvbase.Outcome.{◌>>=◌}
use knirvbase.Clock.{VectorClock, concurrent, at, compare}
use knirvbase.Clock.Order.{Related-compare}
use knirvbase.Types.{DistributedDocument, CrdtOperation, op_update}
use knirvbase.Resolver.{resolve_conflict, apply_operation}
use knirvbase.Resolver.Resolve.{resolve_symmetric, resolve_dominates, Dominated}
use knirvbase.Resolver.Apply.{OperationValid, apply_idempotent}
use knirvbase.Resolver.Replicas.{
  clocks_converge, fields_diverge, apply_both, field_after, counter_after,
}
use knirvbase.Tests.ClockTests.{
  left, right, left-IsMap, right-IsMap, left-IsNatural, right-IsNatural,
}

abbrev local : DistributedDocument ℕ
local = record {
  id = "doc";
  entry_type = "MEMORY";
  payload = made (("x", 1) ∷ []);
  vector = left;
  timestamp = pos 10;
  peer_id = "a";
  stage = "";
  deleted = false;
}

abbrev remote : DistributedDocument ℕ
remote = record local {
  payload = made (("x", 2) ∷ ("y", 3) ∷ []);
  vector = right;
  timestamp = pos 20;
  peer_id = "b";
}

left-right : compare left right ≡ concurrent
unfolding lookup
left-right = Related-compare left right concurrent (("b", omega arith), ("a", omega arith))

resolve_symmetric_example :
    (resolve_conflict (some local) (some remote)).result
    ≡ (resolve_conflict (some remote) (some local)).result
resolve_symmetric_example =
    resolve_symmetric local remote (λ e. ground (arith, left-right)) (inl (ground arith))

resolve_dominates_example :
    Dominated left (resolve_conflict (some local) (some remote)).result
    × Dominated right (resolve_conflict (some local) (some remote)).result
resolve_dominates_example =
    resolve_dominates local remote
      (record {
        local_map = left-IsMap;
        remote_map = right-IsMap;
        local_natural = left-IsNatural;
        remote_natural = right-IsNatural;
      })
      refl

abbrev gone : DistributedDocument ℕ
gone = record remote { deleted = true }

abbrev update : CrdtOperation ℕ
update = record {
  id = "op";
  op_type = op_update;
  collection = "memory";
  document_id = "doc";
  doc = some remote;
  vector = right;
  timestamp = pos 20;
  peer_id = "b";
}

update_valid : OperationValid ℕ local update remote
update_valid = record {
  doc_map = left-IsMap;
  doc_natural = left-IsNatural;
  op_map = right-IsMap;
  op_natural = right-IsNatural;
  known = refl;
  carries = refl;
}

apply_idempotent_example :
    (apply_operation (some local) update >>= λ o. apply_operation o update)
    ≡ apply_operation (some local) update
apply_idempotent_example = apply_idempotent (some local) update remote update_valid

abbrev other_clock : VectorClock
other_clock = made (("d", pos 1) ∷ [])

other_clock-IsMap : IsMap other_clock
unfolding lookup
other_clock-IsMap = (refl, tt)

abbrev other : CrdtOperation ℕ
other = record update {
  doc = some (record remote { payload = made (("x", 7) ∷ []) });
  vector = other_clock;
  peer_id = "d";
}

other_valid : OperationValid ℕ local other (record remote { payload = made (("x", 7) ∷ []) })
unfolding lookup
other_valid = record {
  doc_map = left-IsMap;
  doc_natural = left-IsNatural;
  op_map = other_clock-IsMap;
  op_natural = λ k. ground arith;
  known = refl;
  carries = refl;
}

clocks_converge_example :
    (counter_after (apply_both local update other) "b"
      ≡ counter_after (apply_both local other update) "b")
    × (counter_after (apply_both local update other) "b"
        ≡ some (maxℤ (at left "b") (maxℤ (at right "b") (at other_clock "b"))))
clocks_converge_example =
    clocks_converge local update other remote (record remote { payload = made (("x", 7) ∷ []) })
      update_valid other_valid "b"

fields_diverge_example :
    (field_after (apply_both local update other) "x" ≡ some 7)
    × (field_after (apply_both local other update) "x" ≡ some 2)
unfolding lookup
fields_diverge_example =
    fields_diverge local update other remote (record remote { payload = made (("x", 7) ∷ []) })
      update_valid other_valid "c" "d" "x" 2 7 (omega arith) (omega arith) (omega arith)
      (omega arith) refl refl (refl, (refl, tt)) (refl, tt) refl refl
